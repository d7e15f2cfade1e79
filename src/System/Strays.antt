-- ===== src/System/Strays.antt =====
-- storage_service/src/main.rs, the push of sitemaps, as the loop of a worker sees it: texts that are pushed to
-- the queue uncounted.
use polite_web_crawler.Prelude.{
  ℕ, zero, suc, ◌+◌, ◌≡◌, refl, sym, ◌∙◌, ap, String, List, [], ◌∷◌, ◌++◌, length, length-append,
  arith,
}
use mathlib.Core.List.{append-nil, append_assoc}
use polite_web_crawler.Common.Outcome.{ok, err, panic}
use polite_web_crawler.Common.Queue.{Link, up, lost_request, lost_reply, command, push}
use polite_web_crawler.Storage.Consumer.{push_retried}
use polite_web_crawler.Worker.Core.Loop.{Shared, strays_in}

-- What a list of texts that are pushed uncounted does.
abbrev pub strayed : List String → Shared → Shared
strayed us s = record s { queue = s.queue ++ us; stray = s.stray + length us }

pub strays_in-strayed : (us : List String) (s : Shared) → strays_in (s.queue ++ us) s ≡ strayed us s
unfolding strays_in
strays_in-strayed us s =
    ap (λ n. record s { queue = s.queue ++ us; stray = s.stray + n })
      (omega (arith, length-append s.queue us))

pub strayed_nil : (s : Shared) → strayed [] s ≡ s
strayed_nil s =
    ap (λ q. record s { queue = q; stray = s.stray + 0 }) (append-nil s.queue)
    ∙ ap (λ n. record s { stray = n }) (omega arith)

pub strayed_append :
    (u : String) (us : List String) (s : Shared)
    → strayed us (strayed (u ∷ []) s) ≡ strayed (u ∷ us) s
strayed_append u us s =
    ap (λ q. record s { queue = q; stray = s.stray + 1 + length us })
      (append_assoc s.queue (u ∷ []) us)
    ∙ ap (λ n. record s { queue = s.queue ++ u ∷ us; stray = n }) (omega arith)

-- The pushes of one text add it some number of times.
pub push_retried-adds :
    (n i : ℕ) (links : ℕ → Link) (text : String) (queue : List String)
    → (us : List String) × (push_retried n i links text queue ≡ queue ++ us)
unfolding push_retried push command
push_retried-adds zero i links text queue = ([], sym (append-nil queue))
push_retried-adds (suc n) i links text queue =
    go (links i) (λ q. push_retried-adds n (suc i) links text q)
  where
    go :
        (l : Link)
        → ((q : List String) → (us : List String) × (push_retried n (suc i) links text q ≡ q ++ us))
        → (us : List String) × (elim (push l text queue).0 [
          | ok _ ↦ (push l text queue).1
          | err e ↦ push_retried n (suc i) links text (push l text queue).1
          | panic ↦ push_retried n (suc i) links text (push l text queue).1
        ]
            ≡ queue ++ us)
    go up again = (text ∷ [], refl)
    go (lost_request e) again = again queue
    go (lost_reply e) again =
        let (us, h) = again (queue ++ text ∷ []) in
        (text ∷ us, h ∙ append_assoc queue (text ∷ []) us)

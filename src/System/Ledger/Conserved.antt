-- ===== src/System/Ledger/Conserved.antt =====
-- The system with its record of URLs: what holds of every run.
use polite_web_crawler.Prelude.{
  ℕ, zero, suc, ◌+◌, ◌≡◌, refl, ◌∙◌, length, length-append, ap, inl, inr, String, List, [], ◌∷◌,
  ◌++◌, All, All-append, replicate, arith, Bool-cases,
}
use polite_web_crawler.Common.Outcome.{ok}
use polite_web_crawler.Common.Url.{Parsed, parsed, refused}
use polite_web_crawler.Common.Queue.{Link, up, command, push}
use polite_web_crawler.Storage.Service.{Env, CrawlerStorage, insert_url_in_seen_urls}
use polite_web_crawler.Storage.Consumer.{push_retried, push_new}
use polite_web_crawler.Worker.Core.Loop.{idle, Shared, strays_in}
use polite_web_crawler.System.{
  Place, looping, Act, Step, acts, sitemap, elsewhere, act_of, pushed_by, step, starting,
}
use polite_web_crawler.System.Ledger.{
  count, count-append, taken_of, found_of, sitemap_found, Ledger, enter, entries,
}
use polite_web_crawler.System.Ledger.Acts.{WorkingAct, bag, Normal, act-Kept}

-- The connection to the queue works, and no worker panics with a URL in its hands.
abbrev pub Working : {Url F32 Filter Store : Type 0} → Step Url F32 Filter Store → Type 0
Working (acts k a) = WorkingAct a
Working (sitemap p links) = (i : ℕ) → links i ≡ up
Working (elsewhere st) = Unit

module _ {Url Robot F32 Filter Store : Type 0} (env : Env Url Robot F32 Filter Store)
    (reparses : (u : Url) → env.urls.parse (env.urls.as_str u) ≡ parsed u) where
  -- How often a text is in the workers' hands or on its way to the queue.
  abbrev pub held : String → List (Place Url) → ℕ
  held x [] = 0
  held x (p ∷ ps) = count x (bag env reparses p) + held x ps

  abbrev Bags : List (Place Url) → Type 0
  Bags ps = All (λ p. All (Normal env reparses) (bag env reparses p)) ps

  act_of-Kept :
      (x : String) (k : ℕ) (a : Act Url) (st : CrawlerStorage F32 Filter Store) (s : Shared)
      (ps : List (Place Url))
      → WorkingAct a
      → All (Normal env reparses) s.queue
      → Bags ps
      → (count x (act_of env k a st s ps).1.queue
            + held x (act_of env k a st s ps).2
            + count x (taken_of env k a ps)
          ≡ count x s.queue + held x ps + count x (found_of env st k a ps))
        × All (Normal env reparses) (act_of env k a st s ps).1.queue
        × Bags (act_of env k a st s ps).2
        × (((act_of env k a st s ps).1.stray ≡ s.stray)
            × ((act_of env k a st s ps).1.leaked ≡ s.leaked))
  unfolding act_of taken_of found_of
  act_of-Kept x k a st s [] w h b = (omega arith, h, b, (refl, refl))
  act_of-Kept x zero a st s (p ∷ ps) w h (b, bs) =
      let (e, h', b', same) = act-Kept env reparses x st s p a w h b in
      (omega (arith, e), h', (b', bs), same)
  act_of-Kept x (suc k) a st s (p ∷ ps) w h (b, bs) =
      let (e, h', b', same) = act_of-Kept x k a st s ps w h bs in
      (omega (arith, e), h', (b, b'), same)

  -- What a run keeps: every text that was in the queue or has been found is in the queue, in a worker's
  -- hands, or has been taken up, as often; and only the new sitemaps get into the queue uncounted.
  abbrev Accounts : String → Shared → Ledger env → Type 0
  Accounts x s l =
      (count x l.world.shared.queue + held x l.world.places + count x l.taken
        ≡ count x s.queue + count x l.found)
      × All (Normal env reparses) l.world.shared.queue
      × Bags l.world.places
      × ((l.world.shared.stray ≡ s.stray + length l.sitemaps) × (l.world.shared.leaked ≡ s.leaked))

  push-up :
      (link : Link) (text : String) (queue : List String)
      → link ≡ up
      → push link text queue ≡ (ok tt, queue ++ text ∷ [])
  unfolding push command
  push-up link text queue h = rw h refl

  push_retried-up :
      (links : ℕ → Link) (text : String) (queue : List String)
      → ((i : ℕ) → links i ≡ up)
      → push_retried 3 1 links text queue ≡ queue ++ text ∷ []
  unfolding push_retried
  push_retried-up links text queue w =
      let first = push-up (links 1) text queue (w 1) in
      rw (push_retried, first) (ap (λ r. r.1) first)

  sitemap-Accounts :
      (x : String) (n : Shared) (p : Parsed Url) (links : ℕ → Link) (l : Ledger env)
      → ((i : ℕ) → links i ≡ up)
      → Accounts x n l
      → Accounts x n (enter env (sitemap p links) l)
  unfolding enter step pushed_by push_new sitemap_found strays_in
  sitemap-Accounts x n (refused e) links l w (e', h, b, (stray, leaked)) =
      (e', h, b, (omega (arith, stray), leaked))
  sitemap-Accounts x n (parsed u) links l w (e, h, b, (stray, leaked)) =
      elim (Bool-cases (insert_url_in_seen_urls env l.world.storage u).0) [
        | inl old ↦ rw old (e, h, b, (omega (arith, stray), leaked))
        | inr fresh ↦
            rw (fresh, push_retried-up links (env.urls.as_str u) l.world.shared.queue w)
              (
                omega (arith, e, count-append x l.world.shared.queue (env.urls.as_str u ∷ [])),
                All-append (Normal env reparses) l.world.shared.queue (env.urls.as_str u ∷ []) h
                    ((u, refl), tt),
                b,
                (
                  omega (arith, stray, length-append l.world.shared.queue (env.urls.as_str u ∷ [])),
                  leaked,
                ),
              )
      ]

  enter-Accounts :
      (x : String) (n : Shared) (e : Step Url F32 Filter Store) (l : Ledger env)
      → Working e
      → Accounts x n l
      → Accounts x n (enter env e l)
  unfolding enter step
  enter-Accounts x n (sitemap p links) l w h = sitemap-Accounts x n p links l w h
  enter-Accounts x n (elsewhere st) l w h = h
  enter-Accounts x n (acts k a) l w (e, h, b, (stray, leaked)) =
      let (e', h', b', (stray', leaked')) =
        act_of-Kept x k a l.world.storage l.world.shared l.world.places w h b in
      (
        omega (
          arith,
          e,
          e',
          count-append x (taken_of env k a l.world.places) l.taken,
          count-append x (found_of env l.world.storage k a l.world.places) l.found,
        ),
        h',
        b',
        (stray' ∙ stray, leaked' ∙ leaked),
      )

  entries-Accounts :
      (x : String) (n : Shared) (es : List (Step Url F32 Filter Store)) (l : Ledger env)
      → All Working es
      → Accounts x n l
      → Accounts x n (entries env es l)
  unfolding entries
  entries-Accounts x n [] l w h = h
  entries-Accounts x n (e ∷ es) l (w, ws) h =
      entries-Accounts x n es (enter env e l) ws (enter-Accounts x n e l w h)

  starting-Bags : (n : ℕ) → Bags (replicate n (looping idle))
  starting-Bags zero = tt
  starting-Bags (suc n) = (tt, starting-Bags n)

  starting-held : (x : String) (n : ℕ) → held x (replicate n (looping idle)) ≡ 0
  starting-held x zero = refl
  starting-held x (suc n) = omega (arith, starting-held x n)

  -- The system before the first step, with nothing found or taken up yet.
  abbrev pub opened : CrawlerStorage F32 Filter Store → Shared → ℕ → Ledger env
  opened st s tokio_workers = record {
    world = starting env st s tokio_workers;
    found = [];
    taken = [];
    sitemaps = [];
  }

  run-Accounts :
      (x : String) (st : CrawlerStorage F32 Filter Store) (s : Shared) (tokio_workers : ℕ)
      (es : List (Step Url F32 Filter Store))
      → All (Normal env reparses) s.queue
      → All Working es
      → Accounts x s (entries env es (opened st s tokio_workers))
  run-Accounts x st s tokio_workers es normal working =
      entries-Accounts x s es (opened st s tokio_workers) working (
        omega (arith, starting-held x tokio_workers),
        normal,
        starting-Bags tokio_workers,
        (omega arith, refl),
      )

  -- No URL is lost and none is made up. While the connection to the queue works and no worker panics with
  -- a URL in its hands, then in every run of the workers, the handlers and the consumer, in any
  -- order and whatever the storage, the pages and the rate limiter answer, every text is as often in the
  -- queue, in a worker's hands or on its way to the queue, or taken up, as it was in the queue at
  -- the start or has been found as a new URL since. Taken up are the URLs that the rate limiter grants,
  -- and those without a domain. Stated for a queue of texts that URLs are written as, and for URLs
  -- whose texts parse back to them.
  pub nothing_lost :
      (x : String) (st : CrawlerStorage F32 Filter Store) (s : Shared) (tokio_workers : ℕ)
      (es : List (Step Url F32 Filter Store))
      → All (Normal env reparses) s.queue
      → All Working es
      → let l = entries env es (opened st s tokio_workers) in
        count x l.world.shared.queue + held x l.world.places + count x l.taken
        ≡ count x s.queue + count x l.found
  nothing_lost x st s tokio_workers es normal working =
      (run-Accounts x st s tokio_workers es normal working).0

  -- Only the new sitemaps get into the queue uncounted, and no URL that a worker holds is lost.
  pub strays_are_sitemaps :
      (st : CrawlerStorage F32 Filter Store) (s : Shared) (tokio_workers : ℕ)
      (es : List (Step Url F32 Filter Store))
      → All (Normal env reparses) s.queue
      → All Working es
      → let l = entries env es (opened st s tokio_workers) in
        (l.world.shared.stray ≡ s.stray + length l.sitemaps) × (l.world.shared.leaked ≡ s.leaked)
  strays_are_sitemaps st s tokio_workers es normal working =
      (run-Accounts "" st s tokio_workers es normal working).3

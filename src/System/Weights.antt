-- ===== src/System/Weights.antt =====
-- crawler_core.rs, `worker_loop`: an operation of the loop makes no URL out of nothing. The queue, with the URLs
-- that a worker holds or may still push, never grows.
use polite_web_crawler.Prelude.{
  ℕ, zero, suc, ◌+◌, ◌*◌, ◌≤◌, ◌≡◌, refl, inl, inr, Bool, true, false, Option, none, some, String,
  List, [], ◌∷◌, length, length-append, arith, Bool-cases, ◌==◌,
}
use polite_web_crawler.Common.Outcome.{Outcome, ok, err, panic}
use polite_web_crawler.Common.Url.{UrlApi}
use polite_web_crawler.Common.Queue.{
  Link, up, lost_request, lost_reply, command, push, push_bulk, take_front, pop_front,
}
use polite_web_crawler.Worker.Core.Loop.{
  Phase, idle, guarded, counted, holding, pushing, pushed, Shared, Event, popped, tried, replied,
  proceeds, unwinds, cancelled, strays_in, after_pop, after_requeue, after_push, after_try,
  worker_step,
}

-- The URLs that a push may still add, from attempt `i` on.
abbrev pub left : ℕ → ℕ → ℕ
left (suc zero) n = 3 * n
left (suc (suc zero)) n = 2 * n
left (suc (suc (suc zero))) n = n
left i n = 0

abbrev pub phase_weight : {Url : Type 0} → Phase Url → ℕ
phase_weight (holding u) = 1
phase_weight guarded = 1
phase_weight (pushing i urls) = left i (length urls)
phase_weight p = 0

-- One of the three attempts.
abbrev pub Attempt : {Url : Type 0} → Phase Url → Type 0
Attempt (pushing i urls) = (1 ≤ i) × (i ≤ 3)
Attempt p = Unit

module _ {Url : Type 0} (api : UrlApi Url) where
  -- The queue and the worker weigh no more than before.
  abbrev pub Lighter : ℕ → Shared × Phase Url → Type 0
  Lighter n x = (length x.0.queue + phase_weight x.1 ≤ n) × Attempt x.1

  after_pop-Lighter :
      (s : Shared) (o : Outcome (Option Url)) (queue : List String) (n : ℕ)
      → ((u : Url) → o ≡ ok (some u) → length queue + 1 ≤ n)
      → length queue ≤ n
      → Lighter n (after_pop s (o, queue))
  unfolding after_pop
  after_pop-Lighter s (ok (some u)) queue n h k = (h u refl, tt)
  after_pop-Lighter s (ok none) queue n h k = (omega (arith, k), tt)
  after_pop-Lighter s (err e) queue n h k = (omega (arith, k), tt)
  after_pop-Lighter s panic queue n h k = (omega (arith, k), tt)

  pops-Lighter :
      (s : Shared) (link : Link)
      → Lighter (length s.queue) (after_pop s (pop_front api link s.queue))
  unfolding pop_front command take_front
  pops-Lighter s link = go link s.queue
    where
      go :
          (l : Link) (queue : List String)
          → Lighter (length queue) (after_pop s (pop_front api l queue))
      go up [] = after_pop-Lighter s _ [] 0 (λ u h. cc h) (omega arith)
      go up (line ∷ queue) =
          after_pop-Lighter s _ queue (suc (length queue)) (λ u h. omega arith) (omega arith)
      go (lost_request e) queue =
          after_pop-Lighter s _ queue (length queue) (λ u h. cc h) (omega arith)
      go (lost_reply e) [] = after_pop-Lighter s _ [] 0 (λ u h. cc h) (omega arith)
      go (lost_reply e) (line ∷ queue) =
          after_pop-Lighter s _ queue (suc (length queue)) (λ u h. omega arith) (omega arith)

  requeues-Lighter :
      (s : Shared) (link : Link) (text : String)
      → Lighter (length s.queue + 1) (after_requeue {Url = Url} s (push link text s.queue))
  unfolding after_requeue push command
  requeues-Lighter s up text = (omega (arith, length-append s.queue (text ∷ [])), tt)
  requeues-Lighter s (lost_request e) text = (omega arith, tt)
  requeues-Lighter s (lost_reply e) text = (omega (arith, length-append s.queue (text ∷ [])), tt)

  tries-Lighter :
      (s : Shared) (u : Url) (domain : Option String) (granted : Bool) (link : Link)
      → Lighter (length s.queue + 1) (after_try api s u domain granted link)
  unfolding after_try
  tries-Lighter s u none granted link = (omega arith, tt)
  tries-Lighter s u (some d) true link = (omega arith, tt)
  tries-Lighter s u (some d) false link = requeues-Lighter s link (api.as_str u)

  left_next : (i n : ℕ) → (1 ≤ i) × (i ≤ 3) → left i n ≡ n + left (suc i) n
  left_next zero n (h, k) = absurd (omega arith)
  left_next (suc zero) n h = omega arith
  left_next (suc (suc zero)) n h = omega arith
  left_next (suc (suc (suc zero))) n h = omega arith
  left_next (suc (suc (suc (suc i)))) n (h, k) = absurd (omega arith)

  length-push_bulk :
      (link : Link) (urls queue : List String)
      → length (push_bulk link urls queue).1 ≤ length queue + length urls
  unfolding push_bulk command
  length-push_bulk link [] queue = omega arith
  length-push_bulk up (u ∷ us) queue = omega (arith, length-append queue (u ∷ us))
  length-push_bulk (lost_request e) (u ∷ us) queue = omega arith
  length-push_bulk (lost_reply e) (u ∷ us) queue = omega (arith, length-append queue (u ∷ us))

  after_push-Lighter :
      (s : Shared) (i : ℕ) (urls : List String) (x : Outcome ℕ × List String)
      → (1 ≤ i) × (i ≤ 3)
      → length x.1 ≤ length s.queue + length urls
      → Lighter (length s.queue + left i (length urls)) (after_push {Url = Url} s i urls x)
  unfolding after_push
  after_push-Lighter s i urls (ok n, queue) h k = (omega (arith, left_next i (length urls) h), tt)
  after_push-Lighter s i urls (panic, queue) h k = (omega (arith, left_next i (length urls) h), tt)
  after_push-Lighter s i urls (err e, queue) h k = elim (Bool-cases (i == 3)) [
    | inl last ↦ rw last (omega (arith, left_next i (length urls) h), tt)
    | inr more ↦ rw more (again more)
  ]
    where
      again :
          (i == 3) ≡ false
          → Lighter
              (length s.queue + left i (length urls))
              (strays_in queue s, pushing (suc i) urls)
      again more = (omega (arith, left_next i (length urls) h), ground arith)

  -- The loop's operations but for those of a URL that is being processed.
  abbrev pub Unguarded : Phase Url → Type 0
  Unguarded guarded = ⊥
  Unguarded p = Unit

  pub worker_step-Lighter :
      (s : Shared) (p : Phase Url) (e : Event)
      → Unguarded p
      → Attempt p
      → Lighter (length s.queue + phase_weight p) (worker_step api s p e)
  unfolding worker_step
  worker_step-Lighter s guarded e g a = absurd g
  worker_step-Lighter s idle (popped link) g a =
      let (h, k) = pops-Lighter s link in (omega (arith, h), k)
  worker_step-Lighter s (holding url) (tried granted link) g a =
      tries-Lighter s url (api.domain url) granted link
  worker_step-Lighter s (pushing i urls) (replied link) g a =
      after_push-Lighter s i urls (push_bulk link urls s.queue) a
        (length-push_bulk link urls s.queue)
  worker_step-Lighter s (pushed n) proceeds g a = (omega arith, tt)
  worker_step-Lighter s counted proceeds g a = (omega arith, tt)
  worker_step-Lighter s (holding url) unwinds g a = (omega arith, tt)
  worker_step-Lighter s idle cancelled g a = (omega arith, tt)
  worker_step-Lighter s p e g a = (omega arith, a)

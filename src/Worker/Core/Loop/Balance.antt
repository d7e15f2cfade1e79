-- ===== src/Worker/Core/Loop/Balance.antt =====
-- crawler_core.rs, `worker_loop`: what the counter of active tasks counts, under all interleavings.
use polite_web_crawler.Prelude.{
  ℕ, suc, ◌+◌, ◌%◌, ◌^◌, ◌≤◌, ◌≡◌, refl, Option, none, some, String, List, [], ◌∷◌, ◌==◌, length,
  length-append, arith, Bool-cases, inl, inr,
}
use polite_web_crawler.Common.Outcome.{Outcome, ok, err, panic, ◌>>=◌}
use polite_web_crawler.Common.Url.{
  UrlApi, Parsed, parsed, refused, relative_url_without_base, other_error, parse_outcome,
}
use polite_web_crawler.Common.Queue.{
  Link, up, lost_request, lost_reply, command, push, push_bulk, take_front, parse_line, pop_front,
}
use polite_web_crawler.Worker.Core.Loop.{
  Phase, idle, guarded, counted, ended, holding, pushing, pushed, Shared, fetch_sub, fetch_add,
  lost_from, strays_in, after_pop, after_requeue, after_push,
}

module _ {Url : Type 0} where
  -- A worker that has a URL which is still counted, and the URLs that it has pushed and not counted.
  abbrev pub holds : Phase Url → ℕ
  holds idle = 0
  holds ended = 0
  holds guarded = 1
  holds counted = 1
  holds (holding url) = 1
  holds (pushing i urls) = 1
  holds (pushed n) = 1

  abbrev pub uncounted : Phase Url → ℕ
  uncounted idle = 0
  uncounted ended = 0
  uncounted guarded = 0
  uncounted counted = 0
  uncounted (holding url) = 0
  uncounted (pushing i urls) = 0
  uncounted (pushed n) = n

  abbrev pub all_held : List (Phase Url) → ℕ
  all_held [] = 0
  all_held (p ∷ ps) = holds p + all_held ps

  abbrev pub all_uncounted : List (Phase Url) → ℕ
  all_uncounted [] = 0
  all_uncounted (p ∷ ps) = uncounted p + all_uncounted ps

-- The counter with what is not counted yet or never, against the queue with what the workers hold and
-- what has been lost, for given numbers held and not counted.
abbrev pub Balance : Shared → ℕ → ℕ → Type 0
Balance s held rest =
    (s.active_tasks + rest + s.stray) % 2 ^ 64 ≡ (length s.queue + held + s.leaked) % 2 ^ 64

pub fetch_sub-Balance :
    (s : Shared) (held rest : ℕ) → Balance s (suc held) rest → Balance (fetch_sub s) held rest
unfolding fetch_sub
fetch_sub-Balance s held rest h = omega arith

pub fetch_add-Balance :
    (n : ℕ) (s : Shared) (held rest : ℕ)
    → Balance s held (n + rest)
    → Balance (fetch_add n s) held rest
unfolding fetch_add
fetch_add-Balance n s held rest h = omega arith

pub strays_in-Balance :
    (queue : List String) (s : Shared) (held rest : ℕ)
    → length s.queue ≤ length queue
    → Balance s held rest
    → Balance (strays_in queue s) held rest
unfolding strays_in
strays_in-Balance queue s held rest le h = omega arith

lost_from-Balance :
    (queue : List String) (s : Shared) (held rest : ℕ)
    → length queue ≤ length s.queue
    → Balance s held rest
    → Balance (lost_from queue s) held rest
unfolding lost_from
lost_from-Balance queue s held rest le h = omega arith

module _ {Url : Type 0} (api : UrlApi Url) where
  -- The lengths of the queue around a reading.
  abbrev pub Popped : Outcome (Option Url) → ℕ → ℕ → Type 0
  Popped (ok (some url)) before after = before ≡ suc after
  Popped (ok none) before after = before ≡ after
  Popped (err e) before after = after ≤ before
  Popped panic before after = after ≤ before

  parsed_line : (p : Parsed Url) (n : ℕ) → Popped (parse_outcome p >>= λ u. ok (some u)) (suc n) n
  unfolding parse_outcome
  parsed_line (parsed u) n = refl
  parsed_line (refused relative_url_without_base) n = omega arith
  parsed_line (refused (other_error e)) n = omega arith

  pub pop_front-Popped :
      (link : Link) (queue : List String)
      → Popped (pop_front api link queue).0 (length queue) (length (pop_front api link queue).1)
  unfolding pop_front command take_front parse_line
  pop_front-Popped up [] = refl
  pop_front-Popped up (url ∷ queue) = parsed_line (api.parse url) (length queue)
  pop_front-Popped (lost_request e) [] = omega arith
  pop_front-Popped (lost_request e) (url ∷ queue) = omega arith
  pop_front-Popped (lost_reply e) [] = omega arith
  pop_front-Popped (lost_reply e) (url ∷ queue) = omega arith

  -- The balance behind an operation of a worker, beside the others.
  abbrev pub Behind : Shared × Phase Url → ℕ → ℕ → Type 0
  Behind (s, p) held rest = Balance s (holds p + held) (uncounted p + rest)

  pub after_pop-Behind :
      (s : Shared) (x : Outcome (Option Url) × List String) (held rest : ℕ)
      → Popped x.0 (length s.queue) (length x.1)
      → Balance s held rest
      → Behind (after_pop s x) held rest
  unfolding after_pop
  after_pop-Behind s (ok (some url), queue) held rest len h = omega arith
  after_pop-Behind s (ok none, queue) held rest len h = omega arith
  after_pop-Behind s (err e, queue) held rest len h =
      omega (arith, lost_from-Balance queue s held rest len h)
  after_pop-Behind s (panic, queue) held rest len h =
      omega (arith, lost_from-Balance queue s held rest len h)

  -- The lengths of the queue around a push.
  abbrev pub Grown : {A : Type 0} → (A → ℕ) → Outcome A → ℕ → ℕ → Type 0
  Grown size (ok a) before after = after ≡ before + size a
  Grown size (err e) before after = before ≤ after
  Grown size panic before after = before ≤ after

  pub push-Grown :
      (link : Link) (url : String) (queue : List String)
      → Grown (λ _. 1) (push link url queue).0 (length queue) (length (push link url queue).1)
  unfolding push command
  push-Grown up url queue = length-append queue (url ∷ [])
  push-Grown (lost_request e) url queue = omega arith
  push-Grown (lost_reply e) url queue = omega (arith, length-append queue (url ∷ []))

  pub push_bulk-Grown :
      (link : Link) (urls queue : List String)
      → Grown
          (λ n. n)
          (push_bulk link urls queue).0
          (length queue)
          (length (push_bulk link urls queue).1)
  unfolding push_bulk command
  push_bulk-Grown link [] queue = omega arith
  push_bulk-Grown up (url ∷ urls) queue = length-append queue (url ∷ urls)
  push_bulk-Grown (lost_request e) (url ∷ urls) queue = omega arith
  push_bulk-Grown (lost_reply e) (url ∷ urls) queue =
      omega (arith, length-append queue (url ∷ urls))

  pub after_requeue-Behind :
      (s : Shared) (x : Outcome (Unit {0}) × List String) (held rest : ℕ)
      → Grown (λ _. 1) x.0 (length s.queue) (length x.1)
      → Balance s (suc held) rest
      → Behind (after_requeue s x) held rest
  unfolding after_requeue
  after_requeue-Behind s (ok _, queue) held rest len h = omega arith
  after_requeue-Behind s (err e, queue) held rest len h = omega (
    arith,
    fetch_sub-Balance (strays_in queue s) held rest
        (strays_in-Balance queue s (suc held) rest len h),
  )
  after_requeue-Behind s (panic, queue) held rest len h = omega (
    arith,
    fetch_sub-Balance (strays_in queue s) held rest
        (strays_in-Balance queue s (suc held) rest len h),
  )

  pub after_push-Behind :
      (s : Shared) (i : ℕ) (urls : List String) (x : Outcome ℕ × List String) (held rest : ℕ)
      → Grown (λ n. n) x.0 (length s.queue) (length x.1)
      → Balance s (suc held) rest
      → Behind (after_push s i urls x) held rest
  unfolding after_push
  after_push-Behind s i urls (ok n, queue) held rest len h = omega arith
  after_push-Behind s i urls (panic, queue) held rest len h = omega (
    arith,
    fetch_sub-Balance (strays_in queue s) held rest
        (strays_in-Balance queue s (suc held) rest len h),
  )
  after_push-Behind s i urls (err e, queue) held rest len h = elim (Bool-cases (i == 3)) [
    | inl last ↦
        rw (last, after_push)
          (omega (
            arith,
            fetch_sub-Balance (strays_in queue s) held rest
                (strays_in-Balance queue s (suc held) rest len h),
          ))
    | inr more ↦
        rw (more, after_push) (omega (arith, strays_in-Balance queue s (suc held) rest len h))
  ]

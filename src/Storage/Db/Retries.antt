-- ===== src/Storage/Db/Retries.antt =====
-- db.rs, the loops over the attempts: a statement that may be repeated takes effect at most once.
use polite_web_crawler.Prelude.{
  ℕ, zero, suc, ◌+◌, ◌*◌, ◌≡◌, refl, sym, ◌∙◌, ap, ◌⊎◌, inl, inr, Bool, true, false, String, ◌==◌,
}
use polite_web_crawler.Common.Errors.{db_error}
use polite_web_crawler.Common.Outcome.{Outcome, ok, err}
use polite_web_crawler.Storage.Db.{
  Tables, Sql, done, failed, Fault, works, fails_before, fails_after, Statement, attempt,
  after_attempt, try_from, with_backoff, max_db_reconnects,
}

-- A second run of the statement finds the tables as the first has left them, and says the same.
abbrev pub IsIdempotent : {F32 A : Type 0} → Statement F32 A → Type 0
IsIdempotent {F32} stmt = (t : Tables F32) → stmt (stmt t).1 ≡ stmt t

module _ {F32 A : Type 0} (stmt : Statement F32 A) (t : Tables F32) where
  -- The tables are those before the statement, or those behind one run of it.
  abbrev pub AtMostOnce : Tables F32 → Type 0
  AtMostOnce u = (u ≡ t) ⊎ (u ≡ (stmt t).1)

  -- A value was returned by the statement, which has run once; an error leaves it run at most once.
  abbrev pub Once : Outcome A × Tables F32 × ℕ → Type 0
  Once x =
      ((a : A) × (x.0 ≡ ok a) × (stmt t ≡ (done a, x.1)))
      ⊎ ((e : String) × (x.0 ≡ err (db_error e)) × AtMostOnce x.1)

  module _ (idem : IsIdempotent stmt) where
    same_run : (u : Tables F32) → AtMostOnce u → stmt u ≡ stmt t
    same_run u (inl e) = ap stmt e
    same_run u (inr e) = ap stmt e ∙ idem t

    -- An attempt from such tables.
    abbrev Attempted : Sql A × Tables F32 → Type 0
    Attempted x =
        ((a : A) × (x.0 ≡ done a) × (stmt t ≡ (done a, x.1)))
        ⊎ ((e : String) × (x.0 ≡ failed e) × AtMostOnce x.1)

    ran : (x : Sql A × Tables F32) → stmt t ≡ x → Attempted x
    ran (done a, v) e = inl (a, refl, e)
    ran (failed x, v) e = inr (x, refl, inr (sym (ap (λ (y : Sql A × Tables F32). y.1) e)))

    attempt_once : (f : Fault) (u : Tables F32) → AtMostOnce u → Attempted (attempt f stmt u)
    unfolding attempt
    attempt_once works u h = ran (stmt u) (sym (same_run u h))
    attempt_once (fails_before e) u h = inr (e, refl, h)
    attempt_once (fails_after e) u h =
        inr (e, refl, inr (ap (λ (y : Sql A × Tables F32). y.1) (same_run u h)))

    after_attempt-Once :
        (x : Sql A × Tables F32) (last : Bool) (slept : ℕ)
        (more : Tables F32 → Outcome A × Tables F32 × ℕ)
        → Attempted x
        → ((v : Tables F32) → AtMostOnce v → Once (more v))
        → Once (after_attempt x last slept more)
    unfolding after_attempt
    after_attempt-Once (done b, v) last slept more (inl (a, e, run)) later = inl (a, cc e, run)
    after_attempt-Once (done b, v) last slept more (inr (x, e, h)) later = cc e
    after_attempt-Once (failed y, v) true slept more (inl (a, e, run)) later = cc e
    after_attempt-Once (failed y, v) true slept more (inr (x, e, h)) later = inr (y, refl, h)
    after_attempt-Once (failed y, v) false slept more (inl (a, e, run)) later = cc e
    after_attempt-Once (failed y, v) false slept more (inr (x, e, h)) later = later v h

    try_from-Once :
        (n i backoff slept : ℕ) (faults : ℕ → Fault) (u : Tables F32)
        → AtMostOnce u
        → Once (try_from n i backoff slept stmt faults u)
    unfolding try_from
    try_from-Once zero i backoff slept faults u h = inr ("RowNotFound", refl, h)
    try_from-Once (suc n) i backoff slept faults u h =
        after_attempt-Once (attempt (faults i) stmt u) (i + 1 == max_db_reconnects) slept _
          (attempt_once (faults i) u h)
          (try_from-Once n (suc i) (backoff * 2) (slept + backoff) faults)

    -- Whatever the driver does at the attempts, losing the replies of statements that have run among
    -- it: if the loop returns a value, then the tables are as one run of the statement leaves them, and
    -- the value is the one of that run; if it returns an error, then the statement has taken effect
    -- once or not at all. Stated of a statement that a second run does not change.
    pub with_backoff-Once : (faults : ℕ → Fault) → Once (with_backoff stmt faults t)
    unfolding with_backoff
    with_backoff-Once faults = try_from-Once max_db_reconnects 0 1 0 faults t (inl refl)

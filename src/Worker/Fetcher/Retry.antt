-- ===== src/Worker/Fetcher/Retry.antt =====
-- link_fetcher.rs, `with_retry`.
use native.Mathlib.Decide.{dec_lt}
use polite_web_crawler.Prelude.{
  subst, ==_iff, ℕ, zero, suc, ◌+◌, ◌≤◌, ◌<◌, ◌≡◌, refl, ◌⊎◌, inl, inr, true, false, arith, ◌==◌,
  if◌then◌else◌,
}
use polite_web_crawler.Common.Errors.{CrawlerError}
use polite_web_crawler.Common.Outcome.{Outcome, ok, err, panic, IsErr}

module _ {ℓ} {A : Type ℓ} where
  -- The loop `for i in 1..=attempts` from round `i` on, with the rounds that are left. Behind the loop
  -- stands `unreachable!`. With the result comes the number of the last round.
  unfoldable pub retry_from : ℕ → ℕ → ℕ → (ℕ → Outcome A) → Outcome A × ℕ
  retry_from zero i attempts operation = (panic, i)
  retry_from (suc n) i attempts operation =
      let rest = retry_from n (suc i) attempts operation in
      elim (operation i) [
        | ok res ↦ (ok res, i)
        | panic ↦ (panic, i)
        | err e ↦ if i == attempts then (err e, i) else rest
      ]

  unfoldable pub with_retry : ℕ → (ℕ → Outcome A) → Outcome A × ℕ
  unfolding retry_from
  with_retry attempts operation = retry_from attempts 1 attempts operation

  -- All rounds from `i` up to `k` end in an error.
  abbrev pub AllFail : (ℕ → Outcome A) → ℕ → ℕ → Type ℓ
  AllFail operation i k = (j : ℕ) → i ≤ j → j < k → IsErr (operation j)

  -- The outcome `r` and the rounds `k` of a loop that starts at `i`: `k` is the first round that does
  -- not end in an error, or else the last round, and `r` is how it ends.
  pub record Retried (operation : ℕ → Outcome A) (i attempts : ℕ) (r : Outcome A) (k : ℕ)
      : Type ℓ where
    pub from : i ≤ k
    pub to : k ≤ attempts
    pub failed_before : AllFail operation i k
    pub outcome : r ≡ operation k
    pub stopped : (¬ IsErr r) ⊎ (k ≡ attempts)

  Outcome-cases : (r : Outcome A) → IsErr r ⊎ (¬ IsErr r)
  Outcome-cases (ok a) = inr (λ e. cc e.is_error)
  Outcome-cases (err x) = inl (record { error = x; is_error = refl })
  Outcome-cases panic = inr (λ e. cc e.is_error)

  abbrev pub RetriedTo : (ℕ → Outcome A) → ℕ → ℕ → Outcome A × ℕ → Type ℓ
  RetriedTo operation i attempts x = Retried operation i attempts x.0 x.1

  retry_from_stop :
      (n i attempts : ℕ) (operation : ℕ → Outcome A) (r : Outcome A)
      → operation i ≡ r
      → ¬ IsErr r
      → retry_from (suc n) i attempts operation ≡ (r, i)
  unfolding retry_from
  retry_from_stop n i attempts operation (ok a) e h = rw (e, retry_from)
  retry_from_stop n i attempts operation (err x) e h =
      absurd (h (record { error = x; is_error = refl }))
  retry_from_stop n i attempts operation panic e h = rw (e, retry_from)

  retry_from_fail :
      (n i attempts : ℕ) (operation : ℕ → Outcome A) (x : CrawlerError)
      → operation i ≡ err x
      → retry_from (suc n) i attempts operation
        ≡ (if i == attempts then (err x, i) else retry_from n (suc i) attempts operation)
  unfolding retry_from
  retry_from_fail n i attempts operation x e = rw (e, retry_from)

  stopped_here :
      (i attempts : ℕ) (operation : ℕ → Outcome A)
      → i ≤ attempts
      → (¬ IsErr (operation i)) ⊎ (i ≡ attempts)
      → Retried operation i attempts (operation i) i
  stopped_here i attempts operation le s = record {
    from = omega arith;
    to = le;
    failed_before = λ j p q. absurd (omega arith);
    outcome = refl;
    stopped = s;
  }

  failed_here :
      (i attempts : ℕ) (operation : ℕ → Outcome A) (x : Outcome A × ℕ)
      → IsErr (operation i)
      → RetriedTo operation (suc i) attempts x
      → RetriedTo operation i attempts x
  failed_here i attempts operation x failed r = record {
    from = omega (arith, r.from);
    to = r.to;
    failed_before = λ j p q. elim (dec_lt i j) [
      | yes later ↦ r.failed_before j later q
      | no here ↦ let e : i ≡ j = omega arith in subst (λ k. IsErr (operation k)) e failed
    ];
    outcome = r.outcome;
    stopped = r.stopped;
  }

  retry_from-Retried :
      (n i attempts : ℕ) (operation : ℕ → Outcome A)
      → i + n ≡ attempts
      → RetriedTo operation i attempts (retry_from (suc n) i attempts operation)
  retry_from-Retried zero i attempts operation e = elim (Outcome-cases (operation i)) [
    | inr stops ↦
        rw (retry_from_stop zero i attempts operation (operation i) refl stops)
          (stopped_here i attempts operation (omega arith) (inl stops))
    | inl fails ↦
        let last : (i == attempts) ≡ true = (==_iff i attempts).1 (omega arith) in
        rw
          (
            retry_from_fail zero i attempts operation fails.error fails.is_error,
            last,
            ← fails.is_error,
          )
          (stopped_here i attempts operation (omega arith) (inr (omega arith)))
  ]
  retry_from-Retried (suc n) i attempts operation e = elim (Outcome-cases (operation i)) [
    | inr stops ↦
        rw (retry_from_stop (suc n) i attempts operation (operation i) refl stops)
          (stopped_here i attempts operation (omega arith) (inl stops))
    | inl fails ↦
        let more : (i == attempts) ≡ false = ground arith in
        rw (retry_from_fail (suc n) i attempts operation fails.error fails.is_error, more)
          (failed_here i attempts operation _ fails
            (retry_from-Retried n (suc i) attempts operation (omega arith)))
  ]

  -- With at least one attempt, `with_retry` makes the attempts 1, 2, … up to the first that does not
  -- end in an error, and never more than it is allowed; it ends as the last attempt that it makes, so
  -- with an error only if every attempt allowed has ended in one. It does not reach `unreachable!`.
  pub with_retry-Retried :
      (n : ℕ) (operation : ℕ → Outcome A)
      → RetriedTo operation 1 (suc n) (with_retry (suc n) operation)
  unfolding with_retry
  with_retry-Retried n operation = retry_from-Retried n 1 (suc n) operation (omega arith)

  -- A first attempt that does not end in an error is the only one.
  pub with_retry_first :
      (n : ℕ) (operation : ℕ → Outcome A) (r : Outcome A)
      → operation 1 ≡ r
      → ¬ IsErr r
      → with_retry (suc n) operation ≡ (r, 1)
  unfolding with_retry
  with_retry_first n operation r e h = retry_from_stop n 1 (suc n) operation r e h

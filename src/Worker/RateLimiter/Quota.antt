-- ===== src/Worker/RateLimiter/Quota.antt =====
-- domain_rate_limiter.rs, `try_acquire`: how many grants a domain can get in a period.
use polite_web_crawler.Prelude.{
  ℕ, zero, suc, ◌-◌, ◌*◌, ◌≤◌, ◌≡◌, subst, Bool, true, false, some, List, [], ◌∷◌, String, arith,
  length, if◌then◌else◌, Option-cases, inl, inr, All, str_eq,
}
use polite_web_crawler.Prelude.Dict.{lookup}
use polite_web_crawler.Worker.RateLimiter.{DomainState, DomainRateLimiter, try_acquire}
use polite_web_crawler.Worker.RateLimiter.Spacing.{grants, Spaced, Late, grants-Spaced}

-- No later than an instant.
abbrev pub Before : ℕ → List ℕ → Type 0
Before until ts = All (λ t. t ≤ until) ts

some_injective : {ts us : List ℕ} → some ts ≡ some us → ts ≡ us
some_injective h = cc h

abbrev kept_instants : ℕ → Bool → Bool → List ℕ → List ℕ
kept_instants now granted same ts = if granted then (if same then now ∷ ts else ts) else ts

kept-Before :
    (until now : ℕ) (granted same : Bool) (ts : List ℕ)
    → now ≤ until
    → Before until ts
    → Before until (kept_instants now granted same ts)
kept-Before until now true true ts h hs = (h, hs)
kept-Before until now true false ts h hs = hs
kept-Before until now false same ts h hs = hs

-- Grants are given at instants of calls.
grants-Before :
    (until : ℕ) (domain : String) (calls : List (ℕ × String)) (l : DomainRateLimiter) (ts : List ℕ)
    → All (λ c. c.0 ≤ until) calls
    → grants l domain calls ≡ some ts
    → Before until ts
unfolding grants
grants-Before until domain [] l ts h run = rw (← some_injective run) tt
grants-Before until domain ((now, d) ∷ calls) l ts (h, hs) run =
    elim (Option-cases (try_acquire l d now)) [
      | inl panics ↦ cc (panics, run)
      | inr ((l', granted), called) ↦ elim (Option-cases (grants l' domain calls)) [
        | inl later ↦ cc (called, later, run)
        | inr (us, rest) ↦
            let kept : kept_instants now granted (str_eq d domain) us ≡ ts =
              cc (called, rest, run) in
            subst (Before until) kept (
              kept-Before until now granted (str_eq d domain) us h
                (grants-Before until domain calls l' us hs rest))
      ]
    ]

-- Instants that are spaced fill the period.
Spaced-length :
    (delay t until : ℕ) (ts : List ℕ)
    → Spaced delay t ts
    → Before until ts
    → length ts * delay ≤ until - t
Spaced-length zero t until ts s b = omega arith
Spaced-length (suc n) t until [] s b = omega arith
Spaced-length (suc n) t until (u ∷ us) (late, s) (early, b) =
    omega (arith, Spaced-length (suc n) u until us s b, late, early)

-- A domain is granted no more often than its delay allows. If a domain is known, no call comes before the
-- default delay has passed since the clock's start, and none comes after the instant `until`, then no
-- call panics, and the number of grants of the domain, times its delay, is at most the time from its
-- last access to `until`, whatever calls for other domains come between.
pub grants_bounded :
    (l : DomainRateLimiter) (domain : String) (s : DomainState) (calls : List (ℕ × String))
    (until : ℕ)
    → lookup domain l.map ≡ some s
    → Late l.default_delay calls
    → All (λ c. c.0 ≤ until) calls
    → (ts : List ℕ) × (grants l domain calls ≡ some ts)
      × (length ts * s.delay ≤ until - s.last_accessed)
grants_bounded l domain s calls until known late early =
    let (ts, run, spaced) = grants-Spaced l domain s calls known late in
    (
      ts,
      run,
      Spaced-length s.delay s.last_accessed until ts spaced
          (grants-Before until domain calls l ts early run),
    )

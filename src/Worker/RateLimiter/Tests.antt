-- ===== src/Worker/RateLimiter/Tests.antt =====
-- Runs of the rate limiter, and its theorems at concrete inputs.
use polite_web_crawler.Prelude.{
  ℕ, ◌≤◌, ◌<◌, ◌↔◌, ◌≡◌, refl, none, some, List, [], ◌∷◌, String, arith,
}
use polite_web_crawler.Prelude.Dict.{lookup, insert}
use polite_web_crawler.Worker.RateLimiter.{
  DomainState, DomainRateLimiter, new, try_acquire, update_delay, await_acquiring,
}
use polite_web_crawler.Worker.RateLimiter.Spacing.{grants, Spaced, grants-Spaced, new_domain-Spaced}
use polite_web_crawler.Worker.RateLimiter.Awaiting.{await_acquiring_early}
use polite_web_crawler.Worker.RateLimiter.Delays.{update_delay-Spaced, zero_delay_unlimited}

abbrev site : DomainState
site = record { delay = 10; last_accessed = 100 }

abbrev limiter : DomainRateLimiter
limiter = record { map = ("a.org", site) ∷ []; default_delay = 10 }

abbrev calls : List (ℕ × String)
calls = (104, "a.org") ∷ (105, "b.org") ∷ (111, "a.org") ∷ (112, "a.org") ∷ []

site_known : lookup "a.org" limiter.map ≡ some site
unfolding lookup
site_known = refl

b_unknown : lookup "b.org" limiter.map ≡ none
unfolding lookup
b_unknown = refl

one_grant : grants limiter "a.org" calls ≡ some (111 ∷ [])
unfolding grants try_acquire lookup insert
one_grant = refl

early_clock_panics : try_acquire (new 10) "a.org" 9 ≡ none
unfolding try_acquire new lookup
early_clock_panics = refl

grants-Spaced_example : (ts : List ℕ) × (grants limiter "a.org" calls ≡ some ts) × Spaced 10 100 ts
grants-Spaced_example = grants-Spaced limiter "a.org" site calls site_known (omega arith)

new_domain-Spaced_example :
    (ts : List ℕ) × (grants limiter "b.org" ((101, "b.org") ∷ calls) ≡ some (101 ∷ ts))
    × Spaced 10 101 ts
new_domain-Spaced_example = new_domain-Spaced limiter "b.org" 101 calls b_unknown (omega arith)

update_delay-Spaced_example :
    (l' : DomainRateLimiter) × (ts : List ℕ) × (update_delay limiter "a.org" 3 103 ≡ some l')
    × (grants l' "a.org" calls ≡ some ts)
    × Spaced 3 100 ts
update_delay-Spaced_example =
    update_delay-Spaced limiter "a.org" site 3 103 calls site_known (omega arith)

zero_delay_unlimited_example :
    (l' : DomainRateLimiter) × (update_delay limiter "a.org" 0 103 ≡ some l')
    × (grants l' "a.org" calls ≡ some (104 ∷ 111 ∷ 112 ∷ []))
zero_delay_unlimited_example =
    zero_delay_unlimited limiter "a.org" site 103 calls site_known (omega arith)

-- A wait that begins 4 into a delay of 10 ends at 8, before the delay is over.
await_acquiring_early_example :
    (l' : DomainRateLimiter) × (wake : ℕ) × (await_acquiring limiter "a.org" 104 ≡ some (l', wake))
    × (104 ≤ wake)
    × ((wake < 110) ↔ (8 < 10))
    × (lookup "a.org" l'.map ≡ some (record { delay = 10; last_accessed = 104 }))
await_acquiring_early_example =
    await_acquiring_early limiter "a.org" site 104 site_known (omega arith)

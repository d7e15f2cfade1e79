-- ===== src/Worker/RateLimiter.antt =====
-- crates/worker_service/src/network/domain_rate_limiter.rs. Instants and durations are numbers of
-- nanoseconds; what `Instant::now()` returns is an argument. `none` is a panic. A shard of the map is
-- locked for a whole operation, in `await_acquiring` through its sleep too, so operations on one domain
-- do not overlap.
pub mod Spacing
pub mod Quota
pub mod Delays
pub mod Awaiting
mod Tests
use polite_web_crawler.Prelude.{
  ℕ, ◌+◌, ◌-◌, Bool, true, false, Option, none, some, String, leb, if◌then◌else◌, [],
}
use polite_web_crawler.Prelude.Dict.{Dict, lookup, insert}

pub record DomainState : Type 0 where
  pub delay : ℕ
  pub last_accessed : ℕ

pub record DomainRateLimiter : Type 0 where
  pub map : Dict DomainState
  pub default_delay : ℕ

unfoldable pub new : ℕ → DomainRateLimiter
new default_delay = record { map = []; default_delay = default_delay }

-- `now - delay`: it panics where there is no such instant.
instant_sub : ℕ → ℕ → Option ℕ
instant_sub now delay = if leb delay now then some (now - delay) else none

-- A state for a domain that the map does not know.
first_state : ℕ → ℕ → Option DomainState
unfolding instant_sub
first_state delay now = elim (instant_sub now delay) [
  | none ↦ none
  | some t ↦ some (record { delay = delay; last_accessed = t })
]

-- `entry(domain).or_insert_with(…)`: the state of the domain.
pub entry : DomainRateLimiter → String → ℕ → Option DomainState
unfolding first_state
entry l domain now = elim (lookup domain l.map) [
  | none ↦ first_state l.default_delay now
  | some state ↦ some state
]

store : DomainRateLimiter → String → DomainState → DomainRateLimiter
store l domain state = record l { map = insert domain state l.map }

-- `now.saturating_duration_since(last_accessed) >= delay`
pub acquire : DomainRateLimiter → String → ℕ → DomainState → DomainRateLimiter × Bool
unfolding store
acquire l domain now state =
    if leb state.delay (now - state.last_accessed)
    then (store l domain (record state { last_accessed = now }), true)
    else (store l domain state, false)

unfoldable pub try_acquire : DomainRateLimiter → String → ℕ → Option (DomainRateLimiter × Bool)
unfolding entry acquire
try_acquire l domain now = elim (entry l domain now) [
  | none ↦ none
  | some state ↦ some (acquire l domain now state)
]

unfoldable pub update_delay : DomainRateLimiter → String → ℕ → ℕ → Option DomainRateLimiter
unfolding first_state store
update_delay l domain new_delay now = elim (lookup domain l.map) [
  | some state ↦ some (store l domain (record state { delay = new_delay }))
  | none ↦ elim (first_state new_delay now) [
    | none ↦ none
    | some state ↦ some (store l domain state)
  ]
]

-- The state afterwards, and the instant at which the sleep is over.
unfoldable pub await_acquiring : DomainRateLimiter → String → ℕ → Option (DomainRateLimiter × ℕ)
unfolding entry store
await_acquiring l domain now = elim (entry l domain now) [
  | none ↦ none
  | some state ↦
      some
        (store l domain (record state { last_accessed = now }), now + (now - state.last_accessed))
]

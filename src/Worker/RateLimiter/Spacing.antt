-- ===== src/Worker/RateLimiter/Spacing.antt =====
-- What `try_acquire` promises: the grants of a domain are at least its delay apart.
use polite_web_crawler.Prelude.{
  ℕ, ◌-◌, ◌≤◌, ◌≡◌, refl, Bool, true, Option, none, some, List, [], ◌∷◌, String, arith, leb,
  if◌then◌else◌, Option-cases, Bool-cases, leb→le, le→leb, ◌∙◌, inl, inr, All, str_eq, str_eq_iff,
}
use polite_web_crawler.Prelude.Dict.{lookup, lookup-insert}
use polite_web_crawler.Worker.RateLimiter.{
  DomainState, DomainRateLimiter, entry, acquire, try_acquire,
}

-- The instants of a list of calls, in any order of domains, at which a domain is granted.
unfoldable pub grants : DomainRateLimiter → String → List (ℕ × String) → Option (List ℕ)
grants l domain [] = some []
grants l domain ((now, d) ∷ calls) = elim (try_acquire l d now) [
  | none ↦ none
  | some (l', granted) ↦ elim (grants l' domain calls) [
    | none ↦ none
    | some ts ↦ some (if granted then (if str_eq d domain then now ∷ ts else ts) else ts)
  ]
]

-- Each instant is at least `delay` after the one before it.
abbrev pub Spaced : ℕ → ℕ → List ℕ → Type 0
Spaced delay t [] = Unit {0}
Spaced delay t (u ∷ us) = (delay ≤ u - t) × Spaced delay u us

-- The state of the domain of a call, when the call is over.
abbrev pub touched : ℕ → DomainState → DomainState
touched now s = if leb s.delay (now - s.last_accessed) then record s { last_accessed = now } else s

pub entry_known :
    (l : DomainRateLimiter) (d : String) (now : ℕ) (s : DomainState)
    → lookup d l.map ≡ some s
    → entry l d now ≡ some s
unfolding entry
entry_known l d now s known = rw (known, entry)

pub entry_total :
    (l : DomainRateLimiter) (d : String) (now : ℕ)
    → l.default_delay ≤ now
    → (s : DomainState) × (entry l d now ≡ some s)
unfolding entry
entry_total l d now late = elim (Option-cases (lookup d l.map)) [
  | inl new_domain ↦ (
    record { delay = l.default_delay; last_accessed = now - l.default_delay },
    rw (new_domain, entry) (ground arith),
  )
  | inr (s, known) ↦ (s, rw (known, entry))
]

pub lookup-acquire :
    (l : DomainRateLimiter) (d domain : String) (now : ℕ) (s : DomainState)
    → lookup domain (acquire l d now s).0.map
      ≡ (if str_eq d domain then some (touched now s) else lookup domain l.map)
unfolding acquire
lookup-acquire l d domain now s = ground (
  arith,
  lookup-insert d domain s l.map,
  lookup-insert d domain (record s { last_accessed = now }) l.map,
)

pub acquire_result :
    (l : DomainRateLimiter) (d : String) (now : ℕ) (s : DomainState)
    → ((acquire l d now s).1 ≡ leb s.delay (now - s.last_accessed))
      × ((acquire l d now s).0.default_delay ≡ l.default_delay)
unfolding acquire
acquire_result l d now s = ground arith

abbrev pub Late : ℕ → List (ℕ × String) → Type 0
Late delay calls = All (λ c. delay ≤ c.0) calls

pub try_acquire-entry :
    (l : DomainRateLimiter) (d : String) (now : ℕ) (s : DomainState)
    → entry l d now ≡ some s
    → try_acquire l d now ≡ some (acquire l d now s)
unfolding try_acquire
try_acquire-entry l d now s e = rw (e, try_acquire)

pub grants-cons :
    (l l' : DomainRateLimiter) (domain d : String) (now : ℕ) (calls : List (ℕ × String))
    (granted : Bool) (ts : List ℕ)
    → try_acquire l d now ≡ some (l', granted)
    → grants l' domain calls ≡ some ts
    → grants l domain ((now, d) ∷ calls)
      ≡ some (if granted then (if str_eq d domain then now ∷ ts else ts) else ts)
unfolding grants
grants-cons l l' domain d now calls granted ts e f = ground arith

Spaced-touched :
    (now : ℕ) (s : DomainState) (ts : List ℕ)
    → Spaced (touched now s).delay (touched now s).last_accessed ts
    → Spaced s.delay s.last_accessed (if leb s.delay (now - s.last_accessed) then now ∷ ts else ts)
Spaced-touched now s ts h = elim (Bool-cases (leb s.delay (now - s.last_accessed))) [
  | inl granted ↦ rw granted (leb→le _ _ granted, rw granted at h)
  | inr refused ↦ rw refused (rw refused at h)
]

-- If a domain is known and no call comes before the default delay has passed since the clock's start,
-- then no call panics, and the instants at which the domain is granted, the one before included, are
-- at least the domain's delay apart, whatever calls for other domains come between.
pub grants-Spaced :
    (l : DomainRateLimiter) (domain : String) (s : DomainState) (calls : List (ℕ × String))
    → lookup domain l.map ≡ some s
    → Late l.default_delay calls
    → (ts : List ℕ) × (grants l domain calls ≡ some ts) × Spaced s.delay s.last_accessed ts
unfolding grants
grants-Spaced l domain s [] known late = ([], refl, tt)
grants-Spaced l domain s ((now, d) ∷ calls) known late = elim (Bool-cases (str_eq d domain)) [
  | inl same ↦
      let ex : entry l d now ≡ some s =
        rw ((str_eq_iff d domain).0 same) (entry_known l domain now s known) in
      let (ts, run, spaced) =
        grants-Spaced (acquire l d now s).0 domain (touched now s) calls
          (rw (lookup-acquire l d domain now s, same)) (rw ((acquire_result l d now s).1) late.1) in
      (
        _,
        grants-cons l _ domain d now calls _ ts (try_acquire-entry l d now s ex) run,
        rw ((acquire_result l d now s).0, same) (Spaced-touched now s ts spaced),
      )
  | inr other ↦
      let (x, ex) = entry_total l d now late.0 in
      let (ts, run, spaced) =
        grants-Spaced (acquire l d now x).0 domain s calls
          (rw (lookup-acquire l d domain now x, other) known)
          (rw ((acquire_result l d now x).1) late.1) in
      (
        ts,
        grants-cons l _ domain d now calls _ ts (try_acquire-entry l d now x ex) run
            ∙ rw other (ground arith),
        spaced,
      )
]

first_attempt :
    (l : DomainRateLimiter) (domain : String) (now : ℕ)
    → lookup domain l.map ≡ none
    → l.default_delay ≤ now
    → entry l domain now
      ≡ some (record { delay = l.default_delay; last_accessed = now - l.default_delay })
unfolding entry
first_attempt l domain now unknown late = rw (unknown, entry) (ground arith)

after_grant :
    (l : DomainRateLimiter) (domain : String) (s : DomainState) (now : ℕ)
    (calls : List (ℕ × String))
    → entry l domain now ≡ some s
    → leb s.delay (now - s.last_accessed) ≡ true
    → Late l.default_delay calls
    → (ts : List ℕ) × (grants l domain ((now, domain) ∷ calls) ≡ some (now ∷ ts))
      × Spaced s.delay now ts
after_grant l domain s now calls found granted late =
    let self : str_eq domain domain ≡ true = (str_eq_iff domain domain).1 refl in
    let (ts, rest, spaced) =
      grants-Spaced (acquire l domain now s).0 domain (record s { last_accessed = now }) calls
        (rw (lookup-acquire l domain domain now s, self, granted))
        (rw ((acquire_result l domain now s).1) late) in
    let run =
      grants-cons l _ domain domain now calls _ ts (try_acquire-entry l domain now s found) rest in
    (ts, run ∙ first_kept ts self, spaced)
  where
    first_kept :
        (ts : List ℕ)
        → str_eq domain domain ≡ true
        → ◌≡◌ {A = Option (List ℕ)}
            (some (
              if (acquire l domain now s).1
              then (if str_eq domain domain then now ∷ ts else ts)
              else ts))
            (some (now ∷ ts))
    first_kept ts self = rw ((acquire_result l domain now s).0, self, granted)

-- The first call for a domain that the map does not know is granted, and from it on the grants of the
-- domain are at least the default delay apart, whatever calls for other domains come between. Stated
-- for calls that come no earlier than the default delay after the clock's start; no call panics then.
pub new_domain-Spaced :
    (l : DomainRateLimiter) (domain : String) (now : ℕ) (calls : List (ℕ × String))
    → lookup domain l.map ≡ none
    → Late l.default_delay ((now, domain) ∷ calls)
    → (ts : List ℕ) × (grants l domain ((now, domain) ∷ calls) ≡ some (now ∷ ts))
      × Spaced l.default_delay now ts
new_domain-Spaced l domain now calls unknown late =
    after_grant l domain _ now calls (first_attempt l domain now unknown late.0)
      (le→leb _ _ (omega (arith, late.0))) late.1

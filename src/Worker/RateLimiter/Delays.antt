-- ===== src/Worker/RateLimiter/Delays.antt =====
-- What `update_delay` changes, and the domain whose delay it sets to zero.
use polite_web_crawler.Prelude.{
  ℕ, ◌-◌, ◌≡◌, ◌∙◌, refl, true, some, List, [], ◌∷◌, String, arith, leb, Bool-cases, inl, inr,
  if◌then◌else◌, str_eq, str_eq_iff, le→leb,
}
use polite_web_crawler.Prelude.Dict.{lookup, insert, lookup-insert_self}
use polite_web_crawler.Worker.RateLimiter.{
  DomainState, DomainRateLimiter, entry, acquire, update_delay,
}
use polite_web_crawler.Worker.RateLimiter.Spacing.{
  Late, Spaced, grants, grants-Spaced, grants-cons, entry_known, entry_total, try_acquire-entry,
  lookup-acquire, acquire_result,
}

-- A known domain keeps its last access under a new delay, and the call does not panic.
update_delay_known :
    (l : DomainRateLimiter) (domain : String) (s : DomainState) (new_delay now : ℕ)
    → lookup domain l.map ≡ some s
    → (l' : DomainRateLimiter) × (update_delay l domain new_delay now ≡ some l')
      × (lookup domain l'.map ≡ some (record s { delay = new_delay }))
      × (l'.default_delay ≡ l.default_delay)
unfolding update_delay
update_delay_known l domain s new_delay now known = (
  record l { map = insert domain (record s { delay = new_delay }) l.map },
  rw (known, update_delay),
  lookup-insert_self domain _ l.map,
  refl,
)

-- From an update of a known domain's delay on, the grants of the domain keep the new delay, the first
-- of them counted from the last access before the update. Stated for calls that come no earlier than
-- the default delay after the clock's start; no call panics then.
pub update_delay-Spaced :
    (l : DomainRateLimiter) (domain : String) (s : DomainState) (new_delay now : ℕ)
    (calls : List (ℕ × String))
    → lookup domain l.map ≡ some s
    → Late l.default_delay calls
    → (l' : DomainRateLimiter) × (ts : List ℕ) × (update_delay l domain new_delay now ≡ some l')
      × (grants l' domain calls ≡ some ts)
      × Spaced new_delay s.last_accessed ts
update_delay-Spaced l domain s new_delay now calls known late =
    let (l', run, after, same) = update_delay_known l domain s new_delay now known in
    let (ts, granted, spaced) = grants-Spaced l' domain _ calls after (rw same late) in
    (l', ts, run, granted, spaced)

-- The instants of the calls for a domain.
abbrev pub instants : String → List (ℕ × String) → List ℕ
instants domain [] = []
instants domain ((now, d) ∷ calls) =
    let rest = instants domain calls in if str_eq d domain then now ∷ rest else rest

grants_all :
    (l : DomainRateLimiter) (domain : String) (s : DomainState) (calls : List (ℕ × String))
    → lookup domain l.map ≡ some s
    → s.delay ≡ 0
    → Late l.default_delay calls
    → grants l domain calls ≡ some (instants domain calls)
unfolding grants
grants_all l domain s [] known zero_delay late = refl
grants_all l domain s ((now, d) ∷ calls) known zero_delay late =
    elim (Bool-cases (str_eq d domain)) [
      | inl same ↦
          let ex : entry l d now ≡ some s =
            rw ((str_eq_iff d domain).0 same) (entry_known l domain now s known) in
          let free : leb s.delay (now - s.last_accessed) ≡ true = le→leb _ _ (omega arith) in
          let run =
            grants_all (acquire l d now s).0 domain (record s { last_accessed = now }) calls
              (rw (lookup-acquire l d domain now s, same, free)) zero_delay
              (rw ((acquire_result l d now s).1) late.1) in
          grants-cons l _ domain d now calls _ _ (try_acquire-entry l d now s ex) run
          ∙ rw ((acquire_result l d now s).0, free, same)
      | inr other ↦
          let (x, ex) = entry_total l d now late.0 in
          let run =
            grants_all (acquire l d now x).0 domain s calls
              (rw (lookup-acquire l d domain now x, other) known) zero_delay
              (rw ((acquire_result l d now x).1) late.1) in
          grants-cons l _ domain d now calls _ _ (try_acquire-entry l d now x ex) run
          ∙ rw other (ground arith)
    ]

-- Once the delay of a known domain is set to 0, as the worker does for a robots.txt without a
-- Crawl-delay, every call for the domain is granted, at whatever rate they come.
pub zero_delay_unlimited :
    (l : DomainRateLimiter) (domain : String) (s : DomainState) (now : ℕ)
    (calls : List (ℕ × String))
    → lookup domain l.map ≡ some s
    → Late l.default_delay calls
    → (l' : DomainRateLimiter) × (update_delay l domain 0 now ≡ some l')
      × (grants l' domain calls ≡ some (instants domain calls))
zero_delay_unlimited l domain s now calls known late =
    let (l', run, after, same) = update_delay_known l domain s 0 now known in
    (l', run, grants_all l' domain _ calls after refl (rw same late))

-- ===== src/Worker/RateLimiter/Awaiting.antt =====
-- What `await_acquiring` does, which the fetch of a sitemap waits for.
use polite_web_crawler.Prelude.{ℕ, ◌+◌, ◌-◌, ◌*◌, ◌≤◌, ◌<◌, ◌≡◌, ◌↔◌, refl, some, String, arith}
use polite_web_crawler.Prelude.Dict.{lookup, insert, lookup-insert_self}
use polite_web_crawler.Worker.RateLimiter.{DomainState, DomainRateLimiter, await_acquiring}
use polite_web_crawler.Worker.RateLimiter.Spacing.{entry_known}

module _ (l : DomainRateLimiter) (domain : String) (s : DomainState) (now : ℕ) where
  await_acquiring-known :
      lookup domain l.map ≡ some s
      → (l' : DomainRateLimiter) × (await_acquiring l domain now
          ≡ some (l', now + (now - s.last_accessed)))
        × (lookup domain l'.map ≡ some (record s { last_accessed = now }))
        × (l'.default_delay ≡ l.default_delay)
  unfolding await_acquiring
  await_acquiring-known known = (
    record l { map = insert domain (record s { last_accessed = now }) l.map },
    rw (entry_known l domain now s known, await_acquiring),
    lookup-insert_self domain _ l.map,
    refl,
  )

  -- The wait for a known domain, accessed no later than now, is over before the domain's delay has
  -- passed since its last access exactly when less than half of the delay had passed at the call: it
  -- sleeps for the time that has passed, not for the time that is left. The domain counts as accessed
  -- at the call, not at the end of the sleep.
  pub await_acquiring_early :
      lookup domain l.map ≡ some s
      → s.last_accessed ≤ now
      → (l' : DomainRateLimiter) × (wake : ℕ) × (await_acquiring l domain now ≡ some (l', wake))
        × (now ≤ wake)
        × ((wake < s.last_accessed + s.delay) ↔ (2 * (now - s.last_accessed) < s.delay))
        × (lookup domain l'.map ≡ some (record s { last_accessed = now }))
  await_acquiring_early known past =
      let (l', run, after, _) = await_acquiring-known known in
      (l', _, run, omega arith, ((λ h. omega arith), (λ h. omega arith)), after)

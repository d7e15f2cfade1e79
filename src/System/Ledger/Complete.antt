-- ===== src/System/Ledger/Complete.antt =====
-- The system with its record of URLs, when the counter of active tasks is 0: what is left of the crawl.
use polite_web_crawler.Prelude.{
  none, true, ℕ, ◌≤◌, zero, suc, ◌+◌, ◌^◌, ◌<◌, ◌≡◌, refl, ◌∙◌, ap, subst, String, List, [], ◌∷◌,
  All, replicate, length, arith,
}
use polite_web_crawler.Common.Url.{parsed}
use polite_web_crawler.Storage.Service.{Env, CrawlerStorage}
use polite_web_crawler.Worker.Core.Loop.{
  Phase, idle, guarded, counted, ended, holding, pushing, pushed, Shared,
}
use polite_web_crawler.Worker.Core.Loop.Balance.{all_held, all_uncounted, Balance}
use polite_web_crawler.Worker.Core.Loop.Ends.{run-Balance}
use polite_web_crawler.Worker.Core.Run.{seeded, ends_crawl}
use polite_web_crawler.System.{
  Place, looping, filtering, Step, acts, sitemap, elsewhere, step, steps,
}
use polite_web_crawler.System.Refines.{phases, steps-Runs}
use polite_web_crawler.System.Ledger.{count, Ledger, enter, entries}
use polite_web_crawler.System.Ledger.Acts.{Normal}
use polite_web_crawler.System.Ledger.Conserved.{
  Working, held, opened, nothing_lost, strays_are_sitemaps,
}

module _ {Url Robot F32 Filter Store : Type 0} (env : Env Url Robot F32 Filter Store) where
  enter_world :
      (e : Step Url F32 Filter Store) (l : Ledger env) → (enter env e l).world ≡ step env e l.world
  unfolding enter
  enter_world (acts k a) l = refl
  enter_world (sitemap p links) l = refl
  enter_world (elsewhere st) l = refl

  entries_world :
      (es : List (Step Url F32 Filter Store)) (l : Ledger env)
      → (entries env es l).world ≡ steps env es l.world
  unfolding entries steps
  entries_world [] l = refl
  entries_world (e ∷ es) l = entries_world es (enter env e l) ∙ ap (steps env es) (enter_world e l)

  starting_held : (n : ℕ) → all_held (phases {Url = Url} (replicate n (looping idle))) ≡ 0
  starting_held zero = refl
  starting_held (suc n) = omega (arith, starting_held n)

  starting_uncounted : (n : ℕ) → all_uncounted (phases {Url = Url} (replicate n (looping idle))) ≡ 0
  starting_uncounted zero = refl
  starting_uncounted (suc n) = omega (arith, starting_uncounted n)

  -- The counter of active tasks stays in balance in the system as a whole.
  entries-Balance :
      (s : Shared) (n : ℕ) (es : List (Step Url F32 Filter Store)) (l : Ledger env)
      → l.world.shared ≡ s
      → l.world.places ≡ replicate n (looping idle)
      → Balance s 0 0
      → Balance
          (entries env es l).world.shared
          (all_held (phases (entries env es l).world.places))
          (all_uncounted (phases (entries env es l).world.places))
  entries-Balance s n es l here there balanced =
      let (hs, same) = steps-Runs env es l.world in
      let start : Balance l.world.shared (all_held (phases l.world.places))
          (all_uncounted (phases l.world.places)) =
        rw (here, there, starting_held n, starting_uncounted n) balanced in
      rw (entries_world es l) (
        subst (λ (x : Shared × List (Phase Url)). Balance x.0 (all_held x.1) (all_uncounted x.1))
          same (run-Balance env.urls hs (l.world.shared, phases l.world.places) start))

  module _ (reparses : (u : Url) → env.urls.parse (env.urls.as_str u) ≡ parsed u) where
    none_held :
        (x : String) (ps : List (Place Url)) → all_held (phases ps) ≡ 0 → held env reparses x ps ≡ 0
    none_held x [] h = refl
    none_held x (looping idle ∷ ps) h = omega (arith, none_held x ps (omega (arith, h)))
    none_held x (looping ended ∷ ps) h = omega (arith, none_held x ps (omega (arith, h)))
    none_held x (looping guarded ∷ ps) h = absurd (omega (arith, h))
    none_held x (looping counted ∷ ps) h = absurd (omega (arith, h))
    none_held x (looping (holding u) ∷ ps) h = absurd (omega (arith, h))
    none_held x (looping (pushing i us) ∷ ps) h = absurd (omega (arith, h))
    none_held x (looping (pushed n) ∷ ps) h = absurd (omega (arith, h))
    none_held x (filtering us kept ∷ ps) h = absurd (omega (arith, h))

    count-le-length : (x : String) (xs : List String) → count x xs ≤ length xs
    count-le-length x [] = omega arith
    count-le-length x (y ∷ xs) = ground (arith, count-le-length x xs)

    -- The ledger behind a run.
    abbrev pub after :
        CrawlerStorage F32 Filter Store → Shared → ℕ → List (Step Url F32 Filter Store) → Ledger env
    after st s tokio_workers es = entries env es (opened env reparses st s tokio_workers)

    zero_tasks : (n pages_crawled : ℕ) → ends_crawl none n pages_crawled ≡ true → n ≡ 0
    unfolding ends_crawl
    zero_tasks n pages_crawled h = ground arith

    -- The crawl ends with as many URLs left as sitemaps were found. If the workers start on a counter that is
    -- the length of the queue, the connection to the queue works and no worker panics with a URL in its
    -- hands, then, whatever the order in which workers, handlers and the consumer have acted, when
    -- the coordinator's test ends the crawl, at no limit of pages, the URLs in the queue
    -- and those that workers hold and still count as active are together exactly as many as the sitemaps
    -- that were new, whether those have been taken up or not. Stated for a state in which no worker stands
    -- between a push and its count, with fewer than 2 ^ 64 URLs queued or held and fewer than
    -- 2 ^ 64 new sitemaps; for a queue of texts that URLs are written as, and for URLs whose texts
    -- parse back to them.
    pub left_at_zero :
        (st : CrawlerStorage F32 Filter Store) (s : Shared) (tokio_workers pages_crawled : ℕ)
        (es : List (Step Url F32 Filter Store))
        → s ≡ seeded (length s.queue) s.queue
        → All (Normal env reparses) s.queue
        → All Working es
        → all_uncounted (phases (after st s tokio_workers es).world.places) ≡ 0
        → length (after st s tokio_workers es).world.shared.queue
            + all_held (phases (after st s tokio_workers es).world.places)
          < 2 ^ 64
        → length (after st s tokio_workers es).sitemaps < 2 ^ 64
        → ends_crawl none (after st s tokio_workers es).world.shared.active_tasks pages_crawled
          ≡ true
        → length (after st s tokio_workers es).world.shared.queue
            + all_held (phases (after st s tokio_workers es).world.places)
          ≡ length (after st s tokio_workers es).sitemaps
    unfolding seeded
    left_at_zero st s tokio_workers pages_crawled es counts normal working no_gap small few ends =
        let (stray, leaked) =
          strays_are_sitemaps env reparses st s tokio_workers es normal working in
        let no_stray : s.stray ≡ 0 = ap (λ (r : Shared). r.stray) counts in
        let no_leak : s.leaked ≡ 0 = ap (λ (r : Shared). r.leaked) counts in
        let all_counted : s.active_tasks ≡ length s.queue =
          ap (λ (r : Shared). r.active_tasks) counts in
        let balanced : Balance s 0 0 = omega (arith, no_stray, no_leak, all_counted) in
        omega (
          arith,
          stray,
          leaked,
          no_stray,
          no_leak,
          zero_tasks (after st s tokio_workers es).world.shared.active_tasks pages_crawled ends,
          entries-Balance s tokio_workers es (opened env reparses st s tokio_workers) refl refl
              balanced,
        )

    -- A crawl without sitemaps is complete when the coordinator ends it. If the workers start on a counter
    -- that is the length of the queue, the connection to the queue works, no worker panics with a URL
    -- in its hands and no new sitemap has been pushed, then, whatever the order in which workers and
    -- handlers have acted, when the coordinator's test ends the crawl, at no limit of pages, every URL
    -- of the first queue and every link found since has been taken up, as often as it was queued or found, and no other has. Stated for a state
    -- in which no worker stands between a push and its count and fewer than 2 ^ 64 URLs are queued or
    -- held; for a queue of texts that URLs are written as, and for URLs whose texts parse back to them.
    pub crawl_completes :
        (st : CrawlerStorage F32 Filter Store) (s : Shared) (tokio_workers pages_crawled : ℕ)
        (es : List (Step Url F32 Filter Store))
        → s ≡ seeded (length s.queue) s.queue
        → All (Normal env reparses) s.queue
        → All Working es
        → (after st s tokio_workers es).sitemaps ≡ []
        → all_uncounted (phases (after st s tokio_workers es).world.places) ≡ 0
        → length (after st s tokio_workers es).world.shared.queue
            + all_held (phases (after st s tokio_workers es).world.places)
          < 2 ^ 64
        → ends_crawl none (after st s tokio_workers es).world.shared.active_tasks pages_crawled
          ≡ true
        → (x : String)
        → count x (after st s tokio_workers es).taken
          ≡ count x s.queue + count x (after st s tokio_workers es).found
    crawl_completes st s tokio_workers pages_crawled es counts normal working none_new no_gap small
          ends x =
        let l = after st s tokio_workers es in
        let no_maps : length l.sitemaps ≡ 0 = ap (λ (us : List String). length us) none_new in
        let left =
          left_at_zero st s tokio_workers pages_crawled es counts normal working no_gap small
            (omega (arith, no_maps)) ends in
        omega (
          arith,
          count-le-length x l.world.shared.queue,
          none_held x l.world.places (omega (arith, left, no_maps)),
          left,
          no_maps,
          nothing_lost env reparses x st s tokio_workers es normal working,
        )

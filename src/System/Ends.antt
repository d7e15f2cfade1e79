-- ===== src/System/Ends.antt =====
-- The system over a finite web: how many URLs a crawl can process at all.
use polite_web_crawler.Prelude.{
  ℕ, zero, suc, ◌+◌, ◌*◌, ◌≤◌, ◌≡◌, refl, List, [], ◌∷◌, All, length, replicate, arith,
}
use polite_web_crawler.Common.Url.{parsed}
use polite_web_crawler.Storage.Seen.{IsBloom}
use polite_web_crawler.Storage.Service.{Env, CrawlerStorage}
use polite_web_crawler.Worker.Core.Loop.{idle, Shared}
use polite_web_crawler.System.Finite.{unseen, unseen-le-length}
use polite_web_crawler.System.{
  Place, looping, Act, Step, acts, sitemap, elsewhere, World, act_of, pushed_by, step, steps,
  starting,
}
use polite_web_crawler.System.Spends.{OfWeb, weight, Sound, act-Spends}
use polite_web_crawler.System.Sitemaps.{SitemapOfWeb, push_new-Spends}

module _ {Url Robot F32 Filter Store : Type 0} (env : Env Url Robot F32 Filter Store)
    (law : IsBloom env.bloom) (reparses : (u : Url) → env.urls.parse (env.urls.as_str u) ≡ parsed u)
    (web : List Url) where
  -- The links of pages, and the sitemaps, are URLs of the web.
  abbrev pub Inside : Step Url F32 Filter Store → Type 0
  Inside (acts k a) = OfWeb env law reparses web a
  Inside (sitemap p links) = SitemapOfWeb env law reparses web p
  Inside e = Unit

  all_weight : List (Place Url) → ℕ
  all_weight [] = 0
  all_weight (p ∷ ps) = weight env law reparses web p + all_weight ps

  act_of-Spends :
      (k : ℕ) (a : Act Url) (st : CrawlerStorage F32 Filter Store) (s : Shared)
      (ps : List (Place Url))
      → All (Sound env law reparses web) ps
      → OfWeb env law reparses web a
      → ((act_of env k a st s ps).3
            + length (act_of env k a st s ps).1.queue
            + all_weight (act_of env k a st s ps).2
            + 3 * unseen env law reparses (act_of env k a st s ps).0.seen_urls web
          ≤ length s.queue + all_weight ps + 3 * unseen env law reparses st.seen_urls web)
        × All (Sound env law reparses web) (act_of env k a st s ps).2
  unfolding act_of all_weight
  act_of-Spends k a st s [] h w = (omega arith, tt)
  act_of-Spends zero a st s (p ∷ ps) (h, hs) w =
      let (less, sound) = act-Spends env law reparses web st s p a h w in
      (omega (arith, less), (sound, hs))
  act_of-Spends (suc k) a st s (p ∷ ps) (h, hs) w =
      let (less, sound) = act_of-Spends k a st s ps hs w in (omega (arith, less), (h, sound))

  -- The URLs that are over, and those that the crawl may still come to.
  budget : World env → ℕ
  budget w =
      w.returns
      + length w.shared.queue
      + all_weight w.places
      + 3 * unseen env law reparses w.storage.seen_urls web

  step-Spends :
      (e : Step Url F32 Filter Store) (w : World env)
      → All (Sound env law reparses web) w.places
      → Inside e
      → (budget (step env e w) ≤ budget w) × All (Sound env law reparses web) (step env e w).places
  unfolding step pushed_by budget
  step-Spends (acts k a) w h i =
      let (less, sound) = act_of-Spends k a w.storage w.shared w.places h i in
      (omega (arith, less), sound)
  step-Spends (sitemap p links) w h i =
      (omega (arith, push_new-Spends env law reparses w.storage w.shared.queue links p web i), h)
  step-Spends (elsewhere st) w h i = (omega arith, h)

  steps-Spend :
      (es : List (Step Url F32 Filter Store)) (w : World env)
      → All (Sound env law reparses web) w.places
      → All Inside es
      → budget (steps env es w) ≤ budget w
  unfolding steps
  steps-Spend [] w h i = omega arith
  steps-Spend (e ∷ es) w h (i, is) =
      let (less, sound) = step-Spends e w h i in
      omega (arith, less, steps-Spend es (step env e w) sound is)

  returns-le-budget : (w : World env) → w.returns ≤ budget w
  unfolding budget
  returns-le-budget w = omega arith

  starting-Sound : (n : ℕ) → All (Sound env law reparses web) (replicate n (looping idle))
  starting-Sound zero = tt
  starting-Sound (suc n) = (tt, starting-Sound n)

  starting_weight : (n : ℕ) → all_weight (replicate n (looping idle)) ≡ 0
  unfolding all_weight
  starting_weight zero = refl
  starting_weight (suc n) = omega (arith, starting_weight n)

  budget-starting :
      (st : CrawlerStorage F32 Filter Store) (s : Shared) (n : ℕ)
      → budget (starting env st s n) ≤ length s.queue + 3 * length web
  unfolding budget
  budget-starting st s n =
      omega (arith, starting_weight n, unseen-le-length env law reparses st.seen_urls web)

  -- How many URLs a crawl of a finite web can process. If all links that pages have, and all sitemaps, are
  -- among the URLs of `web`, then in no run of the workers, the handlers and the consumer, in any
  -- order and however the connections fail, do more calls of `process_single_url` end than the
  -- queue had URLs at the start and three for each URL of the web. Stated for a filter that never
  -- misses what was inserted, and for URLs whose texts parse back to them.
  pub finite_web_bounded :
      (st : CrawlerStorage F32 Filter Store) (s : Shared) (tokio_workers : ℕ)
      (es : List (Step Url F32 Filter Store))
      → All Inside es
      → (steps env es (starting env st s tokio_workers)).returns ≤ length s.queue + 3 * length web
  finite_web_bounded st s tokio_workers es inside = omega (
    arith,
    returns-le-budget (steps env es (starting env st s tokio_workers)),
    steps-Spend es (starting env st s tokio_workers) (starting-Sound tokio_workers) inside,
    budget-starting st s tokio_workers,
  )

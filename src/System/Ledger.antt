-- ===== src/System/Ledger.antt =====
-- The system with a record of its URLs: which were found and reported as new, which of
-- them in a sitemap, and which were taken up. The code keeps none of these lists.
pub mod Acts
pub mod Conserved
pub mod Marks
pub mod Once
pub mod Crawl
pub mod Complete
mod Tests
use polite_web_crawler.Prelude.{
  ◌≡◌, arith, ℕ, zero, suc, ◌+◌, Bool, true, false, Option, none, some, String, List, [], ◌∷◌, ◌++◌,
  str_eq, if◌then◌else◌,
}
use polite_web_crawler.Common.Outcome.{Outcome, ok, err, panic}
use polite_web_crawler.Common.Url.{Parsed, parsed, refused}
use polite_web_crawler.Storage.Service.{Env, CrawlerStorage, insert_url_in_seen_urls}
use polite_web_crawler.Worker.Core.Loop.{Phase, holding, Event, tried}
use polite_web_crawler.Worker.Core.Links as Links
use polite_web_crawler.System.{
  Place, looping, filtering, Act, operates, asks, Step, acts, sitemap, elsewhere, World, step,
  starting,
}

-- How often a text stands in a list.
abbrev pub count : String → List String → ℕ
count x [] = 0
count x (y ∷ ys) = (if str_eq x y then 1 else 0) + count x ys

pub count-append : (x : String) (xs ys : List String) → count x (xs ++ ys) ≡ count x xs + count x ys
count-append x [] ys = omega arith
count-append x (y ∷ xs) ys = omega (arith, count-append x xs ys)

module _ {Url Robot F32 Filter Store : Type 0} (env : Env Url Robot F32 Filter Store) where
  -- A URL in a worker's hands is taken up where the rate limiter grants its domain, and given up where it
  -- has none.
  taken_at : Url → Option String → Bool → List String
  taken_at u none granted = env.urls.as_str u ∷ []
  taken_at u (some domain) true = env.urls.as_str u ∷ []
  taken_at u (some domain) false = []

  unfoldable pub taken_by : Place Url → Act Url → List String
  unfolding taken_at
  taken_by (looping (holding u)) (operates (tried granted link)) =
      taken_at u (env.urls.domain u) granted
  taken_by p a = []

  -- A link is found where `insert_url` answers that it is new.
  found_at : String → Outcome Bool → List String
  found_at u (ok false) = u ∷ []
  found_at u o = []

  unfoldable pub found_by : CrawlerStorage F32 Filter Store → Place Url → Act Url → List String
  unfolding found_at
  found_by st (filtering (u ∷ us) kept) (asks c) =
      found_at (env.urls.as_str u) (Links.insert_url env st c (env.urls.as_str u)).0
  found_by st p a = []

  -- The act of the worker with a number.
  taken_of : ℕ → Act Url → List (Place Url) → List String
  unfolding taken_by
  taken_of k a [] = []
  taken_of zero a (p ∷ ps) = taken_by p a
  taken_of (suc k) a (p ∷ ps) = taken_of k a ps

  found_of : CrawlerStorage F32 Filter Store → ℕ → Act Url → List (Place Url) → List String
  unfolding found_by
  found_of st k a [] = []
  found_of st zero a (p ∷ ps) = found_by st p a
  found_of st (suc k) a (p ∷ ps) = found_of st k a ps

  sitemap_found : CrawlerStorage F32 Filter Store → Parsed Url → List String
  unfolding insert_url_in_seen_urls
  sitemap_found st (refused e) = []
  sitemap_found st (parsed u) =
      if (insert_url_in_seen_urls env st u).0 then [] else env.urls.as_str u ∷ []

  pub record Ledger : Type 0 where
    pub world : World env
    pub found : List String
    pub taken : List String
    pub sitemaps : List String

  unfoldable pub enter : Step Url F32 Filter Store → Ledger → Ledger
  unfolding step taken_of found_of sitemap_found
  enter (acts k a) l = record {
    world = step env (acts k a) l.world;
    found = found_of l.world.storage k a l.world.places ++ l.found;
    taken = taken_of k a l.world.places ++ l.taken;
    sitemaps = l.sitemaps;
  }
  enter (sitemap p links) l = record {
    world = step env (sitemap p links) l.world;
    found = sitemap_found l.world.storage p ++ l.found;
    taken = l.taken;
    sitemaps = sitemap_found l.world.storage p ++ l.sitemaps;
  }
  enter (elsewhere st) l = record l { world = step env (elsewhere st) l.world }

  unfoldable pub entries : List (Step Url F32 Filter Store) → Ledger → Ledger
  unfolding enter
  entries [] l = l
  entries (e ∷ es) l = entries es (enter e l)

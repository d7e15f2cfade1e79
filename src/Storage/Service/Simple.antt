-- ===== src/Storage/Service/Simple.antt =====
-- A small storage, on which the tests run: it knows the domain "a.org" with a rule and a delay.
use polite_web_crawler.Prelude.{
  none, ℕ, ◌≡◌, ◌≢◌, ◌⊎◌, refl, some, String, List, [], ◌∷◌, arith, any, ◌==◌, str_eq_iff,
}
use polite_web_crawler.Prelude.Dict.{Dict, lookup, insert, lookup-insert, lookup-insert_self}
use polite_web_crawler.Common.Text.{starts_with}
use polite_web_crawler.Common.Text.Ascii.{ascii}
use polite_web_crawler.Common.Outcome.{ok}
use polite_web_crawler.Common.Url.Simple.{SimpleUrl, simple_urls, simple_robots, whole_seconds}
use polite_web_crawler.Common.Data.{DomainDataSaveData, allowed, disallowed}
use polite_web_crawler.Storage.Seen.{IsBloom}
use polite_web_crawler.Storage.Dedup.Bits.{diff_bits}
use polite_web_crawler.Storage.Dedup.{init}
use polite_web_crawler.Storage.Cache.{
  get_sitemaps, add_domain, CachedData, CacheApi, IsCache, get_cached_domain, new_cached,
}
use polite_web_crawler.Storage.Db as Db
use polite_web_crawler.Storage.Db.{
  DomainRow, Tables, Fault, works, fails_before, with_backoff, try_from, attempt, after_attempt,
  find_domain, cache_info, get_cache_info_about_domain, select_domain,
}
use polite_web_crawler.Storage.Service.Coherence.{IsCoherent}
use polite_web_crawler.Storage.Service.{
  cache_domain, save_domain, Env, CrawlerStorage, check_if_url_allowed, cached_or_load, load,
  access_of,
}

-- A cache that keeps all.
abbrev pub keeping : CacheApi (Dict (CachedData String)) (CachedData String)
keeping = record { empty = []; get = λ s k. (lookup k s, s); insert = λ s k v. insert k v s }

pub keeping-insert :
    (s : Dict (CachedData String)) (k j : String) (v w : CachedData String)
    → lookup j (insert k v s) ≡ some w
    → ((k ≡ j) × (v ≡ w)) ⊎ ((k ≢ j) × (lookup j s ≡ some w))
keeping-insert s k j v w h = grind (arith, lookup-insert k j v s, str_eq_iff k j)

pub nothing_held : (k : String) (v : CachedData String) → ¬ (lookup k [] ≡ some v)
unfolding lookup
nothing_held k v h = cc h

abbrev pub keeping-IsCache : IsCache keeping
keeping-IsCache = record {
  Holds = λ s k v. lookup k s ≡ some v;
  not_empty = nothing_held;
  get_held = λ s k v h. h;
  held_before_get = λ s k j v h. h;
  held_before_insert = keeping-insert;
  get-insert = λ s k v. lookup-insert_self k v s;
}

-- A hash that is the first byte.
abbrev first : List ℕ → ℕ
first [] = 0
first (x ∷ xs) = x

abbrev pub env : Env SimpleUrl String ℕ (List ℕ) (Dict (CachedData String))
env = record {
  urls = simple_urls;
  robots = simple_robots;
  floats = whole_seconds;
  cache = keeping;
  bloom = record { new_filter = []; insert = λ s u. (any (λ v. v == u.number) s, u.number ∷ s) };
  unicode = ascii;
  simhash = record { simhash = first; simhash_stream = λ xs. 5; hamming_distance = diff_bits 64 };
}

abbrev known : DomainRow ℕ
known = record {
  dom_id = 1;
  domain_string = "a.org";
  delay = some 2;
  allowed_urls = some "/private";
}

abbrev pub filled : Tables ℕ
filled = record { domains = known ∷ []; pages = []; last_domain = 1; last_page = 0 }

abbrev pub working : ℕ → Fault
working i = works

abbrev pub locked : ℕ → Fault
locked i = fails_before "locked"

abbrev pub started : CrawlerStorage ℕ (List ℕ) (Dict (CachedData String))
started = record {
  seen_urls = [];
  tables = filled;
  domain_cache = [];
  agent_name = "crawler";
  dedup = init [] 3;
  saved_counter = 0;
}

abbrev pub secret : SimpleUrl
secret = record { host = some "a.org"; at = "/private/x"; number = 0 }

pub started-IsCoherent : IsCoherent env keeping-IsCache started
started-IsCoherent = record { agrees = λ domain cd h. elim (nothing_held domain cd h) [ ] }

pub secret_disallowed : (check_if_url_allowed env started secret working).0 ≡ ok disallowed
unfolding check_if_url_allowed cached_or_load load get_cached_domain access_of
    get_cache_info_about_domain cache_info with_backoff try_from attempt after_attempt select_domain
    find_domain new_cached starts_with lookup
secret_disallowed = refl

pub bloom-IsBloom : IsBloom env.bloom
bloom-IsBloom = record {
  contains = λ s u. any (λ v. v == u.number) s;
  answer = λ s u. refl;
  inserted = λ s u. ground arith;
  kept = λ s u v h. ground arith;
}

abbrev pub page_open : SimpleUrl
page_open = record { host = some "a.org"; at = "/open"; number = 0 }

pub open_allowed : (check_if_url_allowed env started page_open working).0 ≡ ok allowed
unfolding check_if_url_allowed cached_or_load load get_cached_domain access_of
    get_cache_info_about_domain cache_info with_backoff try_from attempt after_attempt select_domain
    find_domain new_cached starts_with lookup
open_allowed = refl

-- The domain once more, without robots.txt.
abbrev pub unruled : DomainDataSaveData ℕ
unruled = record { domain_string = "a.org"; robots = none; delay = 0 }

abbrev pub after_unruled : CrawlerStorage ℕ (List ℕ) (Dict (CachedData String))
after_unruled = (save_domain env started unruled working).1

pub saves_unruled : save_domain env started unruled working ≡ (ok [], after_unruled)
unfolding save_domain cache_domain add_domain get_sitemaps new_cached insert lookup Db.save_domain
    with_backoff try_from attempt after_attempt Db.save_domain_stmt find_domain Db.upsert_domain
saves_unruled = refl

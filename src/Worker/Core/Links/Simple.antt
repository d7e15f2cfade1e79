-- ===== src/Worker/Core/Links/Simple.antt =====
-- A small storage whose URLs are texts and whose filter is a list, for the tests.
use polite_web_crawler.Prelude.{
  ℕ, refl, some, String, List, [], ◌∷◌, any, arith, str_eq, str_eq_iff,
}
use polite_web_crawler.Prelude.Dict.{Dict}
use polite_web_crawler.Common.Text.Ascii.{ascii}
use polite_web_crawler.Common.Errors.{Status, internal}
use polite_web_crawler.Common.Url.{parsed, UrlApi}
use polite_web_crawler.Common.Url.Simple.{simple_robots, whole_seconds}
use polite_web_crawler.Storage.Cache.{CachedData}
use polite_web_crawler.Storage.Seen.{IsBloom}
use polite_web_crawler.Storage.Service.{Env, CrawlerStorage}
use polite_web_crawler.Storage.Service.Simple as Simple

abbrev pub texts : UrlApi String
texts = record {
  parse = λ s. parsed s;
  join = λ u s. parsed s;
  domain = λ u. some "a.org";
  scheme = λ u. "https";
  path = λ u. [];
  as_str = λ u. u;
  without_fragment = λ u. u;
  url_eq = str_eq;
  url_le = str_eq;
}

abbrev pub env : Env String String ℕ (List String) (Dict (CachedData String))
env = record {
  urls = texts;
  robots = simple_robots;
  floats = whole_seconds;
  cache = Simple.keeping;
  bloom = record { new_filter = []; insert = λ s u. (any (str_eq u) s, u ∷ s) };
  unicode = ascii;
  simhash = Simple.env.simhash;
}

pub listed-IsBloom : IsBloom env.bloom
listed-IsBloom = record {
  contains = λ s u. any (str_eq u) s;
  answer = λ s u. refl;
  inserted = λ s u. ground (arith, str_eq_iff u u);
  kept = λ s u v h. ground arith;
}

abbrev pub empty_storage : CrawlerStorage ℕ (List String) (Dict (CachedData String))
empty_storage = record {
  seen_urls = [];
  tables = Simple.filled;
  domain_cache = [];
  agent_name = "crawler";
  dedup = Simple.started.dedup;
  saved_counter = 0;
}

abbrev pub reset : Status
reset = record { code = internal; message = "reset" }

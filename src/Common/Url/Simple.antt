-- ===== src/Common/Url/Simple.antt =====
-- Small instances of the interfaces, on which the tests run: a URL is a record of its parts, robots.txt
-- is a single rule, and a float is a whole number of seconds.
use polite_web_crawler.Prelude.{
  ℕ, ◌*◌, ◌&&◌, not, Option, none, some, [], ◌∷◌, String, str_eq, leb, if◌then◌else◌, ◌==◌,
}
use polite_web_crawler.Common.Text.{codes, starts_with}
use polite_web_crawler.Common.Url.{
  Parsed, parsed, refused, relative_url_without_base, UrlApi, read, RobotApi, Floats,
}

pub record SimpleUrl : Type 0 where
  pub host : Option String
  pub at : String
  pub number : ℕ

-- A text with no host known is a URL of the host "a.org".
abbrev pub simple_parse : String → Parsed SimpleUrl
simple_parse s =
    if str_eq s ""
    then refused relative_url_without_base
    else parsed (record { host = some "a.org"; at = s; number = 0 })

abbrev pub simple_urls : UrlApi SimpleUrl
simple_urls = record {
  parse = simple_parse;
  join = λ u s. parsed (record u { at = s });
  domain = λ u. u.host;
  scheme = λ u. "https";
  path = λ u. codes u.at;
  as_str = λ u. u.at;
  without_fragment = λ u. u;
  url_eq = λ u v. str_eq u.at v.at && u.number == v.number;
  url_le = λ u v. leb u.number v.number;
}

-- The rule is the prefix of the paths that are not allowed.
abbrev pub simple_robots : RobotApi String ℕ
simple_robots = record {
  new_robot = λ agent text. read text;
  allowed = λ robot path. not (starts_with path (codes robot));
  crawl_delay = λ robot. none;
  sitemaps = λ robot. "https://a.org/sitemap.xml" ∷ [];
}

abbrev pub whole_seconds : Floats ℕ
whole_seconds = record {
  zero_f32 = 0;
  from_secs_f32 = λ s. some (s * 1_000_000_000);
  as_secs_f32 = λ n. n;
}

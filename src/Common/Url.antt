-- ===== src/Common/Url.antt =====
-- The crates `url` and `texting_robots`, and the floating-point durations, as far as they are called.
pub mod Simple
use polite_web_crawler.Prelude.{ℕ, Bool, Option, String, List}
use polite_web_crawler.Common.Text.{Text}
use polite_web_crawler.Common.Errors.{invalid_url}
use polite_web_crawler.Common.Outcome.{Outcome, ok, err}

-- `url::ParseError`, of which the program tells one apart.
pub data ParseError : Type 0 where
  relative_url_without_base : ParseError
  other_error : String → ParseError

pub data Parsed (Url : Type 0) : Type 0 where
  parsed : Url → Parsed Url
  refused : ParseError → Parsed Url

pub record UrlApi (Url : Type 0) : Type 0 where
  pub parse : String → Parsed Url
  pub join : Url → String → Parsed Url
  pub domain : Url → Option String
  pub scheme : Url → String
  pub path : Url → Text
  pub as_str : Url → String
  pub without_fragment : Url → Url
  -- `==` and `Ord::cmp`, the latter as `a <= b`
  pub url_eq : Url → Url → Bool
  pub url_le : Url → Url → Bool

-- What `map_err(CrawlerError::InvalidUrl)?` makes of a parsed URL.
unfoldable pub parse_outcome : {Url : Type 0} → Parsed Url → Outcome Url
parse_outcome (parsed u) = ok u
parse_outcome (refused relative_url_without_base) = err (invalid_url "relative URL without a base")
parse_outcome (refused (other_error e)) = err (invalid_url e)

-- `Robot::new(agent, text)`, with the text of the error where it fails.
pub data Read (Robot : Type 0) : Type 0 where
  read : Robot → Read Robot
  unreadable : String → Read Robot

pub record RobotApi (Robot F32 : Type 0) : Type 0 where
  pub new_robot : String → String → Read Robot
  pub allowed : Robot → Text → Bool
  pub crawl_delay : Robot → Option F32
  pub sitemaps : Robot → List String

-- `f32` with `Duration`, in nanoseconds. `Duration::from_secs_f32` panics, `none`, on a number that is
-- negative, not finite or too large.
pub record Floats (F32 : Type 0) : Type 0 where
  pub zero_f32 : F32
  pub from_secs_f32 : F32 → Option ℕ
  pub as_secs_f32 : ℕ → F32

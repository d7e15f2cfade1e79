-- ===== src/Worker/Simple.antt =====
-- Small instances of what the worker uses, on which the tests run.
use polite_web_crawler.Prelude.{
  ℕ, ◌≡◌, refl, ◌&&◌, none, some, String, [], ◌∷◌, ◌==◌, ltb, leb, if◌then◌else◌,
}
use polite_web_crawler.Common.Text.{codes}
use polite_web_crawler.Common.Text.Ascii.{ascii}
use polite_web_crawler.Common.Errors.{CrawlerError}
use polite_web_crawler.Common.Outcome.{ok}
use polite_web_crawler.Common.Url.Simple.{SimpleUrl, simple_urls, simple_robots, whole_seconds}
use polite_web_crawler.Common.Rpc.{
  ProtoUrlAccess, proto_allowed, proto_disallowed, proto_unknown_domain, proto_url_without_host,
  WireEnum, IsWireEnum,
}
use polite_web_crawler.Worker.Fetcher.Wire.{Http}
use polite_web_crawler.Worker.Core.Single.{Tools}

abbrev pub statuses : Http
statuses = record {
  is_success = λ s. leb 200 s && ltb s 300;
  error_for_status = λ s. if leb 400 s && ltb s 600 then some "status" else none;
}

abbrev pub numbers : WireEnum
numbers = record {
  as_i32 = λ a. elim a [
    | proto_allowed ↦ 0
    | proto_disallowed ↦ 1
    | proto_unknown_domain ↦ 2
    | proto_url_without_host ↦ 3
  ];
  try_from = λ n.
      if n == 0
      then some proto_allowed
      else if n == 1
      then some proto_disallowed
      else if n == 2
      then some proto_unknown_domain
      else if n == 3
      then some proto_url_without_host
      else none;
}

numbers_back : (a : ProtoUrlAccess) → numbers.try_from (numbers.as_i32 a) ≡ some a
numbers_back proto_allowed = refl
numbers_back proto_disallowed = refl
numbers_back proto_unknown_domain = refl
numbers_back proto_url_without_host = refl

pub numbers-IsWireEnum : IsWireEnum numbers
numbers-IsWireEnum = record { read_back = numbers_back }

abbrev pub debug : CrawlerError → String
debug e = "error"

-- A document is its text, and its one link.
abbrev pub simple_tools : Tools SimpleUrl String ℕ String
simple_tools = record {
  urls = simple_urls;
  robots = simple_robots;
  floats = whole_seconds;
  unicode = ascii;
  http = statuses;
  html = record {
    parse_document = λ s. s;
    texts = λ d. codes d ∷ [];
    hrefs = λ d. "/next" ∷ [];
    title = λ d. none;
    descriptions = λ d. [];
  };
  xml = λ s. [];
  to_json = λ event. ok "event";
  base = λ scheme domain. domain;
  keywords = [];
  agent = "crawler";
}

-- ===== src/Worker/Fetcher.antt =====
-- crates/worker_service/src/network/link_fetcher.rs: retries, pages, robots.txt and sitemaps. What the
-- network answers to the attempts of a call is an argument. The program never reads the delay of its
-- `LinkFetcher`, so it is no argument here.
pub mod Wire
pub mod Retry
pub mod Pages
pub mod Domains
mod Tests
use polite_web_crawler.Prelude.{
  ℕ, Bool, true, false, ◌&&◌, ◌||◌, not, Option, none, some, String, List, [], ◌∷◌, map, ◌==◌,
  if◌then◌else◌, any,
}
use polite_web_crawler.Common.Text.{Text, Unicode, codes, ends_with, contains}
use polite_web_crawler.Common.Errors.{
  CrawlerError, network, invalid_url, robot_parse_error, url_doesnt_contain_domain, no_xml_content,
}
use polite_web_crawler.Common.Outcome.{Outcome, ok, err, panic, ◌>>=◌}
use polite_web_crawler.Common.Data.{NotParsedPageData, DomainData}
use polite_web_crawler.Common.Url.{
  ParseError, relative_url_without_base, other_error, Parsed, parsed, refused, UrlApi, Read, read,
  unreadable, RobotApi, Floats, parse_outcome,
}
use Wire.{Http, Response, Body, bytes, broken, Sent, received, failed}
use Retry.{with_retry}

abbrev pub attempts : ℕ
attempts = 3

unfoldable pub bad_extensions : List Text
bad_extensions = map codes (
    ".pdf" ∷ ".doc" ∷ ".docx" ∷ ".xls" ∷ ".xlsx" ∷ ".ppt" ∷ ".pptx" ∷ ".zip" ∷ ".rar" ∷ ".7z"
    ∷ ".tar" ∷ ".gz" ∷ ".png" ∷ ".jpg" ∷ ".jpeg" ∷ ".gif" ∷ ".svg" ∷ ".ico" ∷ ".webp" ∷ ".mp3"
    ∷ ".mp4" ∷ ".avi" ∷ ".mkv" ∷ ".css" ∷ ".js" ∷ ".json" ∷ ".xml" ∷ [])

-- `.map_err(CrawlerError::Network)` on what `send()` returns.
unfoldable pub sent_outcome : {Url : Type 0} → Sent Url → Outcome (Response Url)
sent_outcome (received r) = ok r
sent_outcome (failed e) = err (network e)

-- `response.text().await?`
unfoldable pub body_text : Body → Outcome String
body_text (bytes s) = ok s
body_text (broken e) = err (network e)

-- `Err(CrawlerError::Network(response.error_for_status().unwrap_err()))`: the `unwrap_err` panics where
-- the status is no error.
unfoldable pub status_failure {ℓ} : {A : Type ℓ} → Http → ℕ → Outcome A
status_failure h status = elim (h.error_for_status status) [
  | none ↦ panic
  | some e ↦ err (network e)
]

-- The test on the content type in `get_page`: no header passes, and a header that is no text is "".
unfoldable pub is_page : Option (Option Text) → Bool
is_page none = true
is_page (some none) = false
is_page (some (some ct)) =
    contains ct (codes "text/html") || contains ct (codes "application/xhtml+xml")

-- The test in `get_xml_content`: no header passes, and so does a header that is no text.
unfoldable pub is_xml : Unicode → Option (Option Text) → Bool
is_xml u none = true
is_xml u (some none) = true
is_xml u (some (some ct)) = any (contains (u.to_lowercase ct)) (
    map codes (
      "text/xml" ∷ "application/xml" ∷ "application/x-xml" ∷ "+xml" ∷ "gzip" ∷ "octet-stream" ∷ []))

module _ {Url : Type 0} (uni : Unicode) (api : UrlApi Url) (h : Http) where
  unfoldable pub is_blacklisted_extension : Url → Bool
  unfolding bad_extensions
  is_blacklisted_extension url = any (ends_with (uni.to_lowercase (api.path url))) bad_extensions

  -- `get_page` behind its request.
  unfoldable pub read_page : Url → Response Url → Outcome (NotParsedPageData Url)
  read_page url r =
      if not (is_page r.content_type)
      then ok (record { url = r.url; content = "" })
      else if h.is_success r.status
      then (do content ← body_text r.body; ok (record { url = r.url; content = content }))
      else if r.status == 404
      then ok (record { url = url; content = "" })
      else status_failure h r.status

  -- The result, and the number of requests that were sent.
  unfoldable pub get_page : Url → (ℕ → Sent Url) → Outcome (NotParsedPageData Url) × ℕ
  get_page url answers =
      if is_blacklisted_extension url
      then (ok (record { url = url; content = "" }), 0)
      else (let (response, sent) = with_retry attempts (λ i. sent_outcome (answers i)) in
          (response >>= read_page url, sent))

  -- `get_xml_content` behind its request.
  unfoldable pub read_xml : Response Url → Outcome String
  read_xml r =
      if not (is_xml uni r.content_type)
      then err no_xml_content
      else if h.is_success r.status
      then body_text r.body
      else if r.status == 404
      then ok ""
      else status_failure h r.status

  unfoldable pub get_xml_content : (ℕ → Sent Url) → Outcome String × ℕ
  get_xml_content answers =
      let (response, sent) = with_retry attempts (λ i. sent_outcome (answers i)) in
      (response >>= read_xml, sent)

  -- `get_robot_list` behind its request.
  unfoldable pub read_robots : Response Url → Outcome (Option String)
  read_robots r =
      if h.is_success r.status
      then (do body ← body_text r.body; ok (some body))
      else if r.status == 404
      then ok none
      else status_failure h r.status

  domain_outcome : Url → Outcome String
  domain_outcome url = elim (api.domain url) [
    | none ↦ err url_doesnt_contain_domain
    | some d ↦ ok d
  ]

  -- `base` stands for `format!("{}://{}", scheme, domain)`; the answer depends on the URL asked for.
  unfoldable pub get_robot_list :
      (String → String → String) → Url → (Url → Sent Url) → Outcome (Option String)
  unfolding domain_outcome
  get_robot_list base url answer = do
    domain ← domain_outcome url
    main_link ← parse_outcome (api.parse (base (api.scheme url) domain))
    robot_url ← parse_outcome (api.join main_link "robots.txt")
    response ← sent_outcome (answer robot_url)
    read_robots response

  module _ {Robot F32 : Type 0} (robots : RobotApi Robot F32) (f : Floats F32) where
    -- What `get_domain_data` makes of the text of robots.txt.
    unfoldable pub domain_data : String → String → Option String → Outcome (DomainData F32)
    domain_data user_agent domain none =
        ok (record { domain_string = domain; robots = none; delay = f.zero_f32 })
    domain_data user_agent domain (some rb) = elim (robots.new_robot user_agent rb) [
      | unreadable e ↦ err (robot_parse_error e)
      | read robot ↦ ok (record {
        domain_string = domain;
        robots = some rb;
        delay = elim (robots.crawl_delay robot) [ none ↦ f.zero_f32 | some d ↦ d ];
      })
    ]

    unfoldable pub get_domain_data :
        (String → String → String) → String → Url → (ℕ → Url → Sent Url) → Outcome (DomainData F32)
    unfolding domain_outcome
    get_domain_data base user_agent url answers = do
      domain ← domain_outcome url
      robot_body ← (with_retry attempts (λ i. get_robot_list base url (answers i))).0
      domain_data user_agent domain robot_body

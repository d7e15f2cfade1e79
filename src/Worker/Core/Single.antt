-- ===== src/Worker/Core/Single.antt =====
-- crawler_core.rs, `process_single_url` and its handlers: what a worker does with one URL. What the calls of the
-- storage and the network answer is an argument.
pub mod Allowed
pub mod Published
pub mod Learned
pub mod Counted
mod Tests
mod PageTests
use polite_web_crawler.Prelude.{
  ℕ, ◌+◌, ◌%◌, ◌^◌, Bool, true, false, ◌||◌, Option, none, some, String, List, [], ◌∷◌,
  if◌then◌else◌,
}
use polite_web_crawler.Common.Text.{Text, Unicode, codes, ends_with}
use polite_web_crawler.Common.Errors.{not_allowed, url_doesnt_contain_domain}
use polite_web_crawler.Common.Outcome.{Outcome, ok, err, panic}
use polite_web_crawler.Common.Data.{
  NotParsedPageData, DomainData, UrlAccess, allowed, disallowed, unknown_domain, url_without_host,
  ParsedData,
}
use polite_web_crawler.Common.Url.{UrlApi, RobotApi, Floats}
use polite_web_crawler.Common.Queue.{Link}
use polite_web_crawler.Worker.RateLimiter.{DomainRateLimiter, update_delay, await_acquiring}
use polite_web_crawler.Worker.Fetcher.Wire.{Http, Sent}
use polite_web_crawler.Worker.Fetcher.{get_domain_data, get_page}
use polite_web_crawler.Worker.Html.{Html, ParsedPage, convert_parsed_page_to_save_data}
use polite_web_crawler.Worker.Html as Html
use polite_web_crawler.Worker.Sitemaps.{XmlEvent}
use polite_web_crawler.Worker.Sitemaps as Sitemaps
use polite_web_crawler.Worker.Client.{save_domain_data, save_parsed_page}

-- The crates that a worker calls, and its constants.
pub record Tools (Url Robot F32 Doc : Type 0) : Type 0 where
  pub urls : UrlApi Url
  pub robots : RobotApi Robot F32
  pub floats : Floats F32
  pub unicode : Unicode
  pub http : Http
  pub html : Html Doc
  pub xml : String → List XmlEvent
  pub to_json : ParsedData F32 → Outcome String
  -- `format!("{}://{}", scheme, domain)`
  pub base : String → String → String
  pub keywords : List Text
  pub agent : String

-- What the calls for one URL answer: those of the storage, of Redis to the event, and of the network to
-- the attempts; and the instant.
pub record Replies (Url F32 : Type 0) : Type 0 where
  pub access : Outcome UrlAccess
  pub delay : Outcome F32
  pub publishing : Link
  pub robots_txt : ℕ → Url → Sent Url
  pub page : ℕ → Sent Url
  pub sitemap : Url → ℕ → Sent Url
  pub now : ℕ

-- What a worker changes: the counter of pages, the rate limiter and the stream of events. The code does
-- not count the requests for pages and sitemaps.
pub record Crawl : Type 0 where
  pub pages_crawled : ℕ
  pub limiter : DomainRateLimiter
  pub stream : List String
  pub requests : ℕ

module _ {Url Robot F32 Doc : Type 0} (t : Tools Url Robot F32 Doc) where
  open t use {urls, robots, floats, unicode, http, html, xml, to_json, base, keywords, agent}

  abbrev pub Result : Type 0
  Result = Outcome (List Url) × Crawl

  published : Outcome (Unit {0}) × List String → Crawl → Result
  published (ok _, stream) c = (ok [], record c { stream = stream })
  published (err e, stream) c = (err e, record c { stream = stream })
  published (panic, stream) c = (panic, record c { stream = stream })

  -- `drl.update_delay(…)` and `storage.save_domain_data(…)`
  with_delay : Link → DomainData F32 → Option DomainRateLimiter → Crawl → Result
  unfolding published
  with_delay link d none c = (panic, c)
  with_delay link d (some limiter) c =
      published (save_domain_data to_json link d c.stream) (record c { limiter = limiter })

  -- `Duration::from_secs_f32(delay)`
  with_duration : Replies Url F32 → DomainData F32 → Option ℕ → Crawl → Result
  unfolding with_delay
  with_duration r d none c = (panic, c)
  with_duration r d (some delay) c =
      with_delay r.publishing d (update_delay c.limiter d.domain_string delay r.now) c

  pub with_domain : Replies Url F32 → Outcome (DomainData F32) → Crawl → Result
  unfolding with_duration
  with_domain r (err e) c = (err e, c)
  with_domain r panic c = (panic, c)
  with_domain r (ok d) c = with_duration r d (floats.from_secs_f32 d.delay) c

  unfoldable pub handle_unknown_domain : Replies Url F32 → Url → Crawl → Result
  unfolding with_domain
  handle_unknown_domain r url c =
      with_domain r (get_domain_data unicode urls http robots floats base agent url r.robots_txt) c

  -- `save_results_to_db` of a page, and its outbound links.
  saved : List Url → Outcome (Unit {0}) × List String → Crawl → Result
  saved links (ok _, stream) c =
      (ok links, record c { stream = stream; pages_crawled = (c.pages_crawled + 1) % 2 ^ 64 })
  saved links (err e, stream) c = (err e, record c { stream = stream })
  saved links (panic, stream) c = (panic, record c { stream = stream })

  parsed_page : Replies Url F32 → Bool × ParsedPage Url → Crawl → Result
  unfolding saved
  parsed_page r (false, page) c = (ok page.outbound_links, c)
  parsed_page r (true, page) c =
      saved page.outbound_links
        (save_parsed_page to_json r.publishing (convert_parsed_page_to_save_data urls page)
          c.stream)
        c

  downloaded : Replies Url F32 → Outcome (NotParsedPageData Url) → Crawl → Result
  unfolding parsed_page
  downloaded r (err e) c = (err e, c)
  downloaded r panic c = (panic, c)
  downloaded r (ok raw_html_data) c =
      parsed_page r (Html.parse urls html unicode keywords raw_html_data) c

  unfoldable pub download_and_parse_link : Replies Url F32 → Url → Crawl → Result
  unfolding downloaded
  download_and_parse_link r url c =
      let (raw_html_data, sent) = get_page unicode urls http url r.page in
      downloaded r raw_html_data (record c { requests = c.requests + sent })

  -- Behind `storage.get_delay(host).await?`, whose answer the fetcher never reads.
  delayed : Replies Url F32 → Outcome F32 → Url → Crawl → Result
  unfolding download_and_parse_link
  delayed r (err e) url c = (err e, c)
  delayed r panic url c = (panic, c)
  delayed r (ok delay) url c = download_and_parse_link r url c

  handle_host : Replies Url F32 → Option String → Url → Crawl → Result
  unfolding delayed
  handle_host r none url c = (err url_doesnt_contain_domain, c)
  handle_host r (some host) url c = delayed r r.delay url c

  unfoldable pub handle_allowed_domain : Replies Url F32 → Url → Crawl → Result
  unfolding handle_host
  handle_allowed_domain r url c = handle_host r (urls.domain url) url c

  -- The sitemap's branch behind the wait and behind the call for the delay.
  sitemap_delayed : Replies Url F32 → Outcome F32 → Url → Crawl → Result
  sitemap_delayed r (err e) url c = (err e, c)
  sitemap_delayed r panic url c = (panic, c)
  sitemap_delayed r (ok delay) url c =
      let (found, sent) = Sitemaps.parse urls unicode http xml r.sitemap (urls.as_str url ∷ []) in
      (found, record c { requests = c.requests + sent })

  sitemap_waited : Replies Url F32 → Option (DomainRateLimiter × ℕ) → Url → Crawl → Result
  unfolding sitemap_delayed
  sitemap_waited r none url c = (panic, c)
  sitemap_waited r (some (limiter, woken)) url c =
      sitemap_delayed r r.delay url (record c { limiter = limiter })

  handle_sitemap : Replies Url F32 → Option String → Url → Crawl → Result
  unfolding sitemap_waited
  handle_sitemap r none url c = (err url_doesnt_contain_domain, c)
  handle_sitemap r (some domain) url c =
      sitemap_waited r (await_acquiring c.limiter domain r.now) url c

  is_sitemap : Url → Bool
  is_sitemap url =
      let path = unicode.to_lowercase (urls.path url) in
      ends_with path (codes ".xml") || ends_with path (codes ".xml.gz")

  unfoldable pub with_access : Replies Url F32 → Outcome UrlAccess → Url → Crawl → Result
  unfolding handle_unknown_domain handle_sitemap handle_allowed_domain is_sitemap
  with_access r (err e) url c = (err e, c)
  with_access r panic url c = (panic, c)
  with_access r (ok unknown_domain) url c = handle_unknown_domain r url c
  with_access r (ok disallowed) url c = (err not_allowed, c)
  with_access r (ok url_without_host) url c = (err url_doesnt_contain_domain, c)
  with_access r (ok allowed) url c =
      if is_sitemap url
      then handle_sitemap r (urls.domain url) url c
      else handle_allowed_domain r url c

  unfoldable pub process_single_url : Replies Url F32 → Url → Crawl → Result
  unfolding with_access
  process_single_url r url c = with_access r r.access url c

-- ===== src/Worker/Core/Single/PageTests.antt =====
-- A page that a worker counts and the consumer saves, and the theorem on it.
use polite_web_crawler.Prelude.{
  ℕ, ◌≡◌, refl, inl, inr, Bool-cases, str_eq, str_eq_iff, Option, none, some, String, [], ◌∷◌, ◌++◌,
  if◌then◌else◌, arith,
}
use polite_web_crawler.Common.Text.{Text, ends_with}
use polite_web_crawler.Common.Errors.{not_allowed}
use polite_web_crawler.Common.Outcome.{Outcome, ok, err}
use polite_web_crawler.Common.Data.{allowed, ParsedData, parsed_domain, parsed_page as page_event}
use polite_web_crawler.Common.Queue.{up, command}
use polite_web_crawler.Common.Url.Simple.{SimpleUrl}
use polite_web_crawler.Storage.Service.Simple.{env, keeping-IsCache, started-IsCoherent, page_open}
use polite_web_crawler.Storage.Consumer.{handle_entry}
use polite_web_crawler.Storage.Consumer.Simple.{
  connections, entry, fresh, read_page, some_acknowledged,
}
use polite_web_crawler.Worker.Simple.{simple_tools}
use polite_web_crawler.Worker.RateLimiter.{new}
use polite_web_crawler.Worker.Fetcher.Wire.{received, failed, bytes}
use polite_web_crawler.Worker.Fetcher as Fetcher
use polite_web_crawler.Worker.Fetcher.{
  get_page, is_blacklisted_extension, sent_outcome, is_page, body_text,
}
use polite_web_crawler.Worker.Fetcher.Retry.{with_retry}
use polite_web_crawler.Worker.Html as Html
use polite_web_crawler.Worker.Client as Client
use polite_web_crawler.Worker.Core.Single.Learned.{IsJson}
use polite_web_crawler.Worker.Core.Single.Counted.{Reached, counted_page_stored}
use polite_web_crawler.Worker.Core.Single.{
  Tools, Replies, Crawl, process_single_url, with_access, is_sitemap, handle_allowed_domain,
  handle_host, delayed, download_and_parse_link, downloaded, parsed_page, saved,
}

-- A JSON that has the one page.
write_parts : Option Text → Option Text → Option Text → String → Outcome String
write_parts none none (some []) url = if str_eq url "/open" then ok "event" else err not_allowed
write_parts title description text url = err not_allowed

write_page : ParsedData ℕ → Outcome String
unfolding write_parts
write_page (page_event p) = write_parts p.title p.description p.clean_text p.url
write_page (parsed_domain d) = err not_allowed

read_back :
    (title description text : Option Text) (url event : String)
    → write_parts title description text url ≡ ok event
    → read_page event
      ≡ ok (
          page_event
            (record { title = title; description = description; clean_text = text; url = url }))
unfolding write_parts
read_back none none (some []) url event h = elim (Bool-cases (str_eq url "/open")) [
  | inr other ↦ cc (rw other at h)
  | inl same ↦
      let is_event : event ≡ "event" = cc (rw same at h) in
      rw (is_event, (str_eq_iff url "/open").0 same)
]
read_back title description text url event h = cc h

page-IsJson : IsJson write_page read_page
unfolding write_page
page-IsJson = record { reads_back = back }
  where
    back : (e : ParsedData ℕ) (text : String) → write_page e ≡ ok text → read_page text ≡ ok e
    back (page_event p) text h = read_back p.title p.description p.clean_text p.url text h
    back (parsed_domain d) text h = cc h

abbrev tools : Tools SimpleUrl String ℕ String
tools = record simple_tools { to_json = write_page }

abbrev idle_crawl : Crawl
idle_crawl = record { pages_crawled = 0; limiter = new 1_000_000_000; stream = []; requests = 0 }

abbrev replies : Replies SimpleUrl ℕ
replies = record {
  access = ok allowed;
  delay = ok 2;
  publishing = up;
  robots_txt = λ i u. failed "timeout";
  page = λ i.
      received (record { status = 200; content_type = none; url = page_open; body = bytes "" });
  sitemap = λ u i. failed "timeout";
  now = 0;
}

counts_page :
    ((process_single_url tools replies page_open idle_crawl).1.pages_crawled ≡ 1)
    × ((process_single_url tools replies page_open idle_crawl).1.stream ≡ [] ++ "event" ∷ [])
unfolding process_single_url with_access is_sitemap ends_with handle_allowed_domain handle_host
    delayed download_and_parse_link downloaded parsed_page saved get_page is_blacklisted_extension
    with_retry sent_outcome Fetcher.read_page is_page body_text Html.parse Client.save_parsed_page
    Client.publish_event command write_page Html.convert_parsed_page_to_save_data
counts_page = (refl, refl)

counted_page_stored_example :
    Reached env keeping-IsCache fresh tools read_page page-IsJson replies page_open
      (handle_entry env read_page fresh entry connections).1
counted_page_stored_example =
    counted_page_stored env keeping-IsCache fresh tools read_page page-IsJson replies page_open
      idle_crawl "event" entry connections started-IsCoherent (λ e. omega (arith, e, counts_page.0))
      counts_page.1 refl some_acknowledged

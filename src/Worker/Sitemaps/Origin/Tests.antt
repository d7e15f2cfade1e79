-- ===== src/Worker/Sitemaps/Origin/Tests.antt =====
-- A run of the parser, and the theorem on the origin of its URLs at it.
use polite_web_crawler.Prelude.{
  ℕ, zero, suc, ◌≡◌, refl, none, String, List, [], ◌∷◌, All, if◌then◌else◌,
}
use polite_web_crawler.Common.Text.Ascii.{ascii}
use polite_web_crawler.Common.Text.{is_whitespace}
use polite_web_crawler.Common.Text.Trim.{
  string_is_empty, trim_string, trim_string_start, trim_string_end,
}
use polite_web_crawler.Common.Outcome.{ok}
use polite_web_crawler.Worker.Simple.{statuses}
use polite_web_crawler.Worker.Core.Links.Simple.{texts}
use polite_web_crawler.Worker.Fetcher.Wire.{Response, Sent, received, failed, bytes}
use polite_web_crawler.Worker.Fetcher.Retry.{with_retry, retry_from}
use polite_web_crawler.Worker.Fetcher.{sent_outcome, body_text, is_xml, read_xml, get_xml_content}
use polite_web_crawler.Worker.Sitemaps.{
  XmlEvent, start_loc, eof, broken, text, valid_url, loc_url, parse_sitemap, valid_sitemap_urls,
  after_xml, fetch_all, parse,
}
use polite_web_crawler.Worker.Sitemaps.Origin.{From, parse_sitemaps-From}

abbrev document : Response String
document = record { status = 200; content_type = none; url = "maps"; body = bytes "<loc>" }

-- The first request fails, and the second is answered.
abbrev answers : String → ℕ → Sent String
answers u zero = failed "never"
answers u (suc zero) = failed "timeout"
answers u (suc (suc n)) = received document

abbrev events : String → List XmlEvent
events xml = if string_is_empty xml then eof ∷ [] else start_loc (text " page ") ∷ broken ∷ []

read_once : (parse texts ascii statuses events answers ("maps" ∷ [])).0 ≡ ok ("page" ∷ [])
unfolding parse fetch_all after_xml valid_sitemap_urls valid_url parse_sitemap loc_url
    get_xml_content with_retry retry_from sent_outcome read_xml body_text is_xml string_is_empty
    trim_string trim_string_start trim_string_end is_whitespace
read_once = refl

empty_document : events "" ≡ eof ∷ []
unfolding string_is_empty
empty_document = refl

parse_sitemaps-From_example :
    All (From texts ascii statuses events answers ("maps" ∷ [])) ("page" ∷ [])
parse_sitemaps-From_example =
    parse_sitemaps-From texts ascii statuses events answers ("maps" ∷ []) ("page" ∷ [])
      empty_document read_once

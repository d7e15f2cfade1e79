-- ===== src/Worker/Sitemaps.antt =====
-- crates/worker_service/src/parsers/sitemaps_parser.rs. The crate `quick_xml` is a parameter: the events that its
-- reader yields for a text. The delay of the parser is passed on to fetchers, which never read it.
pub mod Origin
use polite_web_crawler.Prelude.{ℕ, ◌+◌, String, List, [], ◌∷◌, ◌++◌, if◌then◌else◌}
use polite_web_crawler.Common.Text.{Unicode}
use polite_web_crawler.Common.Text.Trim.{string_is_empty, trim_string}
use polite_web_crawler.Common.Outcome.{Outcome, ok, err, panic, ◌>>=◌}
use polite_web_crawler.Common.Url.{Parsed, parsed, refused, UrlApi}
use polite_web_crawler.Worker.Fetcher.Wire.{Http, Sent}
use polite_web_crawler.Worker.Fetcher.{get_xml_content}

-- What `read_text` answers behind a start tag `loc`: an error, bytes that do not decode or hold an
-- entity that cannot be unescaped, or the text.
pub data LocText : Type 0 where
  no_text undecodable not_unescaped : LocText
  text : String → LocText

-- `other` is every event that the loop passes over.
pub data XmlEvent : Type 0 where
  start_loc : LocText → XmlEvent
  other eof broken : XmlEvent

module _ {Url : Type 0} (api : UrlApi Url) where
  unfoldable pub valid_url : Parsed Url → List Url
  valid_url (parsed u) = u ∷ []
  valid_url (refused e) = []

  unfoldable pub loc_url : LocText → List Url
  unfolding valid_url trim_string string_is_empty
  loc_url (text s) =
      let url_str = trim_string s in
      if string_is_empty url_str then [] else valid_url (api.parse url_str)
  loc_url t = []

  -- The loop ends at the end of the text, and at the first error of the reader.
  unfoldable pub parse_sitemap : List XmlEvent → List Url
  unfolding loc_url
  parse_sitemap [] = []
  parse_sitemap (eof ∷ es) = []
  parse_sitemap (broken ∷ es) = []
  parse_sitemap (other ∷ es) = parse_sitemap es
  parse_sitemap (start_loc t ∷ es) = loc_url t ++ parse_sitemap es

  -- `filter_map(|s| Url::parse(s).ok())`
  unfoldable pub valid_sitemap_urls : List String → List Url
  unfolding valid_url
  valid_sitemap_urls [] = []
  valid_sitemap_urls (s ∷ ss) = valid_url (api.parse s) ++ valid_sitemap_urls ss

  module _ (uni : Unicode) (h : Http) (events : String → List XmlEvent)
      (answers : Url → ℕ → Sent Url) where
    -- What a sitemap adds, from the answers to its requests.
    unfoldable pub after_xml : Outcome String → Outcome (List Url)
    unfolding parse_sitemap
    after_xml (ok xml) = ok (parse_sitemap (events xml))
    after_xml (err e) = ok []
    after_xml panic = panic

    -- The loop over the sitemaps, with the number of requests that were sent. It is called where a panic
    -- has not ended it.
    unfoldable pub fetch_all : List Url → Outcome (List Url) × ℕ
    unfolding after_xml
    fetch_all [] = (ok [], 0)
    fetch_all (sitemap ∷ rest) =
        let (xml, sent) = get_xml_content uni api h (answers sitemap) in
        let (more, later) = fetch_all rest in
        elim (after_xml xml) [
          | ok us ↦ (more >>= λ vs. ok (us ++ vs), sent + later)
          | err e ↦ (err e, sent)
          | panic ↦ (panic, sent)
        ]

    unfoldable pub parse : List String → Outcome (List Url) × ℕ
    unfolding fetch_all valid_sitemap_urls
    parse sitemaps = fetch_all (valid_sitemap_urls sitemaps)

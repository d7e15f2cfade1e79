-- ===== src/Worker/Core/Single/Counted.antt =====
-- crawler_core.rs, `process_single_url`, with the consumer of events: a page that a worker counts is saved as it
-- was downloaded.
use polite_web_crawler.Prelude.{
  ℕ, ◌≡◌, ◌≢◌, refl, sym, ◌∙◌, ap, ◌⊎◌, inl, inr, Bool, true, false, Option, none, some, String,
  List, [], ◌∷◌, ◌++◌, Bool-cases,
}
use polite_web_crawler.Common.Outcome.{Outcome, ok, err, panic}
use polite_web_crawler.Common.Data.{
  NotParsedPageData, ParsedPageSaveData, allowed, ParsedData, parsed_page as page_event,
}
use polite_web_crawler.Storage.Cache.{IsCache}
use polite_web_crawler.Storage.Db.Pages.{StoredPage}
use polite_web_crawler.Storage.Service.{Env}
use polite_web_crawler.Storage.Service.Coherence.{IsCoherent}
use polite_web_crawler.Storage.Service.Stored.{IsDuplicate}
use polite_web_crawler.Storage.Consumer.{StreamEntry, Connections, Consumer, handle_entry}
use polite_web_crawler.Storage.Consumer.Acknowledged.{acknowledged_stored}
use polite_web_crawler.Worker.RateLimiter.{DomainRateLimiter}
use polite_web_crawler.Worker.Fetcher.{get_page}
use polite_web_crawler.Worker.Html.{ParsedPage, convert_parsed_page_to_save_data}
use polite_web_crawler.Worker.Html as Html
use polite_web_crawler.Worker.Client.{save_parsed_page}
use polite_web_crawler.Worker.Core.Single.Allowed.{with_access-Nothing}
use polite_web_crawler.Worker.Core.Single.Published.{Event, publish_event-Event}
use polite_web_crawler.Worker.Core.Single.Learned.{IsJson, last_text}
use polite_web_crawler.Worker.Core.Single.{
  Tools, Replies, Crawl, Result, saved, parsed_page, downloaded, download_and_parse_link, delayed,
  handle_host, handle_allowed_domain, sitemap_delayed, sitemap_waited, handle_sitemap, is_sitemap,
  with_access, process_single_url,
}

module _ {Url Robot F32 Doc : Type 0} (t : Tools Url Robot F32 Doc) where
  -- What is saved of a page that was downloaded.
  abbrev pub saved_data : NotParsedPageData Url → ParsedPageSaveData
  saved_data raw =
      convert_parsed_page_to_save_data t.urls (Html.parse t.urls t.html t.unicode t.keywords raw).1

  -- The page's event was published.
  pub record Kept (raw : Outcome (NotParsedPageData Url)) (c : Crawl) (x : Result t) : Type 0 where
    pub page : NotParsedPageData Url
    pub got : raw ≡ ok page
    pub event : Event t (page_event (saved_data page)) c.stream x.1.stream

  -- No page was counted, or the one that was is kept.
  abbrev pub Counts : Outcome (NotParsedPageData Url) → Crawl → Result t → Type 0
  Counts raw c x = (x.1.pages_crawled ≡ c.pages_crawled) ⊎ Kept raw c x

  -- The page that `get_page` downloads.
  abbrev pub fetched_page : Replies Url F32 → Url → Outcome (NotParsedPageData Url)
  fetched_page r url = (get_page t.unicode t.urls t.http url r.page).0

  saved-Counts :
      (links : List Url) (page : NotParsedPageData Url) (x : Outcome (Unit {0}) × List String)
      (c : Crawl)
      → (x.0 ≡ ok tt → Event t (page_event (saved_data page)) c.stream x.1)
      → Counts (ok page) c (saved t links x c)
  unfolding saved
  saved-Counts links page (err e, stream) c h = inl refl
  saved-Counts links page (panic, stream) c h = inl refl
  saved-Counts links page (ok tt, stream) c h =
      inr (record { page = page; got = refl; event = h refl })

  parsed-Counts :
      (r : Replies Url F32) (page : NotParsedPageData Url) (x : Bool × ParsedPage Url) (c : Crawl)
      → x ≡ Html.parse t.urls t.html t.unicode t.keywords page
      → Counts (ok page) c (parsed_page t r x c)
  unfolding parsed_page save_parsed_page
  parsed-Counts r page (false, p) c e = inl refl
  parsed-Counts r page (true, p) c e =
      saved-Counts p.outbound_links page
        (save_parsed_page t.to_json r.publishing (convert p) c.stream) c
        (λ sent.
          rw (← same) (publish_event-Event t r.publishing (page_event (convert p)) c.stream sent))
    where
      convert : ParsedPage Url → ParsedPageSaveData
      convert p = convert_parsed_page_to_save_data t.urls p

      same : convert p ≡ saved_data page
      same = ap (λ (y : Bool × ParsedPage Url). convert_parsed_page_to_save_data t.urls y.1) e

  downloaded-Counts :
      (r : Replies Url F32) (raw : Outcome (NotParsedPageData Url)) (c : Crawl)
      → Counts raw c (downloaded t r raw c)
  unfolding downloaded
  downloaded-Counts r (err e) c = inl refl
  downloaded-Counts r panic c = inl refl
  downloaded-Counts r (ok page) c = parsed-Counts r page _ c refl

  page-Counts :
      (r : Replies Url F32) (url : Url) (c : Crawl)
      → Counts (fetched_page r url) c (download_and_parse_link t r url c)
  unfolding download_and_parse_link
  page-Counts r url c = elim (downloaded-Counts r (fetched_page r url) _) [
    | inl same ↦ inl same
    | inr kept ↦ inr (record { page = kept.page; got = kept.got; event = kept.event })
  ]

  delayed-Counts :
      (r : Replies Url F32) (d : Outcome F32) (url : Url) (c : Crawl)
      → Counts (fetched_page r url) c (delayed t r d url c)
  unfolding delayed
  delayed-Counts r (err e) url c = inl refl
  delayed-Counts r panic url c = inl refl
  delayed-Counts r (ok d) url c = page-Counts r url c

  host-Counts :
      (r : Replies Url F32) (host : Option String) (url : Url) (c : Crawl)
      → Counts (fetched_page r url) c (handle_host t r host url c)
  unfolding handle_host
  host-Counts r none url c = inl refl
  host-Counts r (some host) url c = delayed-Counts r r.delay url c

  sitemap_delayed_pages :
      (r : Replies Url F32) (d : Outcome F32) (url : Url) (c : Crawl)
      → (sitemap_delayed t r d url c).1.pages_crawled ≡ c.pages_crawled
  unfolding sitemap_delayed
  sitemap_delayed_pages r (err e) url c = refl
  sitemap_delayed_pages r panic url c = refl
  sitemap_delayed_pages r (ok d) url c = refl

  sitemap_waited_pages :
      (r : Replies Url F32) (o : Option (DomainRateLimiter × ℕ)) (url : Url) (c : Crawl)
      → (sitemap_waited t r o url c).1.pages_crawled ≡ c.pages_crawled
  unfolding sitemap_waited
  sitemap_waited_pages r none url c = refl
  sitemap_waited_pages r (some (limiter, woken)) url c =
      sitemap_delayed_pages r r.delay url (record c { limiter = limiter })

  handle_sitemap_pages :
      (r : Replies Url F32) (host : Option String) (url : Url) (c : Crawl)
      → (handle_sitemap t r host url c).1.pages_crawled ≡ c.pages_crawled
  unfolding handle_sitemap
  handle_sitemap_pages r none url c = refl
  handle_sitemap_pages r (some host) url c = sitemap_waited_pages r _ url c

  allowed-Counts :
      (r : Replies Url F32) (url : Url) (c : Crawl)
      → Counts (fetched_page r url) c (with_access t r (ok allowed) url c)
  unfolding with_access handle_allowed_domain
  allowed-Counts r url c = elim (Bool-cases (is_sitemap t url)) [
    | inl map ↦ rw map (inl (handle_sitemap_pages r (t.urls.domain url) url c))
    | inr page ↦ rw page (host-Counts r (t.urls.domain url) url c)
  ]

  pub process_single_url-Counts :
      (r : Replies Url F32) (url : Url) (c : Crawl)
      → Counts (fetched_page r url) c (process_single_url t r url c)
  unfolding process_single_url
  process_single_url-Counts r url c = elim (with_access-Nothing t r r.access url c) [
    | inr nothing ↦ inl nothing.no_page
    | inl may ↦ rw may (allowed-Counts r url c)
  ]

module _ {Url Robot F32 Filter Store Doc : Type 0} (env : Env Url Robot F32 Filter Store)
    (law : IsCache env.cache) (x : Consumer env) (t : Tools Url Robot F32 Doc)
    (from_json : String → Outcome (ParsedData F32)) (json : IsJson t.to_json from_json) where
  -- What the storage has of the page that a worker downloaded.
  pub record Reached (r : Replies Url F32) (url : Url) (x' : Consumer env) : Type 0 where
    pub page : NotParsedPageData Url
    pub downloaded_page : fetched_page t r url ≡ ok page
    pub stored :
        StoredPage x'.storage.tables (saved_data t page)
        ⊎ IsDuplicate env x.storage.dedup (saved_data t page)

  -- A page that a worker counts reaches the database as it was downloaded. If `process_single_url` raises
  -- the counter of pages, and the consumer of events, from a coherent storage, acknowledges the one text
  -- that this has added to the stream, then a page was downloaded, and the table has a row under its URL
  -- with its title, description and text, or its text was a duplicate of a known one. Stated for
  -- JSON that reads back what it writes; what all connections do is arbitrary.
  pub counted_page_stored :
      (r : Replies Url F32) (url : Url) (c : Crawl) (payload : String) (entry : StreamEntry)
      (conns : Connections)
      → IsCoherent env law x.storage
      → (process_single_url t r url c).1.pages_crawled ≢ c.pages_crawled
      → (process_single_url t r url c).1.stream ≡ c.stream ++ payload ∷ []
      → entry.payload ≡ some payload
      → (handle_entry env from_json x entry conns).1.acknowledged ≢ x.acknowledged
      → Reached r url (handle_entry env from_json x entry conns).1
  counted_page_stored r url c payload entry conns coh counted added has acked =
      elim (process_single_url-Counts t r url c) [
        | inl same ↦ absurd (counted same)
        | inr kept ↦
            let text_of =
              last_text c.stream kept.event.payload payload (sym kept.event.added ∙ added) in
            record {
              page = kept.page;
              downloaded_page = kept.got;
              stored =
                  acknowledged_stored env law from_json x entry conns (saved_data t kept.page)
                    payload coh has
                    (json.reads_back (page_event (saved_data t kept.page)) payload
                      (kept.event.written ∙ ap ok text_of))
                    acked;
            }
      ]

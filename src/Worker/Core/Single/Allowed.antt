-- ===== src/Worker/Core/Single/Allowed.antt =====
-- crawler_core.rs, `process_single_url`: a page or a sitemap is asked for only where robots.txt allows it.
use polite_web_crawler.Prelude.{
  ℕ, ◌≡◌, ◌≢◌, refl, sym, ◌∙◌, ◌⊎◌, inl, inr, Option, none, some, String, List, [],
}
use polite_web_crawler.Common.Errors.{CrawlerError}
use polite_web_crawler.Common.Outcome.{Outcome, ok, err, panic}
use polite_web_crawler.Common.Data.{
  DomainData, UrlAccess, allowed, disallowed, unknown_domain, url_without_host,
}
use polite_web_crawler.Common.Url.{parsed}
use polite_web_crawler.Common.Queue.{Link}
use polite_web_crawler.Common.Rpc.{Transport, WireEnum, IsWireEnum}
use polite_web_crawler.Storage.Cache.{IsCache}
use polite_web_crawler.Storage.Db.{Fault}
use polite_web_crawler.Storage.Service.{Env, CrawlerStorage}
use polite_web_crawler.Storage.Service.Coherence.{IsCoherent}
use polite_web_crawler.Storage.Service.Obeyed.{Obeys, access_spec-Obeys}
use polite_web_crawler.Worker.RateLimiter.{DomainRateLimiter}
use polite_web_crawler.Worker.Client.EndToEnd.{told, told_as_stored}
use polite_web_crawler.Worker.Core.Single.{
  Tools, Replies, Crawl, Result, published, with_delay, with_duration, with_domain,
  handle_unknown_domain, with_access, process_single_url,
}

module _ {Url Robot F32 Doc : Type 0} (t : Tools Url Robot F32 Doc) where
  -- No request for a page or a sitemap was sent, no page was counted, and no links were found.
  pub record Nothing (c : Crawl) (x : Result t) : Type 0 where
    pub no_request : x.1.requests ≡ c.requests
    pub no_page : x.1.pages_crawled ≡ c.pages_crawled
    pub no_links : (us : List Url) → x.0 ≡ ok us → us ≡ []

  failed : (e : CrawlerError) (c : Crawl) → Nothing c (err e, c)
  failed e c = record { no_request = refl; no_page = refl; no_links = λ us h. cc h }

  panicked : (c : Crawl) → Nothing c (panic, c)
  panicked c = record { no_request = refl; no_page = refl; no_links = λ us h. cc h }

  published-Nothing :
      (x : Outcome (Unit {0}) × List String) (c : Crawl) → Nothing c (published t x c)
  unfolding published
  published-Nothing (ok _, stream) c = record {
    no_request = refl;
    no_page = refl;
    no_links = λ us h. cc h;
  }
  published-Nothing (err e, stream) c = record {
    no_request = refl;
    no_page = refl;
    no_links = λ us h. cc h;
  }
  published-Nothing (panic, stream) c = record {
    no_request = refl;
    no_page = refl;
    no_links = λ us h. cc h;
  }

  with_delay-Nothing :
      (link : Link) (d : DomainData F32) (l : Option DomainRateLimiter) (c : Crawl)
      → Nothing c (with_delay t link d l c)
  unfolding with_delay
  with_delay-Nothing link d none c = panicked c
  with_delay-Nothing link d (some limiter) c =
      let n = published-Nothing (_) (record c { limiter = limiter }) in
      record { no_request = n.no_request; no_page = n.no_page; no_links = n.no_links }

  with_duration-Nothing :
      (r : Replies Url F32) (d : DomainData F32) (o : Option ℕ) (c : Crawl)
      → Nothing c (with_duration t r d o c)
  unfolding with_duration
  with_duration-Nothing r d none c = panicked c
  with_duration-Nothing r d (some delay) c = with_delay-Nothing r.publishing d _ c

  with_domain-Nothing :
      (r : Replies Url F32) (o : Outcome (DomainData F32)) (c : Crawl)
      → Nothing c (with_domain t r o c)
  unfolding with_domain
  with_domain-Nothing r (err e) c = failed e c
  with_domain-Nothing r panic c = panicked c
  with_domain-Nothing r (ok d) c = with_duration-Nothing r d _ c

  pub with_access-Nothing :
      (r : Replies Url F32) (a : Outcome UrlAccess) (url : Url) (c : Crawl)
      → (a ≡ ok allowed) ⊎ Nothing c (with_access t r a url c)
  unfolding with_access handle_unknown_domain
  with_access-Nothing r (err e) url c = inr (failed e c)
  with_access-Nothing r panic url c = inr (panicked c)
  with_access-Nothing r (ok unknown_domain) url c = inr (with_domain-Nothing r _ c)
  with_access-Nothing r (ok disallowed) url c = inr (failed _ c)
  with_access-Nothing r (ok url_without_host) url c = inr (failed _ c)
  with_access-Nothing r (ok allowed) url c = inl refl

module _ {Url Robot F32 Filter Store Doc : Type 0} (w : WireEnum) (enum : IsWireEnum w)
    (debug : CrawlerError → String) (env : Env Url Robot F32 Filter Store) (law : IsCache env.cache)
    (s : CrawlerStorage F32 Filter Store) (t : Tools Url Robot F32 Doc) (url : Url)
    (faults : ℕ → Fault) (parses : env.urls.parse (t.urls.as_str url) ≡ parsed url) where
  -- Robots.txt is obeyed from end to end. A worker that asks the storage service about a URL over any
  -- transport, from a coherent storage and whatever the database and the cache do, and then processes
  -- the URL: if a request for a page or for a sitemap was sent, then the database knows the URL's domain,
  -- and its robots.txt, if it has one, allows the path. Stated for a URL whose text parses back to it.
  pub robots_obeyed :
      (tr : Transport) (r : Replies Url F32) (c : Crawl)
      → IsCoherent env law s
      → r.access ≡ told w enum debug env law s (t.urls.as_str url) url faults parses tr
      → (process_single_url t r url c).1.requests ≢ c.requests
      → Obeys env law s url
  unfolding process_single_url
  robots_obeyed tr r c coh asked sent = elim (with_access-Nothing t r r.access url c) [
    | inr nothing ↦ absurd (sent nothing.no_request)
    | inl may ↦
        elim (told_as_stored w enum debug env law s (t.urls.as_str url) url faults parses tr coh) [
          | inr (st, e) ↦ cc (sym may ∙ asked ∙ e)
          | inl (a, e, stored) ↦ access_spec-Obeys env law s url (stored ∙ sym e ∙ sym asked ∙ may)
        ]
  ]

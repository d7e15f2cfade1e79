-- ===== src/Worker/Core/Single/Published.antt =====
-- crawler_core.rs, `handle_unknown_domain` and the client's `publish_event`: what stands in the stream.
use polite_web_crawler.Prelude.{
  ℕ, ◌≡◌, refl, sym, subst, Option, none, some, String, List, [], ◌∷◌, ◌++◌,
}
use polite_web_crawler.Common.Outcome.{Outcome, ok, err, panic}
use polite_web_crawler.Common.Data.{DomainData, from_domain_data, ParsedData, parsed_domain}
use polite_web_crawler.Common.Queue.{Link, up, lost_request, lost_reply, command}
use polite_web_crawler.Worker.RateLimiter.{DomainRateLimiter}
use polite_web_crawler.Worker.Fetcher.{get_domain_data}
use polite_web_crawler.Worker.Client.{publish_event, save_domain_data}
use polite_web_crawler.Worker.Core.Single.{
  Tools, Replies, Crawl, published, with_delay, with_duration, with_domain,
}

module _ {Url Robot F32 Doc : Type 0} (t : Tools Url Robot F32 Doc) where
  published_ok :
      (x : Outcome (Unit {0}) × List String) (c : Crawl) (us : List Url)
      → (published t x c).0 ≡ ok us
      → (x.0 ≡ ok tt) × ((published t x c).1.stream ≡ x.1)
  unfolding published
  published_ok (ok tt, stream) c us h = (refl, refl)
  published_ok (err e, stream) c us h = cc h
  published_ok (panic, stream) c us h = cc h

  -- The event is the last text of the stream.
  pub record Event (e : ParsedData F32) (before after : List String) : Type 0 where
    pub payload : String
    pub written : t.to_json e ≡ ok payload
    pub added : after ≡ before ++ payload ∷ []

  abbrev after_json : List String → Link → Outcome String → Outcome (Unit {0}) × List String
  after_json stream link o = elim o [
    | err x ↦ (err x, stream)
    | panic ↦ (panic, stream)
    | ok payload ↦ command link (tt, stream ++ payload ∷ []) stream
  ]

  after_json-Event :
      (e : ParsedData F32) (stream : List String) (link : Link) (o : Outcome String)
      → t.to_json e ≡ o
      → (after_json stream link o).0 ≡ ok tt
      → Event e stream (after_json stream link o).1
  unfolding command
  after_json-Event e stream l (err x) h k = cc k
  after_json-Event e stream l panic h k = cc k
  after_json-Event e stream up (ok payload) h k = record {
    payload = payload;
    written = h;
    added = refl;
  }
  after_json-Event e stream (lost_request x) (ok payload) h k = cc k
  after_json-Event e stream (lost_reply x) (ok payload) h k = cc k

  pub publish_event-Event :
      (link : Link) (e : ParsedData F32) (stream : List String)
      → (publish_event t.to_json link e stream).0 ≡ ok tt
      → Event e stream (publish_event t.to_json link e stream).1
  unfolding publish_event
  publish_event-Event link e stream = after_json-Event e stream link _ refl

  -- The event of a domain.
  abbrev pub domain_event : DomainData F32 → ParsedData F32
  domain_event d = parsed_domain (from_domain_data d)

  save_domain_data-Event :
      (link : Link) (d : DomainData F32) (stream : List String)
      → (save_domain_data t.to_json link d stream).0 ≡ ok tt
      → Event (domain_event d) stream (save_domain_data t.to_json link d stream).1
  unfolding save_domain_data
  save_domain_data-Event link d stream = publish_event-Event link (domain_event d) stream

  with_delay-Event :
      (link : Link) (d : DomainData F32) (l : Option DomainRateLimiter) (c : Crawl) (us : List Url)
      → (with_delay t link d l c).0 ≡ ok us
      → Event (domain_event d) c.stream (with_delay t link d l c).1.stream
  unfolding with_delay
  with_delay-Event link d none c us h = cc h
  with_delay-Event link d (some limiter) c us h =
      let (sent, kept) =
        published_ok (save_domain_data t.to_json link d c.stream) (record c { limiter = limiter })
          us h in
      subst (Event (domain_event d) c.stream) (sym kept)
        (save_domain_data-Event link d c.stream sent)

  with_duration-Event :
      (r : Replies Url F32) (d : DomainData F32) (o : Option ℕ) (c : Crawl) (us : List Url)
      → (with_duration t r d o c).0 ≡ ok us
      → Event (domain_event d) c.stream (with_duration t r d o c).1.stream
  unfolding with_duration
  with_duration-Event r d none c us h = cc h
  with_duration-Event r d (some delay) c us h = with_delay-Event r.publishing d _ c us h

  -- A success has read the domain's robots.txt, and has published what it read.
  pub record Fetched (o : Outcome (DomainData F32)) (before after : List String) : Type 0 where
    pub data_read : DomainData F32
    pub fetched : o ≡ ok data_read
    pub event : Event (domain_event data_read) before after

  pub with_domain-Fetched :
      (r : Replies Url F32) (o : Outcome (DomainData F32)) (c : Crawl) (us : List Url)
      → (with_domain t r o c).0 ≡ ok us
      → Fetched o c.stream (with_domain t r o c).1.stream
  unfolding with_domain
  with_domain-Fetched r (err e) c us h = cc h
  with_domain-Fetched r panic c us h = cc h
  with_domain-Fetched r (ok d) c us h = record {
    data_read = d;
    fetched = refl;
    event = with_duration-Event r d _ c us h;
  }

  -- The fetcher's answer for a URL.
  abbrev pub fetched_domain : Replies Url F32 → Url → Outcome (DomainData F32)
  fetched_domain r url =
      get_domain_data t.unicode t.urls t.http t.robots t.floats t.base t.agent url r.robots_txt

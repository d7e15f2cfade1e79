-- ===== src/Worker/Core/Single/Learned.antt =====
-- crawler_core.rs, `handle_unknown_domain`, with the storage service: what a worker has read of a domain's
-- robots.txt is what the workers are told from then on.
use polite_web_crawler.Prelude.{
  ℕ, ◌≡◌, sym, ◌∙◌, ap, ◌⊎◌, inl, inr, some, String, List, [], ◌∷◌, ◌++◌,
}
use mathlib.Core.List.{append_cancel_left}
use polite_web_crawler.Common.Errors.{CrawlerError, Status, grpc_error}
use polite_web_crawler.Common.Outcome.{Outcome, ok, err, ◌>>=◌}
use polite_web_crawler.Common.Data.{DomainData, from_domain_data, ParsedData, parsed_domain}
use polite_web_crawler.Common.Url.{parsed}
use polite_web_crawler.Common.Rpc.{Transport, WireEnum, IsWireEnum}
use polite_web_crawler.Storage.Cache.{CachedData, IsCache, new_cached}
use polite_web_crawler.Storage.Db.{Fault}
use polite_web_crawler.Storage.Service.{
  Env, CrawlerStorage, access_of, save_domain, save_parsed_data,
}
use polite_web_crawler.Storage.Service.Coherence.{IsCoherent}
use polite_web_crawler.Storage.Service.Access.{access_spec, Saved, save_domain-Saved}
use polite_web_crawler.Storage.Consumer.{StreamEntry, Connections, process_stream_entry}
use polite_web_crawler.Storage.Consumer.Processed.{processed}
use polite_web_crawler.Worker.Fetcher.Domains.{get_domain_data-host}
use polite_web_crawler.Worker.Client.EndToEnd.{told, told_as_stored}
use polite_web_crawler.Worker.Core.Single.{Tools, Replies, Crawl, handle_unknown_domain}
use polite_web_crawler.Worker.Core.Single.Published.{with_domain-Fetched, fetched_domain}

-- JSON reads back what it has written.
pub record IsJson {F32 : Type 0} (to_json : ParsedData F32 → Outcome String)
    (from_json : String → Outcome (ParsedData F32)) : Type 0 where
  pub reads_back :
      (e : ParsedData F32) (text : String) → to_json e ≡ ok text → from_json text ≡ ok e

pub last_text : (before : List String) (x y : String) → before ++ x ∷ [] ≡ before ++ y ∷ [] → x ≡ y
last_text before x y h =
    let one : ◌≡◌ {A = List String} (x ∷ []) (y ∷ []) =
      append_cancel_left before (x ∷ []) (y ∷ []) h in
    cc one

module _ {Url Robot F32 Filter Store Doc : Type 0} (w : WireEnum) (enum : IsWireEnum w)
    (debug : CrawlerError → String) (env : Env Url Robot F32 Filter Store) (law : IsCache env.cache)
    (s s' : CrawlerStorage F32 Filter Store) (t : Tools Url Robot F32 Doc)
    (from_json : String → Outcome (ParsedData F32)) (json : IsJson t.to_json from_json) where
  saves_event :
      (entry : StreamEntry) (conns : Connections) (maps : List String) (d : DomainData F32)
      (payload : String)
      → entry.payload ≡ some payload
      → t.to_json (parsed_domain (from_domain_data d)) ≡ ok payload
      → process_stream_entry env from_json s entry conns ≡ (ok maps, s')
      → save_domain env s (from_domain_data d) conns.writing ≡ (ok maps, s')
  unfolding save_parsed_data
  saves_event entry conns maps d payload has wrote run =
      sym (
        processed env from_json s entry conns (parsed_domain (from_domain_data d)) payload has
          (json.reads_back (parsed_domain (from_domain_data d)) payload wrote))
      ∙ run

  module _ (page : Url) (text : String) (faults : ℕ → Fault)
      (parses : env.urls.parse text ≡ parsed page) (tr : Transport) where
    -- What a worker is told of a page from then on: what the domain's fetched robots.txt says of it.
    pub record Learned (r : Replies Url F32) (url : Url) : Type 0 where
      pub data_read : DomainData F32
      pub fetched : fetched_domain t r url ≡ ok data_read
      pub id : ℕ
      pub cd : CachedData Robot
      pub read_from :
          new_cached env.robots env.floats id data_read.robots data_read.delay s.agent_name ≡ ok cd
      pub answer :
          (told w enum debug env law s' text page faults parses tr
            ≡ ok (access_of env page (some cd)))
          ⊎ ((st : Status) × (told w enum debug env law s' text page faults parses tr
                ≡ err (grpc_error st)))

    told-Learned :
        (r : Replies Url F32) (url : Url) (d : DomainData F32) (maps : List String)
        → fetched_domain t r url ≡ ok d
        → env.urls.domain page ≡ t.urls.domain url
        → Saved env law s s' (from_domain_data d) maps
        → Learned r url
    unfolding access_spec from_domain_data
    told-Learned r url d maps fetched same saved = record {
      data_read = d;
      fetched = fetched;
      id = saved.id;
      cd = saved.cd;
      read_from = saved.read_from;
      answer =
          elim (told_as_stored w enum debug env law s' text page faults parses tr saved.coherent) [
            | inr e ↦ inr e
            | inl (a, e, stored) ↦ inl (e ∙ sym stored ∙ spec)
          ];
    }
      where
        host : env.urls.domain page ≡ some d.domain_string
        host =
            same
            ∙ get_domain_data-host t.unicode t.urls t.http t.robots t.floats t.base t.agent url
                r.robots_txt d fetched

        spec : access_spec env law s' page ≡ ok (access_of env page (some saved.cd))
        spec =
            rw (host, access_spec) (ap (λ o. o >>= λ cd. ok (access_of env page cd)) saved.stored)

    -- What a worker has read of a domain's robots.txt is what the workers are told from then on. If a worker
    -- handles a URL of an unknown domain with success, and the storage service, from a coherent storage,
    -- processes the one text that this has added to the stream with success, then the fetcher has read the
    -- domain's data, and a worker that asks over any transport for a page of the same domain, whatever the
    -- database and the cache do, is told what the robots.txt in these data says of the page to the
    -- storage's agent, or an error of the call. Stated for JSON that reads back what it writes, and for
    -- a page whose text parses to it.
    pub handle_unknown_domain-Learned :
        (r : Replies Url F32) (url : Url) (c : Crawl) (us : List Url) (payload : String)
        (entry : StreamEntry) (conns : Connections) (maps : List String)
        → IsCoherent env law s
        → (handle_unknown_domain t r url c).0 ≡ ok us
        → (handle_unknown_domain t r url c).1.stream ≡ c.stream ++ payload ∷ []
        → entry.payload ≡ some payload
        → process_stream_entry env from_json s entry conns ≡ (ok maps, s')
        → env.urls.domain page ≡ t.urls.domain url
        → Learned r url
    unfolding handle_unknown_domain
    handle_unknown_domain-Learned r url c us payload entry conns maps coh handled added has run
          same =
        let read = with_domain-Fetched t r (fetched_domain t r url) c us handled in
        let text_of =
          last_text c.stream read.event.payload payload (sym read.event.added ∙ added) in
        told-Learned r url read.data_read maps read.fetched same (
          save_domain-Saved env law s (from_domain_data read.data_read) conns.writing maps s' coh (
            saves_event entry conns maps read.data_read payload has
              (read.event.written ∙ ap ok text_of) run))

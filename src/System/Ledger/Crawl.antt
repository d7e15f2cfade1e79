-- ===== src/System/Ledger/Crawl.antt =====
-- The system with its record of URLs, as `run` of crawler_core.rs starts it at a URL.
use polite_web_crawler.Prelude.{
  ℕ, ◌+◌, ◌≤◌, ◌≡◌, refl, sym, ◌∙◌, ap, inl, inr, true, Bool, some, String, List, [], ◌∷◌, All,
  str_eq, str_eq_iff, arith, Bool-cases, if◌then◌else◌,
}
use polite_web_crawler.Common.Outcome.{ok}
use polite_web_crawler.Common.Url.{parsed}
use polite_web_crawler.Storage.Seen.{IsBloom, insert_url}
use polite_web_crawler.Storage.Service.{Env, CrawlerStorage, insert_url_in_seen_urls}
use polite_web_crawler.Storage.Grpc as Grpc
use polite_web_crawler.Worker.Core.Loop.{Shared}
use polite_web_crawler.Worker.Core.Links as Links
use polite_web_crawler.Worker.Core.Links.{Contact, reached, unreached}
use polite_web_crawler.Worker.Core.Run.{SeedCalls, seeded, seed}
use polite_web_crawler.Worker.Core.Run.Started.{seed-At}
use polite_web_crawler.System.{Step}
use polite_web_crawler.System.Ledger.{count, entries}
use polite_web_crawler.System.Ledger.Acts.{Normal}
use polite_web_crawler.System.Ledger.Conserved.{Working, opened}
use polite_web_crawler.System.Ledger.Once.{taken_once}

module _ {Url Robot F32 Filter Store : Type 0} (env : Env Url Robot F32 Filter Store)
    (law : IsBloom env.bloom)
    (reparses : (u : Url) → env.urls.parse (env.urls.as_str u) ≡ parsed u) where
  -- A URL about which the storage has answered is one that the filter has.
  answered_seen :
      (st : CrawlerStorage F32 Filter Store) (c : Contact) (u : Url) (b : Bool)
      → (Links.insert_url env st c (env.urls.as_str u)).0 ≡ ok b
      → law.contains (Links.insert_url env st c (env.urls.as_str u)).1.seen_urls u ≡ true
  unfolding Links.insert_url Grpc.insert_url insert_url_in_seen_urls insert_url
  answered_seen st (unreached r) u b h = cc h
  answered_seen st (reached t) u b h =
      rw (reparses u, Grpc.insert_url) (law.inserted st.seen_urls u)

  -- The storage behind the call of `insert_url` for the URL to start at.
  abbrev pub seeded_storage :
      CrawlerStorage F32 Filter Store → Contact → Url → CrawlerStorage F32 Filter Store
  seeded_storage before c first = (Links.insert_url env before c (env.urls.as_str first)).1

  -- What the seeding leaves: a queue in which a URL is only if the filter has it.
  seeded_at_most :
      (u first : Url) (st : CrawlerStorage F32 Filter Store)
      → law.contains st.seen_urls first ≡ true
      → count (env.urls.as_str u) (env.urls.as_str first ∷ [])
        ≤ (if law.contains st.seen_urls u then 1 else 0)
  seeded_at_most u first st h =
      elim (Bool-cases (str_eq (env.urls.as_str u) (env.urls.as_str first))) [
        | inr other ↦ rw other (omega arith)
        | inl e ↦ rw e (known e)
      ]
    where
      known :
          str_eq (env.urls.as_str u) (env.urls.as_str first) ≡ true
          → 1 + 0 ≤ (if law.contains st.seen_urls u then 1 else 0)
      known e =
          let texts = (str_eq_iff (env.urls.as_str u) (env.urls.as_str first)).0 e in
          let same : u ≡ first = cc (sym (reparses u) ∙ ap env.urls.parse texts ∙ reparses first) in
          let seen : law.contains st.seen_urls u ≡ true = rw same h in ground (arith, seen)

  -- A crawl from a URL takes up no URL twice. If `run` seeds the queue from a URL to start at, whatever an
  -- earlier crawl has left in it, and its call of `insert_url` is the storage's, then in every run of the
  -- workers, the handlers and the consumer that follows, in any order, while the connection to the queue
  -- works and no worker panics with a URL in its hands, every URL, the first one included, is
  -- taken up at most once, through however many pages and sitemaps it is found. Taken up are the URLs
  -- that the rate limiter grants, and those without a domain. Stated for a filter that never misses
  -- what was inserted, and for URLs whose texts parse back to them.
  pub crawled_once :
      (calls : SeedCalls) (start_url : String) (first : Url) (queue : List String) (c : Contact)
      (before : CrawlerStorage F32 Filter Store) (s : Shared) (tokio_workers : ℕ)
      (es : List (Step Url F32 Filter Store))
      → env.urls.parse start_url ≡ parsed first
      → calls.insert (env.urls.as_str first)
        ≡ (Links.insert_url env before c (env.urls.as_str first)).0
      → seed env.urls calls (some start_url) queue ≡ ok (some s)
      → All Working es
      → (u : Url)
      → count
          (env.urls.as_str u)
          (entries env es
            (opened env reparses (seeded_storage before c first) s tokio_workers)).taken
        ≤ 1
  unfolding seeded
  crawled_once calls start_url first queue c before s tokio_workers es parses asks starts working
        u =
      let (same, b, answer) = seed-At env.urls calls first start_url queue s parses starts in
      let seen = answered_seen before c first b (sym asks ∙ answer) in
      let alone : s.queue ≡ env.urls.as_str first ∷ [] = ap (λ (r : Shared). r.queue) same in
      let normal : All (Normal env reparses) s.queue = rw alone ((first, refl), tt) in
      omega (
        arith,
        ap (count (env.urls.as_str u)) alone,
        seeded_at_most u first (seeded_storage before c first) seen,
        taken_once env law reparses u (seeded_storage before c first) s tokio_workers es normal
            working,
      )

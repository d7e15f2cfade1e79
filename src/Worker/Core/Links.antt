-- ===== src/Worker/Core/Links.antt =====
-- crawler_core.rs, `worker_loop`: what becomes of the links of a page before they are pushed.
pub mod Tidy
pub mod Once
pub mod Simple
mod Tests
use polite_web_crawler.Prelude.{Bool, true, false, String, List, [], ◌∷◌, if◌then◌else◌}
use polite_web_crawler.Common.Errors.{CrawlerError, Status, grpc_error}
use polite_web_crawler.Common.Outcome.{Outcome, ok, err, panic, ◌>>=◌}
use polite_web_crawler.Common.Url.{UrlApi}
use polite_web_crawler.Common.Rpc.{Transport}
use polite_web_crawler.Storage.Service.{Env, CrawlerStorage}
use polite_web_crawler.Storage.Grpc as Grpc
use polite_web_crawler.Worker.Client as Client

-- `outbound_links.sort()`, a stable sort, and `outbound_links.dedup()`.
module _ {Url : Type 0} (api : UrlApi Url) where
  unfoldable pub insert_sorted : Url → List Url → List Url
  insert_sorted u [] = u ∷ []
  insert_sorted u (v ∷ vs) =
      let rest = insert_sorted u vs in if api.url_le u v then u ∷ v ∷ vs else v ∷ rest

  unfoldable pub sort : List Url → List Url
  unfolding insert_sorted
  sort [] = []
  sort (u ∷ us) = insert_sorted u (sort us)

  -- Behind a URL that was kept.
  unfoldable pub dedup_after : Url → List Url → List Url
  dedup_after u [] = []
  dedup_after u (v ∷ vs) =
      let same = dedup_after u vs in
      let next = v ∷ dedup_after v vs in if api.url_eq v u then same else next

  unfoldable pub dedup : List Url → List Url
  unfolding dedup_after
  dedup [] = []
  dedup (u ∷ us) = u ∷ dedup_after u us

-- A call reaches the storage and goes over a transport, or it fails before.
pub data Contact : Type 0 where
  reached : Transport → Contact
  unreached : Status → Contact

module _ {Url Robot F32 Filter Store : Type 0} (env : Env Url Robot F32 Filter Store) where
  -- `storage.insert_url(u.as_str())`
  unfoldable pub insert_url :
      CrawlerStorage F32 Filter Store
      → Contact
      → String
      → Outcome Bool × CrawlerStorage F32 Filter Store
  insert_url s (reached t) text =
      let (answer, s') = Grpc.insert_url env s text in (Client.insert_url t answer, s')
  insert_url s (unreached st) text = (err (grpc_error st), s)

  -- Whether a link is kept: only where the storage says that it is new.
  unfoldable pub keep_link : String → Outcome Bool → Outcome (List String) → Outcome (List String)
  keep_link u (ok true) more = more
  keep_link u (ok false) more = more >>= λ us. ok (u ∷ us)
  keep_link u (err e) more = more
  keep_link u panic more = panic

  -- The loop over the links, with the contact for each.
  unfoldable pub filtered_urls :
      List (Url × Contact)
      → CrawlerStorage F32 Filter Store
      → Outcome (List String) × CrawlerStorage F32 Filter Store
  unfolding insert_url keep_link
  filtered_urls [] s = (ok [], s)
  filtered_urls ((u, c) ∷ us) s =
      let (answer, s') = insert_url s c (env.urls.as_str u) in
      let (more, s'') = filtered_urls us s' in (keep_link (env.urls.as_str u) answer more, s'')

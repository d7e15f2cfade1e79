-- ===== src/Storage/Grpc.antt =====
-- crates/storage_service/src/grpc/crawler_storage_grpc_service.rs: the handlers of the calls. The text of
-- an error, `format!("{:?}", e)`, is a parameter.
use polite_web_crawler.Prelude.{ℕ, Bool, String}
use polite_web_crawler.Common.Errors.{CrawlerError, Status, invalid_argument, internal}
use polite_web_crawler.Common.Outcome.{Outcome, ok, err, panic}
use polite_web_crawler.Common.Url.{Parsed, parsed, refused}
use polite_web_crawler.Common.Data.{
  UrlAccess, allowed, disallowed, unknown_domain, url_without_host,
}
use polite_web_crawler.Common.Rpc.{
  Served, served, refused_with, crashed, ProtoUrlAccess, proto_allowed, proto_disallowed,
  proto_unknown_domain, proto_url_without_host, WireEnum,
}
use polite_web_crawler.Storage.Db.{Fault}
use polite_web_crawler.Storage.Service.{
  Env, CrawlerStorage, check_if_url_allowed, insert_url_in_seen_urls,
}
use polite_web_crawler.Storage.Service as Service

-- `From<ProtoUrlAccess> for UrlAccess`, and back.
unfoldable pub from_proto : ProtoUrlAccess → UrlAccess
from_proto proto_allowed = allowed
from_proto proto_disallowed = disallowed
from_proto proto_unknown_domain = unknown_domain
from_proto proto_url_without_host = url_without_host

unfoldable pub to_proto : UrlAccess → ProtoUrlAccess
to_proto allowed = proto_allowed
to_proto disallowed = proto_disallowed
to_proto unknown_domain = proto_unknown_domain
to_proto url_without_host = proto_url_without_host

invalid_url_status : Status
invalid_url_status = record { code = invalid_argument; message = "invalid url" }

-- `.await.map_err(|e| Status::internal(…))?` and the response.
unfoldable pub respond :
    {A B S : Type 0} → (CrawlerError → String) → (A → B) → Outcome A × S → Served B × S
respond debug f (ok a, s) = (served (f a), s)
respond debug f (err e, s) = (refused_with (record { code = internal; message = debug e }), s)
respond debug f (panic, s) = (crashed, s)

module _ {Url Robot F32 Filter Store : Type 0} (env : Env Url Robot F32 Filter Store)
    (debug : CrawlerError → String) (w : WireEnum) where
  abbrev Storage : Type 0
  Storage = CrawlerStorage F32 Filter Store

  unfoldable pub check_parsed : Storage → Parsed Url → (ℕ → Fault) → Served ℕ × Storage
  unfolding invalid_url_status respond
  check_parsed s (refused e) faults = (refused_with invalid_url_status, s)
  check_parsed s (parsed url) faults =
      respond debug (λ access. w.as_i32 (to_proto access)) (check_if_url_allowed env s url faults)

  unfoldable pub check_url_allowed : Storage → String → (ℕ → Fault) → Served ℕ × Storage
  unfolding check_parsed
  check_url_allowed s url faults = check_parsed s (env.urls.parse url) faults

  unfoldable pub get_delay : Storage → String → (ℕ → Fault) → Served F32 × Storage
  unfolding respond
  get_delay s domain faults =
      respond debug env.floats.as_secs_f32 (Service.get_delay env s domain faults)

module _ {Url Robot F32 Filter Store : Type 0} (env : Env Url Robot F32 Filter Store) where
  insert_parsed :
      CrawlerStorage F32 Filter Store → Parsed Url → Served Bool × CrawlerStorage F32 Filter Store
  unfolding invalid_url_status
  insert_parsed s (refused e) = (refused_with invalid_url_status, s)
  insert_parsed s (parsed url) =
      let (is_duplicate, s') = insert_url_in_seen_urls env s url in (served is_duplicate, s')

  unfoldable pub insert_url :
      CrawlerStorage F32 Filter Store → String → Served Bool × CrawlerStorage F32 Filter Store
  unfolding insert_parsed
  insert_url s url = insert_parsed s (env.urls.parse url)

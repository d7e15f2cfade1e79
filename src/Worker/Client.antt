-- ===== src/Worker/Client.antt =====
-- crates/worker_service/src/storage_client/grpc_client.rs and client.rs: the worker's calls of the storage.
-- What comes back over the wire is an argument; `StorageClient` passes the calls on. Events go to a stream
-- in Redis as JSON.
pub mod EndToEnd
use polite_web_crawler.Prelude.{ℕ, Bool, Option, none, some, String, List, [], ◌∷◌, ◌++◌}
use polite_web_crawler.Common.Text.{Text}
use polite_web_crawler.Common.Errors.{Status, internal, grpc_error}
use polite_web_crawler.Common.Outcome.{Outcome, ok, err, panic, ◌>>=◌}
use polite_web_crawler.Common.Data.{
  UrlAccess, allowed, disallowed, unknown_domain, url_without_host, DomainData, from_domain_data,
  ParsedPageSaveData, ParsedData, parsed_domain, parsed_page,
}
use polite_web_crawler.Common.Queue.{Link, command}
use polite_web_crawler.Common.Rpc.{
  Served, Transport, carry, ProtoUrlAccess, proto_allowed, proto_disallowed, proto_unknown_domain,
  proto_url_without_host, WireEnum,
}

-- `From<ProtoUrlAccess> for UrlAccess` of the client.
unfoldable pub client_access : ProtoUrlAccess → UrlAccess
client_access proto_allowed = allowed
client_access proto_disallowed = disallowed
client_access proto_unknown_domain = unknown_domain
client_access proto_url_without_host = url_without_host

unfoldable pub access_from : Option ProtoUrlAccess → Outcome UrlAccess
unfolding client_access
access_from none =
    err (grpc_error (record { code = internal; message = "unknown UrlAccess value from server" }))
access_from (some access) = ok (client_access access)

unfoldable pub check_if_url_allowed : WireEnum → Transport → Served ℕ → Outcome UrlAccess
unfolding access_from
check_if_url_allowed w t answer =
    carry t answer >>= λ access_i32. access_from (w.try_from access_i32)

unfoldable pub get_delay : {F32 : Type 0} → Transport → Served F32 → Outcome F32
get_delay t answer = carry t answer

unfoldable pub insert_url : Transport → Served Bool → Outcome Bool
insert_url t answer = carry t answer

-- `XADD` of the event as JSON, for the texts in the stream.
unfoldable pub publish_event :
    {F32 : Type 0}
    → (ParsedData F32 → Outcome String)
    → Link
    → ParsedData F32
    → List String
    → Outcome (Unit {0}) × List String
publish_event to_json link event stream = elim (to_json event) [
  | err e ↦ (err e, stream)
  | panic ↦ (panic, stream)
  | ok payload ↦ command link (tt, stream ++ payload ∷ []) stream
]

unfoldable pub save_domain_data :
    {F32 : Type 0}
    → (ParsedData F32 → Outcome String)
    → Link
    → DomainData F32
    → List String
    → Outcome (Unit {0}) × List String
save_domain_data to_json link dd stream =
    publish_event to_json link (parsed_domain (from_domain_data dd)) stream

unfoldable pub save_parsed_page :
    {F32 : Type 0}
    → (ParsedData F32 → Outcome String)
    → Link
    → ParsedPageSaveData
    → List String
    → Outcome (Unit {0}) × List String
save_parsed_page to_json link pp stream = publish_event to_json link (parsed_page pp) stream

-- ===== src/Common/Rpc.antt =====
-- The transport between the services: `tonic` with the code that is generated from proto/storage.proto.
use polite_web_crawler.Prelude.{ℕ, ◌≡◌, Option, some}
use polite_web_crawler.Common.Errors.{Status, grpc_error}
use polite_web_crawler.Common.Outcome.{Outcome, ok, err}

-- What a handler of the server ends in.
pub data Served (A : Type 0) : Type 0 where
  served : A → Served A
  refused_with : Status → Served A
  crashed : Served A

-- A call is carried to the server and back, where a handler that panics shows as the status, or it fails
-- with the status.
pub data Transport : Type 0 where
  delivers breaks : Status → Transport

-- `self.client.…(req).await?`
unfoldable pub carry : {A : Type 0} → Transport → Served A → Outcome A
carry (delivers st) (served a) = ok a
carry (delivers st) (refused_with r) = err (grpc_error r)
carry (delivers st) crashed = err (grpc_error st)
carry (breaks st) r = err (grpc_error st)

-- The enumeration `UrlAccess` of proto/storage.proto.
pub data ProtoUrlAccess : Type 0 where
  proto_allowed proto_disallowed proto_unknown_domain proto_url_without_host : ProtoUrlAccess

-- Its numbers on the wire, which the generated code gives.
pub record WireEnum : Type 0 where
  pub as_i32 : ProtoUrlAccess → ℕ
  pub try_from : ℕ → Option ProtoUrlAccess

pub record IsWireEnum (w : WireEnum) : Type 0 where
  pub read_back : (a : ProtoUrlAccess) → w.try_from (w.as_i32 a) ≡ some a

-- ===== src/Worker/Client/EndToEnd/Tests.antt =====
-- The calls of the worker at concrete inputs.
use polite_web_crawler.Prelude.{◌≡◌, refl, ◌⊎◌}
use polite_web_crawler.Common.Errors.{Status, internal, grpc_error}
use polite_web_crawler.Common.Outcome.{ok, err}
use polite_web_crawler.Common.Data.{UrlAccess}
use polite_web_crawler.Common.Rpc.{breaks}
use polite_web_crawler.Storage.Service.Access.{access_spec}
use polite_web_crawler.Storage.Service.Simple.{
  env, keeping-IsCache, started, secret, working, started-IsCoherent,
}
use polite_web_crawler.Worker.Simple.{numbers, numbers-IsWireEnum, debug}
use polite_web_crawler.Worker.Client.EndToEnd.{told, told_as_stored}

told_as_stored_example :
    ((a : UrlAccess) × (told numbers numbers-IsWireEnum debug env keeping-IsCache started
          "/private/x" secret working refl
          (breaks (record { code = internal; message = "timeout" }))
        ≡ ok a)
      × (access_spec env keeping-IsCache started secret ≡ ok a))
    ⊎ ((st : Status) × (told numbers numbers-IsWireEnum debug env keeping-IsCache started
            "/private/x" secret working refl
            (breaks (record { code = internal; message = "timeout" }))
          ≡ err (grpc_error st)))
told_as_stored_example =
    told_as_stored numbers numbers-IsWireEnum debug env keeping-IsCache started "/private/x" secret
      working refl (breaks (record { code = internal; message = "timeout" })) started-IsCoherent

-- ===== src/Worker/Client/EndToEnd.antt =====
-- The client in the worker with the handlers in the storage service: what the worker learns of a URL.
mod Tests
use polite_web_crawler.Prelude.{ℕ, ◌≡◌, refl, sym, ◌∙◌, ap, ◌⊎◌, inl, inr, Option, some, String}
use polite_web_crawler.Common.Errors.{CrawlerError, Status, grpc_error}
use polite_web_crawler.Common.Outcome.{Outcome, ok, err, panic, ◌>>=◌}
use polite_web_crawler.Common.Url.{Parsed, parsed}
use polite_web_crawler.Common.Data.{
  UrlAccess, allowed, disallowed, unknown_domain, url_without_host,
}
use polite_web_crawler.Common.Rpc.{
  Served, served, Transport, delivers, breaks, carry, WireEnum, IsWireEnum,
}
use polite_web_crawler.Storage.Cache.{IsCache}
use polite_web_crawler.Storage.Db.{Fault}
use polite_web_crawler.Storage.Service.Coherence.{IsCoherent, Answers}
use polite_web_crawler.Storage.Service.Access.{access_spec, check_if_url_allowed_refines}
use polite_web_crawler.Storage.Service as Service
use polite_web_crawler.Storage.Service.{Env, CrawlerStorage}
use polite_web_crawler.Storage.Grpc.{to_proto, respond, check_parsed, check_url_allowed}
use polite_web_crawler.Worker.Client.{client_access, access_from, check_if_url_allowed}

access_back : (a : UrlAccess) → client_access (to_proto a) ≡ a
unfolding client_access to_proto
access_back allowed = refl
access_back disallowed = refl
access_back unknown_domain = refl
access_back url_without_host = refl

module _ (w : WireEnum) (enum : IsWireEnum w) (debug : CrawlerError → String) where
  -- The wire between an answer of the storage and the one of the client.
  abbrev wired : {S : Type 0} → Transport → Outcome UrlAccess × S → Outcome UrlAccess
  wired t x = check_if_url_allowed w t (respond debug (λ access. w.as_i32 (to_proto access)) x).0

  abbrev Wired : Outcome UrlAccess → Outcome UrlAccess → Type 0
  Wired r answer =
      ((a : UrlAccess) × (r ≡ ok a) × (answer ≡ ok a)) ⊎ ((st : Status) × (r ≡ err (grpc_error st)))

  access_number : (a : UrlAccess) → access_from (w.try_from (w.as_i32 (to_proto a))) ≡ ok a
  unfolding access_from
  access_number a = ap access_from (enum.read_back (to_proto a)) ∙ ap ok (access_back a)

  wired-Wired : {S : Type 0} (t : Transport) (x : Outcome UrlAccess × S) → Wired (wired t x) x.0
  unfolding check_if_url_allowed carry respond
  wired-Wired (breaks st) x = inr (st, refl)
  wired-Wired (delivers st) (ok a, s) = inl (a, access_number a, refl)
  wired-Wired (delivers st) (err e, s) = inr (_, refl)
  wired-Wired (delivers st) (panic, s) = inr (st, refl)

  wired_ok :
      {S : Type 0} (st : Status) (x : Outcome UrlAccess × S) (a : UrlAccess)
      → x.0 ≡ ok a
      → wired (delivers st) x ≡ ok a
  unfolding check_if_url_allowed carry respond
  wired_ok st (ok b, s) a h = access_number b ∙ h
  wired_ok st (err e, s) a h = cc h
  wired_ok st (panic, s) a h = cc h

  module _ {Url Robot F32 Filter Store : Type 0} (env : Env Url Robot F32 Filter Store)
      (law : IsCache env.cache) (s : CrawlerStorage F32 Filter Store) (text : String) (url : Url)
      (faults : ℕ → Fault) (parses : env.urls.parse text ≡ parsed url) where
    -- What the worker is told of a URL.
    abbrev pub told : Transport → Outcome UrlAccess
    told t = check_if_url_allowed w t (check_url_allowed env debug w s text faults).0

    told-wired : (t : Transport) → told t ≡ wired t (Service.check_if_url_allowed env s url faults)
    unfolding check_url_allowed check_parsed
    told-wired t = ap (λ p. check_if_url_allowed w t (check_parsed env debug w s p faults).0) parses

    -- From a coherent storage, whatever the transport, the database and the cache do: if the client in
    -- the worker is told an access for a URL that parses, then it is the one that the database's
    -- robots.txt gives; else it is told an error of the call. Stated for a numbering of the accesses
    -- on the wire that reads back what it writes.
    pub told_as_stored :
        (t : Transport) → IsCoherent env law s → Wired (told t) (access_spec env law s url)
    told_as_stored t coh = elim (wired-Wired t (Service.check_if_url_allowed env s url faults)) [
      | inr (st, e) ↦ inr (st, told-wired t ∙ e)
      | inl (a, e, known) ↦ elim (check_if_url_allowed_refines env law s url faults coh).0 [
        | inl same ↦ inl (a, told-wired t ∙ e, sym same ∙ known)
        | inr (x, failure) ↦ cc (failure, known)
      ]
    ]

    -- Where the transport delivers, the access that the storage answers for a URL that parses reaches the
    -- client as it is, through such numbers on the wire.
    pub told_delivered :
        (st : Status) (a : UrlAccess)
        → (Service.check_if_url_allowed env s url faults).0 ≡ ok a
        → told (delivers st) ≡ ok a
    told_delivered st a h = told-wired (delivers st) ∙ wired_ok st _ a h

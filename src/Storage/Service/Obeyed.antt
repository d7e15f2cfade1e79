-- ===== src/Storage/Service/Obeyed.antt =====
-- crawler_storage.rs: what it means that the database's answer to a URL is that it is allowed.
use polite_web_crawler.Prelude.{
  ◌≡◌, refl, true, Option, none, some, String, if◌then◌else◌, Bool-cases, Option-cases, inl, inr,
  arith,
}
use polite_web_crawler.Common.Outcome.{Outcome, ok, err, panic, ◌>>=◌}
use polite_web_crawler.Common.Data.{allowed, disallowed}
use polite_web_crawler.Storage.Cache.{CachedData, IsCache}
use polite_web_crawler.Storage.Service.{Env, CrawlerStorage, access_of}
use polite_web_crawler.Storage.Service.Coherence.{info}
use polite_web_crawler.Storage.Service.Access.{access_spec}

module _ {Url Robot F32 Filter Store : Type 0} (env : Env Url Robot F32 Filter Store)
    (law : IsCache env.cache) (s : CrawlerStorage F32 Filter Store) (url : Url) where
  -- The database knows the domain of the URL, and its robots.txt, if it has one, allows the path.
  pub record Obeys : Type 0 where
    pub domain : String
    pub cd : CachedData Robot
    pub host : env.urls.domain url ≡ some domain
    pub known : info env law s domain ≡ ok (some cd)
    pub robot_allows :
        (robot : Robot)
        → cd.robot ≡ some robot
        → env.robots.allowed robot (env.urls.path url) ≡ true

  allowed_by :
      (o : Option Robot) (robot : Robot)
      → (elim o [
        | none ↦ allowed
        | some r ↦ if env.robots.allowed r (env.urls.path url) then allowed else disallowed
      ])
        ≡ allowed
      → o ≡ some robot
      → env.robots.allowed robot (env.urls.path url) ≡ true
  allowed_by none robot h e = cc e
  allowed_by (some r) robot h e = elim (Bool-cases (env.robots.allowed robot (env.urls.path url))) [
    | inl holds ↦ holds
    | inr fails ↦ ground arith
  ]

  of_info :
      (domain : String) (o : Outcome (Option (CachedData Robot)))
      → env.urls.domain url ≡ some domain
      → info env law s domain ≡ o
      → (o >>= λ cd. ok (access_of env url cd)) ≡ ok allowed
      → Obeys
  unfolding access_of
  of_info domain (err e) host known h = cc h
  of_info domain panic host known h = cc h
  of_info domain (ok none) host known h = cc h
  of_info domain (ok (some cd)) host known h = record {
    domain = domain;
    cd = cd;
    host = host;
    known = known;
    robot_allows = λ robot. allowed_by cd.robot robot (cc h);
  }

  pub access_spec-Obeys : access_spec env law s url ≡ ok allowed → Obeys
  unfolding access_spec
  access_spec-Obeys h = elim (Option-cases (env.urls.domain url)) [
    | inl hostless ↦ cc (rw (hostless, access_spec) at h)
    | inr (domain, host) ↦
        of_info domain (info env law s domain) host refl (rw (host, access_spec) at h)
  ]

-- ===== src/Storage/Cache.antt =====
-- crates/storage_service/src/storage/domain_cache.rs. The crate `moka` is a parameter: its state holds its
-- clock too, so that entries may vanish between two calls.
use polite_web_crawler.Prelude.{ℕ, ◌≡◌, ◌≢◌, ◌⊎◌, Option, none, some, String, List, []}
use polite_web_crawler.Common.Errors.{robot_parse_error}
use polite_web_crawler.Common.Outcome.{Outcome, ok, err, panic, ◌>>=◌}
use polite_web_crawler.Common.Url.{read, unreadable, RobotApi, Floats}

-- What the database and the cache know of a domain; the delay is in nanoseconds.
pub record CachedData (Robot : Type 0) : Type 0 where
  pub id : ℕ
  pub robot : Option Robot
  pub delay : ℕ

module _ {Robot F32 : Type 0} (robots : RobotApi Robot F32) (f : Floats F32) where
  read_robot : Option String → String → Outcome (Option Robot)
  read_robot none agent = ok none
  read_robot (some r) agent = elim (robots.new_robot agent r) [
    | unreadable e ↦ err (robot_parse_error e)
    | read matcher ↦ ok (some matcher)
  ]

  duration : F32 → Outcome ℕ
  duration delay = elim (f.from_secs_f32 delay) [ none ↦ panic | some d ↦ ok d ]

  -- `CachedData::new`
  unfoldable pub new_cached : ℕ → Option String → F32 → String → Outcome (CachedData Robot)
  unfolding read_robot duration
  new_cached id robot delay agent = do
    robot' ← read_robot robot agent
    delay' ← duration delay
    ok (record { id = id; robot = robot'; delay = delay' })

-- `Cache<String, V>`: a lookup changes the state too, since it renews the entry's time to idle.
pub record CacheApi (Store V : Type 0) : Type 0 where
  pub empty : Store
  pub get : Store → String → Option V × Store
  pub insert : Store → String → V → Store

-- What the crate documents: a lookup answers by a value that was inserted last, or by nothing where the
-- entry has expired; directly behind an insertion the entry is there.
pub record IsCache {Store V : Type 0} (c : CacheApi Store V) : Type 1 where
  -- The state may answer the key by the value, now or later.
  pub Holds : Store → String → V → Type 0
  pub not_empty : (k : String) (v : V) → ¬ Holds c.empty k v
  pub get_held : (s : Store) (k : String) (v : V) → (c.get s k).0 ≡ some v → Holds s k v
  pub held_before_get : (s : Store) (k j : String) (v : V) → Holds (c.get s k).1 j v → Holds s j v
  pub held_before_insert :
      (s : Store) (k j : String) (v w : V)
      → Holds (c.insert s k v) j w
      → ((k ≡ j) × (v ≡ w)) ⊎ ((k ≢ j) × Holds s j w)
  pub get-insert : (s : Store) (k : String) (v : V) → (c.get (c.insert s k v) k).0 ≡ some v

module _ {Robot F32 Store : Type 0} (robots : RobotApi Robot F32)
    (c : CacheApi Store (CachedData Robot)) where
  unfoldable pub add_domain : Store → String → CachedData Robot → Store
  add_domain cache domain cd = c.insert cache domain cd

  unfoldable pub get_cached_domain : Store → String → Option (CachedData Robot) × Store
  get_cached_domain cache domain = c.get cache domain

  unfoldable pub get_domain_id : Store → String → Option ℕ × Store
  get_domain_id cache domain =
      let (found, cache') = c.get cache domain in
      (elim found [ none ↦ none | some cd ↦ some cd.id ], cache')

  unfoldable pub get_domain_robot : Store → String → Option Robot × Store
  get_domain_robot cache domain =
      let (found, cache') = c.get cache domain in
      (elim found [ none ↦ none | some cd ↦ cd.robot ], cache')

  unfoldable pub get_domain_delay : Store → String → Option ℕ × Store
  get_domain_delay cache domain =
      let (found, cache') = c.get cache domain in
      (elim found [ none ↦ none | some cd ↦ some cd.delay ], cache')

  pub robot_sitemaps : Option Robot → List String
  robot_sitemaps none = []
  robot_sitemaps (some r) = robots.sitemaps r

  unfoldable pub get_sitemaps : Store → String → List String × Store
  unfolding robot_sitemaps
  get_sitemaps cache domain =
      let (found, cache') = c.get cache domain in
      (elim found [ none ↦ [] | some cd ↦ robot_sitemaps cd.robot ], cache')

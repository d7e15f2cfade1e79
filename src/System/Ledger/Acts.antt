-- ===== src/System/Ledger/Acts.antt =====
-- An act of a worker of the system, with what it takes up and finds: no URL is lost and none is made up.
use polite_web_crawler.Prelude.{
  ℕ, ◌+◌, ◌≡◌, refl, ◌≢◌, Bool, true, false, Option, none, some, String, List, [], ◌∷◌, All,
  All-append, arith,
}
use polite_web_crawler.Common.Outcome.{Outcome, ok, err, panic}
use polite_web_crawler.Common.Url.{parsed, parse_outcome}
use polite_web_crawler.Common.Rpc.{
  Served, served, refused_with, crashed, Transport, delivers, breaks, carry,
}
use polite_web_crawler.Common.Queue.{
  up, command, push, push_bulk, take_front, parse_line, pop_front,
}
use polite_web_crawler.Storage.Service.{Env, CrawlerStorage}
use polite_web_crawler.Storage.Grpc as Grpc
use polite_web_crawler.Worker.Client as Client
use polite_web_crawler.Worker.Core.Loop.{
  Phase, idle, guarded, counted, ended, holding, pushing, pushed, Shared, Event, popped, tried,
  replied, processed, proceeds, unwinds, cancelled, fetch_sub, fetch_add, after_pop, after_requeue,
  after_push, after_try, worker_step,
}
use polite_web_crawler.Worker.Core.Links as Links
use polite_web_crawler.Worker.Core.Links.{Contact, reached, unreached}
use polite_web_crawler.System.{
  Place, looping, filtering, Act, operates, finds, asks, Moved, looped, found, asked, act,
}
use polite_web_crawler.System.Ledger.{count, count-append, taken_at, taken_by, found_at, found_by}

-- The connection to the queue works, and the URL in the worker's hands is not lost to a panic.
abbrev pub WorkingAct : {Url : Type 0} → Act Url → Type 0
WorkingAct (operates (popped link)) = link ≡ up
WorkingAct (operates (tried granted link)) = link ≡ up
WorkingAct (operates (replied link)) = link ≡ up
WorkingAct (operates unwinds) = ⊥
WorkingAct a = Unit

module _ {Url Robot F32 Filter Store : Type 0} (env : Env Url Robot F32 Filter Store)
    (reparses : (u : Url) → env.urls.parse (env.urls.as_str u) ≡ parsed u) where
  -- The URLs in a worker's hands, up to the start of their processing, and those on the way to the queue.
  abbrev pub bag : Place Url → List String
  bag (looping (holding u)) = env.urls.as_str u ∷ []
  bag (looping (pushing i urls)) = urls
  bag (filtering us kept) = kept
  bag p = []

  -- The text is one that a URL is written as.
  abbrev pub Normal : String → Type 0
  Normal line = (u : Url) × (line ≡ env.urls.as_str u)

  -- What the shared state and a worker have of a text, behind an act that took `taken` and found `found`. No
  -- URL gets into the queue uncounted, and none is lost.
  abbrev pub Kept : String → Shared → Place Url → List String → List String → Moved env → Type 0
  Kept x s p taken found y =
      (count x y.1.queue + count x (bag y.2) + count x taken
        ≡ count x s.queue + count x (bag p) + count x found)
      × All Normal y.1.queue
      × All Normal (bag y.2)
      × ((y.1.stray ≡ s.stray) × (y.1.leaked ≡ s.leaked))

  pops-Kept :
      (x : String) (st : CrawlerStorage F32 Filter Store) (s : Shared)
      → All Normal s.queue
      → Kept x s (looping idle) [] [] (looped env st (worker_step env.urls s idle (popped up)))
  unfolding looped worker_step after_pop pop_front command take_front parse_line parse_outcome
  pops-Kept x st s h = go s.queue h
    where
      go :
          (queue : List String)
          → All Normal queue
          → Kept x
              (record s { queue = queue })
              (looping idle)
              []
              []
              (looped env st (after_pop s (pop_front env.urls up queue)))
      go [] k = (omega arith, tt, tt, (refl, refl))
      go (line ∷ queue) ((u, e), k) =
          rw (e, reparses u) (omega arith, k, ((u, refl), tt), (refl, refl))

  tries-Kept :
      (x : String) (st : CrawlerStorage F32 Filter Store) (s : Shared) (u : Url)
      (domain : Option String) (granted : Bool)
      → All Normal s.queue
      → Kept x s
          (looping (holding u))
          (taken_at env u domain granted)
          []
          (looped env st (after_try env.urls s u domain granted up))
  unfolding looped after_try after_requeue push command fetch_sub taken_at
  tries-Kept x st s u none granted h = (omega arith, h, tt, (refl, refl))
  tries-Kept x st s u (some d) true h = (omega arith, h, tt, (refl, refl))
  tries-Kept x st s u (some d) false h = (
    omega (arith, count-append x s.queue (env.urls.as_str u ∷ [])),
    All-append Normal s.queue (env.urls.as_str u ∷ []) h ((u, refl), tt),
    tt,
    (refl, refl),
  )

  pushes-Kept :
      (x : String) (st : CrawlerStorage F32 Filter Store) (s : Shared) (i : ℕ) (urls : List String)
      → All Normal s.queue
      → All Normal urls
      → Kept x s
          (looping (pushing i urls))
          []
          []
          (looped env st (after_push s i urls (push_bulk up urls s.queue)))
  unfolding looped after_push push_bulk command
  pushes-Kept x st s i [] h k = (omega arith, h, tt, (refl, refl))
  pushes-Kept x st s i (u ∷ us) h k = (
    omega (arith, count-append x s.queue (u ∷ us)),
    All-append Normal s.queue (u ∷ us) h k,
    tt,
    (refl, refl),
  )

  found-Kept :
      (x : String) (st : CrawlerStorage F32 Filter Store) (s : Shared) (o : Outcome (List Url))
      → All Normal s.queue
      → Kept x s (looping guarded) [] [] (found env st s o)
  unfolding found looped worker_step fetch_sub
  found-Kept x st s (ok us) h = (omega arith, h, tt, (refl, refl))
  found-Kept x st s (err e) h = (omega arith, h, tt, (refl, refl))
  found-Kept x st s panic h = (omega arith, h, tt, (refl, refl))

  carry-no_panic : {A : Type 0} (t : Transport) (a : Served A) → carry t a ≢ panic
  unfolding carry
  carry-no_panic (delivers st) (served b) h = cc h
  carry-no_panic (delivers st) (refused_with r) h = cc h
  carry-no_panic (delivers st) crashed h = cc h
  carry-no_panic (breaks st) a h = cc h

  insert_url-no_panic :
      (st : CrawlerStorage F32 Filter Store) (c : Contact) (text : String)
      → (Links.insert_url env st c text).0 ≢ panic
  unfolding Links.insert_url Client.insert_url
  insert_url-no_panic st (reached t) text h = carry-no_panic t (Grpc.insert_url env st text).0 h
  insert_url-no_panic st (unreached r) text h = cc h

  asked-Kept :
      (x : String) (st : CrawlerStorage F32 Filter Store) (s : Shared) (u : Url) (us : List Url)
      (kept : List String) (o : Outcome Bool)
      → o ≢ panic
      → All Normal s.queue
      → All Normal kept
      → Kept x s
          (filtering (u ∷ us) kept)
          []
          (found_at env (env.urls.as_str u) o)
          (asked env s (env.urls.as_str u) us kept (o, st))
  unfolding asked found_at
  asked-Kept x st s u us kept panic busy h k = absurd (busy refl)
  asked-Kept x st s u us kept (err e) busy h k = (omega arith, h, k, (refl, refl))
  asked-Kept x st s u us kept (ok true) busy h k = (omega arith, h, k, (refl, refl))
  asked-Kept x st s u us kept (ok false) busy h k = (
    omega (arith, count-append x kept (env.urls.as_str u ∷ [])),
    h,
    All-append Normal kept (env.urls.as_str u ∷ []) k ((u, refl), tt),
    (refl, refl),
  )

  processed-Kept :
      (x : String) (st : CrawlerStorage F32 Filter Store) (s : Shared) (kept : List String)
      → All Normal s.queue
      → All Normal kept
      → Kept x s
          (filtering [] kept)
          []
          []
          (looped env st (worker_step env.urls s guarded (processed kept)))
  unfolding looped worker_step fetch_sub
  processed-Kept x st s [] h k = (omega arith, h, tt, (refl, refl))
  processed-Kept x st s (u ∷ us) h k = (omega arith, h, k, (refl, refl))

  operates-Kept :
      (x : String) (st : CrawlerStorage F32 Filter Store) (s : Shared) (p : Phase Url) (e : Event)
      → WorkingAct {Url = Url} (operates e)
      → All Normal s.queue
      → All Normal (bag (looping p))
      → (p ≢ guarded)
      → Kept x s
          (looping p)
          (taken_by env (looping p) (operates e))
          []
          (looped env st (worker_step env.urls s p e))
  unfolding looped worker_step taken_by fetch_sub fetch_add
  operates-Kept x st s guarded e w h k busy = absurd (busy refl)
  operates-Kept x st s idle (popped link) w h k busy = rw w (pops-Kept x st s h)
  operates-Kept x st s idle cancelled w h k busy = (omega arith, h, tt, (refl, refl))
  operates-Kept x st s (holding u) (tried granted link) w h k busy =
      rw w (tries-Kept x st s u (env.urls.domain u) granted h)
  operates-Kept x st s (holding u) unwinds w h k busy = absurd w
  operates-Kept x st s (pushing i urls) (replied link) w h k busy =
      rw w (pushes-Kept x st s i urls h k)
  operates-Kept x st s (pushed n) proceeds w h k busy = (omega arith, h, tt, (refl, refl))
  operates-Kept x st s counted proceeds w h k busy = (omega arith, h, tt, (refl, refl))
  operates-Kept x st s p e w h k busy = (omega arith, h, k, (refl, refl))

  pub act-Kept :
      (x : String) (st : CrawlerStorage F32 Filter Store) (s : Shared) (p : Place Url) (a : Act Url)
      → WorkingAct a
      → All Normal s.queue
      → All Normal (bag p)
      → Kept x s p (taken_by env p a) (found_by env st p a) (act env st s p a)
  unfolding act taken_by found_by
  act-Kept x st s (looping guarded) (finds o) w h k = found-Kept x st s o h
  act-Kept x st s (looping guarded) (operates e) w h k = (omega arith, h, tt, (refl, refl))
  act-Kept x st s (looping guarded) (asks c) w h k = (omega arith, h, tt, (refl, refl))
  act-Kept x st s (looping idle) (operates e) w h k = operates-Kept x st s idle e w h k (λ q. cc q)
  act-Kept x st s (looping counted) (operates e) w h k =
      operates-Kept x st s counted e w h k (λ q. cc q)
  act-Kept x st s (looping ended) (operates e) w h k =
      operates-Kept x st s ended e w h k (λ q. cc q)
  act-Kept x st s (looping (holding u)) (operates e) w h k =
      operates-Kept x st s (holding u) e w h k (λ q. cc q)
  act-Kept x st s (looping (pushing i us)) (operates e) w h k =
      operates-Kept x st s (pushing i us) e w h k (λ q. cc q)
  act-Kept x st s (looping (pushed n)) (operates e) w h k =
      operates-Kept x st s (pushed n) e w h k (λ q. cc q)
  act-Kept x st s (filtering (u ∷ us) kept) (asks c) w h k =
      asked-Kept x _ s u us kept _ (insert_url-no_panic st c (env.urls.as_str u)) h k
  act-Kept x st s (filtering [] kept) (asks c) w h k = processed-Kept x st s kept h k
  act-Kept x st s p a w h k = (omega arith, h, k, (refl, refl))

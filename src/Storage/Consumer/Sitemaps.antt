-- ===== src/Storage/Consumer/Sitemaps.antt =====
-- main.rs, the sitemaps of a saved domain: when they get into the queue, and when they never do.
mod Tests
use polite_web_crawler.Prelude.{
  ℕ, zero, suc, ◌≡◌, refl, ◌∙◌, ap, Bool, true, false, Option, none, some, String, List, [], ◌∷◌,
  All, if◌then◌else◌,
}
use polite_web_crawler.Common.Errors.{task_queue_error}
use polite_web_crawler.Common.Outcome.{Outcome, ok, err, panic}
use polite_web_crawler.Common.Url.{Parsed, parsed, refused}
use polite_web_crawler.Common.Queue.{Link, up, lost_request, lost_reply, command, push}
use polite_web_crawler.Storage.Seen.{IsBloom, insert_url}
use polite_web_crawler.Storage.Service.{Env, CrawlerStorage, insert_url_in_seen_urls}
use polite_web_crawler.Storage.Consumer.{push_retried, push_new, push_sitemaps}

-- Requests that are lost at every attempt.
abbrev pub cut : String → ℕ → Link
cut e i = lost_request e

push_retried-cut :
    (n i : ℕ) (e url : String) (queue : List String) → push_retried n i (cut e) url queue ≡ queue
unfolding push_retried push command
push_retried-cut zero i e url queue = refl
push_retried-cut (suc n) i e url queue = push_retried-cut n (suc i) e url queue

module _ {Url Robot F32 Filter Store : Type 0} (env : Env Url Robot F32 Filter Store)
    (law : IsBloom env.bloom) where
  abbrev S : Type 0
  S = CrawlerStorage F32 Filter Store

  -- The URL of a text, if it is one, has been seen.
  abbrev SeenAs : S → Parsed Url → Type 0
  SeenAs s (refused e) = Unit {0}
  SeenAs s (parsed u) = law.contains s.seen_urls u ≡ true

  push_new_keeps :
      (x : S × List String) (links : ℕ → Link) (p : Parsed Url) (u : Url)
      → law.contains x.0.seen_urls u ≡ true
      → law.contains (push_new env x links p).0.seen_urls u ≡ true
  unfolding push_new insert_url_in_seen_urls insert_url
  push_new_keeps x links (refused e) u h = h
  push_new_keeps x links (parsed v) u h = law.kept x.0.seen_urls v u h

  push_sitemaps_keep :
      (x : S × List String) (links : ℕ → ℕ → Link) (k : ℕ) (urls : List String) (u : Url)
      → law.contains x.0.seen_urls u ≡ true
      → law.contains (push_sitemaps env x links k urls).0.seen_urls u ≡ true
  unfolding push_sitemaps
  push_sitemaps_keep x links k [] u h = h
  push_sitemaps_keep x links k (url ∷ urls) u h =
      push_sitemaps_keep (push_new env x (links k) (env.urls.parse url)) links (suc k) urls u
        (push_new_keeps x (links k) (env.urls.parse url) u h)

  keeps_seen :
      (x : S × List String) (links : ℕ → ℕ → Link) (k : ℕ) (urls : List String) (p : Parsed Url)
      → SeenAs x.0 p
      → SeenAs (push_sitemaps env x links k urls).0 p
  keeps_seen x links k urls (refused e) h = tt
  keeps_seen x links k urls (parsed u) h = push_sitemaps_keep x links k urls u h

  push_new_seen :
      (x : S × List String) (links : ℕ → Link) (p : Parsed Url)
      → SeenAs (push_new env x links p).0 p
  unfolding push_new insert_url_in_seen_urls insert_url
  push_new_seen x links (refused e) = tt
  push_new_seen x links (parsed u) = law.inserted x.0.seen_urls u

  AllSeen : S → List String → Type 0
  AllSeen s [] = Unit {0}
  AllSeen s (url ∷ urls) = SeenAs s (env.urls.parse url) × AllSeen s urls

  all_seen :
      (x : S × List String) (links : ℕ → ℕ → Link) (k : ℕ) (urls : List String)
      → AllSeen (push_sitemaps env x links k urls).0 urls
  unfolding AllSeen push_sitemaps
  all_seen x links k [] = tt
  all_seen x links k (url ∷ urls) =
      let y = push_new env x (links k) (env.urls.parse url) in
      (
        keeps_seen y links (suc k) urls (env.urls.parse url)
            (push_new_seen x (links k) (env.urls.parse url)),
        all_seen y links (suc k) urls,
      )

  seen_not_pushed :
      (x : S × List String) (links : ℕ → Link) (p : Parsed Url)
      → SeenAs x.0 p
      → (push_new env x links p).1 ≡ x.1
  unfolding push_new insert_url_in_seen_urls insert_url
  seen_not_pushed x links (refused e) h = refl
  seen_not_pushed x links (parsed u) h = rw (law.answer x.0.seen_urls u) (rw h)

  AllSeen-keeps :
      (x : S × List String) (links : ℕ → Link) (p : Parsed Url) (urls : List String)
      → AllSeen x.0 urls
      → AllSeen (push_new env x links p).0 urls
  unfolding AllSeen
  AllSeen-keeps x links p [] h = tt
  AllSeen-keeps x links p (url ∷ urls) (h, hs) =
      (kept (env.urls.parse url) h, AllSeen-keeps x links p urls hs)
    where
      kept : (q : Parsed Url) → SeenAs x.0 q → SeenAs (push_new env x links p).0 q
      kept (refused e) seen = tt
      kept (parsed u) seen = push_new_keeps x links p u seen

  seen_none_pushed :
      (x : S × List String) (links : ℕ → ℕ → Link) (k : ℕ) (urls : List String)
      → AllSeen x.0 urls
      → (push_sitemaps env x links k urls).1 ≡ x.1
  unfolding AllSeen push_sitemaps
  seen_none_pushed x links k [] h = refl
  seen_none_pushed x links k (url ∷ urls) (h, hs) =
      seen_none_pushed (push_new env x (links k) (env.urls.parse url)) links (suc k) urls
        (AllSeen-keeps x (links k) (env.urls.parse url) urls hs)
      ∙ seen_not_pushed x (links k) (env.urls.parse url) h

  -- Sitemaps get into the queue once: when those of a domain have been handled, then handling them
  -- again, from the queue as it is by then and whatever the connections did and do, pushes nothing.
  -- Stated for a filter that never misses what was inserted.
  pub push_sitemaps_again :
      (s : S) (queue later : List String) (links links' : ℕ → ℕ → Link) (urls : List String)
      → (push_sitemaps env ((push_sitemaps env (s, queue) links 0 urls).0, later) links' 0 urls).1
        ≡ later
  push_sitemaps_again s queue later links links' urls =
      seen_none_pushed ((push_sitemaps env (s, queue) links 0 urls).0, later) links' 0 urls
        (all_seen (s, queue) links 0 urls)

  push_new-cut :
      (x : S × List String) (e : String) (p : Parsed Url) → (push_new env x (cut e) p).1 ≡ x.1
  unfolding push_new
  push_new-cut x e (refused y) = refl
  push_new-cut x e (parsed u) =
      rw (push_retried-cut 3 1 e (env.urls.as_str u) x.1, push_retried)
        (same ((insert_url_in_seen_urls env x.0 u).0) x.1)
    where
      same : (b : Bool) (q : List String) → (if b then q else q) ≡ q
      same true q = refl
      same false q = refl

  none_pushed_cut :
      (x : S × List String) (e : String) (k : ℕ) (urls : List String)
      → (push_sitemaps env x (λ _. cut e) k urls).1 ≡ x.1
  unfolding push_sitemaps
  none_pushed_cut x e k [] = refl
  none_pushed_cut x e k (url ∷ urls) =
      none_pushed_cut (push_new env x (cut e) (env.urls.parse url)) e (suc k) urls
      ∙ push_new-cut x e (env.urls.parse url)

  -- Sitemaps whose pushes fail are lost: if Redis is out of reach while those of a domain are handled,
  -- then the queue stays as it was, and handling them again over any connections pushes nothing
  -- either, since they count as seen. Stated for a filter that never misses what was inserted.
  pub sitemaps_lost :
      (s : S) (queue later : List String) (e : String) (links : ℕ → ℕ → Link) (urls : List String)
      → ((push_sitemaps env (s, queue) (λ _. cut e) 0 urls).1 ≡ queue)
        × ((push_sitemaps env
              ((push_sitemaps env (s, queue) (λ _. cut e) 0 urls).0, later)
              links
              0
              urls).1
            ≡ later)
  sitemaps_lost s queue later e links urls = (
    none_pushed_cut (s, queue) e 0 urls,
    push_sitemaps_again s queue later (λ _. cut e) links urls,
  )

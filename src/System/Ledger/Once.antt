-- ===== src/System/Ledger/Once.antt =====
-- The system with its record of URLs, over a filter that never misses what was inserted: how often a URL is
-- found and taken up.
use polite_web_crawler.Prelude.{
  if◌then◌else◌, ℕ, zero, suc, ◌+◌, ◌≤◌, ◌≡◌, sym, ◌∙◌, inl, inr, List, [], ◌∷◌, All, arith,
  Bool-cases,
}
use polite_web_crawler.Common.Url.{Parsed, parsed, refused}
use polite_web_crawler.Common.Queue.{Link}
use polite_web_crawler.Storage.Seen.{IsBloom, insert_url}
use polite_web_crawler.Storage.Service.{Env, CrawlerStorage, insert_url_in_seen_urls}
use polite_web_crawler.Storage.Consumer.{push_new}
use polite_web_crawler.Worker.Core.Loop.{Shared}
use polite_web_crawler.System.{Place, Act, act_of, pushed_by, Step, acts, sitemap, elsewhere, step}
use polite_web_crawler.System.Ledger.{
  count, count-append, found_of, sitemap_found, Ledger, enter, entries,
}
use polite_web_crawler.System.Ledger.Marks.{Marked, new-Marked, act-Marked}
use polite_web_crawler.System.Ledger.Acts.{Normal}
use polite_web_crawler.System.Ledger.Conserved.{Working, opened, nothing_lost}

module _ {Url Robot F32 Filter Store : Type 0} (env : Env Url Robot F32 Filter Store)
    (law : IsBloom env.bloom)
    (reparses : (u : Url) → env.urls.parse (env.urls.as_str u) ≡ parsed u) where
  module _ (u : Url) where
    act_of-Marked :
        (k : ℕ) (a : Act Url) (st : CrawlerStorage F32 Filter Store) (s : Shared)
        (ps : List (Place Url)) (n : ℕ)
        → Marked env law reparses u st n
        → Marked env law reparses u
            (act_of env k a st s ps).0
            (count (env.urls.as_str u) (found_of env st k a ps) + n)
    unfolding act_of found_of
    act_of-Marked k a st s [] n h = omega (arith, h)
    act_of-Marked zero a st s (p ∷ ps) n h = act-Marked env law reparses u st s p a n h
    act_of-Marked (suc k) a st s (p ∷ ps) n h = act_of-Marked k a st s ps n h

    -- `n` is 1 where the filter had the URL before.
    abbrev InLedger : ℕ → Ledger env → Type 0
    InLedger n l = Marked env law reparses u l.world.storage (count (env.urls.as_str u) l.found + n)

    sitemap-Marked :
        (n : ℕ) (p : Parsed Url) (links : ℕ → Link) (l : Ledger env)
        → InLedger n l
        → InLedger n (enter env (sitemap p links) l)
    unfolding enter step pushed_by push_new sitemap_found insert_url_in_seen_urls insert_url
    sitemap-Marked n (refused e) links l h = h
    sitemap-Marked n (parsed v) links l h =
        elim (Bool-cases (env.bloom.insert l.world.storage.seen_urls v).0) [
          | inl old ↦ rw old (ground (arith, h, law.kept l.world.storage.seen_urls v u))
          | inr fresh ↦ rw fresh (
              omega (
                arith,
                new-Marked env law reparses u l.world.storage
                    (record l.world.storage {
                      seen_urls = (env.bloom.insert l.world.storage.seen_urls v).1;
                    })
                    v (count (env.urls.as_str u) l.found + n)
                    (law.kept l.world.storage.seen_urls v u)
                    (sym (law.answer l.world.storage.seen_urls v) ∙ fresh)
                    (law.inserted l.world.storage.seen_urls v) h,
              ))
        ]

    enter-Marked :
        (n : ℕ) (e : Step Url F32 Filter Store) (l : Ledger env)
        → InLedger n l
        → InLedger n (enter env e l)
    unfolding enter step
    enter-Marked n (sitemap p links) l h = sitemap-Marked n p links l h
    enter-Marked n (elsewhere st) l h = h
    enter-Marked n (acts k a) l h = omega (
      arith,
      count-append (env.urls.as_str u) (found_of env l.world.storage k a l.world.places) l.found,
      act_of-Marked k a l.world.storage l.world.shared l.world.places
          (count (env.urls.as_str u) l.found + n) h,
    )

    entries-Marked :
        (n : ℕ) (es : List (Step Url F32 Filter Store)) (l : Ledger env)
        → InLedger n l
        → InLedger n (entries env es l)
    unfolding entries
    entries-Marked n [] l h = h
    entries-Marked n (e ∷ es) l h = entries-Marked n es (enter env e l) (enter-Marked n e l h)

  -- No URL is found twice. In every run of the workers, the handlers and the consumer, in any order and
  -- however the connections fail, whatever pages and sitemaps it is found in and by however many
  -- workers, a URL is reported as new to at most one of them and at most once, and never if the filter
  -- had it at the start. Stated for a filter that never misses what was inserted, and for URLs whose
  -- texts parse back to them.
  pub found_once :
      (u : Url) (st : CrawlerStorage F32 Filter Store) (s : Shared) (tokio_workers : ℕ)
      (es : List (Step Url F32 Filter Store))
      → count (env.urls.as_str u) (entries env es (opened env reparses st s tokio_workers)).found
          + (if law.contains st.seen_urls u then 1 else 0)
        ≤ 1
  found_once u st s tokio_workers es = ground (
    arith,
    entries-Marked u (if law.contains st.seen_urls u then 1 else 0) es
        (opened env reparses st s tokio_workers) (omega arith),
  )

  -- How often a URL is taken up: at most as often as it was in the queue at the start, and once more
  -- if the filter did not have it then.
  pub taken_once :
      (u : Url) (st : CrawlerStorage F32 Filter Store) (s : Shared) (tokio_workers : ℕ)
      (es : List (Step Url F32 Filter Store))
      → All (Normal env reparses) s.queue
      → All Working es
      → count (env.urls.as_str u) (entries env es (opened env reparses st s tokio_workers)).taken
          + (if law.contains st.seen_urls u then 1 else 0)
        ≤ count (env.urls.as_str u) s.queue + 1
  taken_once u st s tokio_workers es normal working = omega (
    arith,
    found_once u st s tokio_workers es,
    nothing_lost env reparses (env.urls.as_str u) st s tokio_workers es normal working,
  )

-- ===== src/System/Sitemaps.antt =====
-- storage_service/src/main.rs, the push of sitemaps, over a finite web.
use polite_web_crawler.Prelude.{
  ℕ, zero, suc, ◌+◌, ◌*◌, ◌≤◌, ◌≡◌, sym, ◌∙◌, inl, inr, String, List, [], ◌∷◌, length,
  length-append, arith, Bool-cases,
}
use polite_web_crawler.Common.Url.{Parsed, parsed, refused}
use polite_web_crawler.Common.Queue.{Link, up, lost_request, lost_reply, command, push}
use polite_web_crawler.Storage.Seen.{IsBloom, insert_url}
use polite_web_crawler.Storage.Service.{Env, CrawlerStorage, insert_url_in_seen_urls}
use polite_web_crawler.Storage.Consumer.{push_retried, push_new}
use polite_web_crawler.Worker.Core.Links.Once.{Within}
use polite_web_crawler.System.Finite.{In, unseen, unseen-Within, unseen_less}

module _ {Url Robot F32 Filter Store : Type 0} (env : Env Url Robot F32 Filter Store)
    (law : IsBloom env.bloom)
    (reparses : (u : Url) → env.urls.parse (env.urls.as_str u) ≡ parsed u) where
  length-push :
      (link : Link) (text : String) (queue : List String)
      → length (push link text queue).1 ≤ length queue + 1
  unfolding push command
  length-push up text queue = omega (arith, length-append queue (text ∷ []))
  length-push (lost_request e) text queue = omega arith
  length-push (lost_reply e) text queue = omega (arith, length-append queue (text ∷ []))

  length-push_retried :
      (n i : ℕ) (links : ℕ → Link) (text : String) (queue : List String)
      → length (push_retried n i links text queue) ≤ length queue + n
  unfolding push_retried
  length-push_retried zero i links text queue = omega arith
  length-push_retried (suc n) i links text queue = ground (
    arith,
    length-push (links i) text queue,
    length-push_retried n (suc i) links text (push (links i) text queue).1,
  )

  abbrev pub SitemapOfWeb : List Url → Parsed Url → Type 0
  SitemapOfWeb web (parsed u) = In web u
  SitemapOfWeb web (refused e) = Unit

  pub push_new-Spends :
      (st : CrawlerStorage F32 Filter Store) (queue : List String) (links : ℕ → Link)
      (p : Parsed Url) (web : List Url)
      → SitemapOfWeb web p
      → length (push_new env (st, queue) links p).1
          + 3 * unseen env law reparses (push_new env (st, queue) links p).0.seen_urls web
        ≤ length queue + 3 * unseen env law reparses st.seen_urls web
  unfolding push_new insert_url_in_seen_urls insert_url
  push_new-Spends st queue links (refused e) web h = omega arith
  push_new-Spends st queue links (parsed u) web h =
      elim (Bool-cases (env.bloom.insert st.seen_urls u).0) [
        | inl old ↦ rw old (omega (arith, unseen-Within env law reparses st after web within))
        | inr fresh ↦ rw fresh (
            omega (
              arith,
              length-push_retried 3 1 links (env.urls.as_str u) queue,
              unseen_less env law reparses st after web u within h
                  (sym (law.answer st.seen_urls u) ∙ fresh) (law.inserted st.seen_urls u),
            ))
      ]
    where
      after : CrawlerStorage F32 Filter Store
      after = record st { seen_urls = (env.bloom.insert st.seen_urls u).1 }

      within : Within env law reparses st after
      within v k = law.kept st.seen_urls u v k

-- ===== src/Worker/Core/Links/Once.antt =====
-- crawler_core.rs and the storage's handler: a link is kept for the push at most once.
use polite_web_crawler.Prelude.{
  ◌≡◌, refl, sym, ◌∙◌, ap, Bool, true, false, String, List, [], ◌∷◌, any, All, Bool-cases, inl, inr,
  str_eq, str_eq_iff,
}
use polite_web_crawler.Common.Outcome.{Outcome, ok, err, panic}
use polite_web_crawler.Common.Url.{parsed}
use polite_web_crawler.Common.Rpc.{served, Transport, delivers, breaks, carry}
use polite_web_crawler.Storage.Seen.{IsBloom, insert_url}
use polite_web_crawler.Storage.Service.{Env, CrawlerStorage, insert_url_in_seen_urls}
use polite_web_crawler.Storage.Grpc as Grpc
use polite_web_crawler.Worker.Client as Client
use polite_web_crawler.Worker.Core.Links as Links
use polite_web_crawler.Worker.Core.Links.{Contact, reached, unreached, keep_link, filtered_urls}

module _ {Url Robot F32 Filter Store : Type 0} (env : Env Url Robot F32 Filter Store)
    (law : IsBloom env.bloom)
    (reparses : (u : Url) → env.urls.parse (env.urls.as_str u) ≡ parsed u) where
  abbrev pub S : Type 0
  S = CrawlerStorage F32 Filter Store

  -- The filter of `s'` has all that the one of `s` has.
  abbrev pub Within : S → S → Type 0
  Within s s' = (u : Url) → law.contains s.seen_urls u ≡ true → law.contains s'.seen_urls u ≡ true

  abbrev New : S → String → Type 0
  New s p = (u : Url) × (env.urls.parse p ≡ parsed u) × (law.contains s.seen_urls u ≡ false)

  abbrev Old : S → String → Type 0
  Old s p = (u : Url) → env.urls.parse p ≡ parsed u → law.contains s.seen_urls u ≡ true

  -- What one call does.
  pub record Asked (s : S) (u : Url) (x : Outcome Bool × S) : Type 0 where
    pub within : Within s x.1
    pub when_new :
        x.0 ≡ ok false
        → (law.contains s.seen_urls u ≡ false) × (law.contains x.1.seen_urls u ≡ true)

  carried : (t : Transport) (b : Bool) → carry t (served b) ≡ ok false → b ≡ false
  unfolding carry
  carried (delivers st) b h = cc h
  carried (breaks st) b h = cc h

  pub insert_url-Asked :
      (s : S) (c : Contact) (u : Url) → Asked s u (Links.insert_url env s c (env.urls.as_str u))
  unfolding Links.insert_url Grpc.insert_url Client.insert_url insert_url_in_seen_urls insert_url
  insert_url-Asked s (unreached st) u = record { within = λ v h. h; when_new = λ h. cc h }
  insert_url-Asked s (reached t) u =
      rw (reparses u, Grpc.insert_url)
        (record {
          within = λ v h. law.kept s.seen_urls u v h;
          when_new = λ h. (
            sym (law.answer s.seen_urls u) ∙ carried t (env.bloom.insert s.seen_urls u).0 h,
            law.inserted s.seen_urls u,
          );
        })

  filtered-Within : (us : List (Url × Contact)) (s : S) → Within s (filtered_urls env us s).1
  unfolding filtered_urls
  filtered-Within [] s u h = h
  filtered-Within ((v, c) ∷ us) s u h =
      filtered-Within us (Links.insert_url env s c (env.urls.as_str v)).1 u
        ((insert_url-Asked s c v).within u h)

  New-Within : (s s' : S) (p : String) → Within s s' → New s' p → New s p
  New-Within s s' p w (u, e, h) = (
    u,
    e,
    elim (Bool-cases (law.contains s.seen_urls u)) [
      | inl old ↦ cc (sym h ∙ w u old)
      | inr new ↦ new
    ],
  )

  All-New-Within : (s s' : S) (ps : List String) → Within s s' → All (New s') ps → All (New s) ps
  All-New-Within s s' [] w h = tt
  All-New-Within s s' (p ∷ ps) w (h, hs) = (New-Within s s' p w h, All-New-Within s s' ps w hs)

  -- Every link that is kept was new before, and is old behind.
  abbrev Kept : S → S → List String → Type 0
  Kept s s' ps = All (New s) ps × All (Old s') ps

  keep_link-Kept :
      (s s' s'' : S) (u : Url) (answer : Outcome Bool) (more : Outcome (List String))
      (ps : List String)
      → Asked s u (answer, s')
      → Within s' s''
      → ((qs : List String) → more ≡ ok qs → Kept s' s'' qs)
      → keep_link env (env.urls.as_str u) answer more ≡ ok ps
      → Kept s s'' ps
  unfolding keep_link
  keep_link-Kept s s' s'' u (ok true) more ps asked w ih h =
      let k = ih ps h in (All-New-Within s s' ps asked.within k.0, k.1)
  keep_link-Kept s s' s'' u (err e) more ps asked w ih h =
      let k = ih ps h in (All-New-Within s s' ps asked.within k.0, k.1)
  keep_link-Kept s s' s'' u panic more ps asked w ih h = cc h
  keep_link-Kept s s' s'' u (ok false) (err e) ps asked w ih h = cc h
  keep_link-Kept s s' s'' u (ok false) panic ps asked w ih h = cc h
  keep_link-Kept s s' s'' u (ok false) (ok qs) ps asked w ih h =
      let (k, l) = ih qs refl in
      let (fresh, then_old) = asked.when_new refl in
      let e : env.urls.as_str u ∷ qs ≡ ps = cc h in
      rw (← e) (
        ((u, reparses u, fresh), All-New-Within s s' qs asked.within k),
        ((λ v parses. rw (← same v parses) (w u then_old)), l),
      )
    where
      same : (v : Url) → env.urls.parse (env.urls.as_str u) ≡ parsed v → u ≡ v
      same v parses = cc (reparses u, parses)

  filtered-Kept :
      (us : List (Url × Contact)) (s : S) (ps : List String)
      → (filtered_urls env us s).0 ≡ ok ps
      → Kept s (filtered_urls env us s).1 ps
  unfolding filtered_urls
  filtered-Kept [] s ps h = let e : [] ≡ ps = cc h in rw (← e) (tt, tt)
  filtered-Kept ((u, c) ∷ us) s ps h =
      let s' = (Links.insert_url env s c (env.urls.as_str u)).1 in
      keep_link-Kept s s' (filtered_urls env us s').1 u
        (Links.insert_url env s c (env.urls.as_str u)).0 (filtered_urls env us s').0 ps
        (insert_url-Asked s c u) (filtered-Within us s') (filtered-Kept us s') h

  not_again :
      (s : S) (p : String) (qs : List String) → Old s p → All (New s) qs → any (str_eq p) qs ≡ false
  not_again s p [] old h = refl
  not_again s p (q ∷ qs) old ((u, parses, fresh), hs) = elim (Bool-cases (str_eq p q)) [
    | inr other ↦ rw other (not_again s p qs old hs)
    | inl same ↦ cc (sym fresh ∙ old u (ap env.urls.parse ((str_eq_iff p q).0 same) ∙ parses))
  ]

  All-not_again :
      (s s' : S) (ps qs : List String)
      → Within s s'
      → All (Old s) ps
      → All (New s') qs
      → All (λ p. any (str_eq p) qs ≡ false) ps
  All-not_again s s' [] qs w h k = tt
  All-not_again s s' (p ∷ ps) qs w (h, hs) k =
      (not_again s' p qs (λ u e. w u (h u e)) k, All-not_again s s' ps qs w hs k)

  -- No link is kept twice for the push. If one page's links are filtered by the storage and yield
  -- `ps`, and any time later, when the filter has all that it had then, the links of a page, found by
  -- whichever worker, yield `qs`, then no link of `ps` is among `qs`, whatever the connections do. Stated
  -- for a filter that never misses what was inserted, and for URLs whose texts parse back to them.
  pub filtered_urls_once :
      (us vs : List (Url × Contact)) (s s' : S) (ps qs : List String)
      → (filtered_urls env us s).0 ≡ ok ps
      → Within (filtered_urls env us s).1 s'
      → (filtered_urls env vs s').0 ≡ ok qs
      → All (λ p. any (str_eq p) qs ≡ false) ps
  filtered_urls_once us vs s s' ps qs first later second =
      All-not_again (filtered_urls env us s).1 s' ps qs later (filtered-Kept us s ps first).1
        (filtered-Kept vs s' qs second).0

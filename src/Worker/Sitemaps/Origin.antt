-- ===== src/Worker/Sitemaps/Origin.antt =====
-- sitemaps_parser.rs with link_fetcher.rs: where the URLs of sitemaps come from.
mod Tests
use mathlib.Core.List.{Memᴰ}
use polite_web_crawler.Prelude.{
  ◌⊎◌, ◌+◌, ℕ, ◌≤◌, ◌≡◌, refl, sym, ◌∙◌, inl, inr, Bool, true, false, not, ◌==◌, String, List, [],
  ◌∷◌, ◌++◌, All, All-append, Bool-cases, arith, if◌then◌else◌,
}
use polite_web_crawler.Common.Text.{Unicode}
use polite_web_crawler.Common.Text.Trim.{string_is_empty, trim_string}
use polite_web_crawler.Common.Outcome.{Outcome, ok, err, panic, ◌>>=◌, bind-eq-ok}
use polite_web_crawler.Common.Url.{Parsed, parsed, refused, UrlApi}
use polite_web_crawler.Worker.Fetcher.Wire.{Http, Sent, Response, received, Body, bytes}
use polite_web_crawler.Worker.Fetcher.Retry.{with_retry-Retried}
use polite_web_crawler.Worker.Fetcher.Pages.{received_of_ok}
use polite_web_crawler.Worker.Fetcher.{
  sent_outcome, body_text, status_failure, is_xml, read_xml, get_xml_content,
}
use polite_web_crawler.Worker.Sitemaps.{
  XmlEvent, start_loc, other, eof, broken, LocText, text, no_text, undecodable, not_unescaped,
  valid_url, loc_url, parse_sitemap, valid_sitemap_urls, after_xml, fetch_all, parse,
}

module _ {Url : Type 0} (api : UrlApi Url) where
  -- The URL is named by a `loc` among the events.
  abbrev pub Located : List XmlEvent → Url → Type 0
  Located es u =
      (t : String) × Memᴰ (start_loc (text t)) es × (api.parse (trim_string t) ≡ parsed u)

  Located-later :
      (e : XmlEvent) (es : List XmlEvent) (us : List Url)
      → All (Located es) us
      → All (Located (e ∷ es)) us
  Located-later e es [] h = tt
  Located-later e es (u ∷ us) ((t, m, p), hs) = ((t, Memᴰ.tail m, p), Located-later e es us hs)

  valid_url-Located :
      (t : String) (es : List XmlEvent) (p : Parsed Url)
      → api.parse (trim_string t) ≡ p
      → All (Located (start_loc (text t) ∷ es)) (valid_url api p)
  unfolding valid_url
  valid_url-Located t es (parsed u) h = ((t, Memᴰ.head refl, h), tt)
  valid_url-Located t es (refused e) h = tt

  loc_url-Located :
      (l : LocText) (es : List XmlEvent) → All (Located (start_loc l ∷ es)) (loc_url api l)
  unfolding loc_url
  loc_url-Located no_text es = tt
  loc_url-Located undecodable es = tt
  loc_url-Located not_unescaped es = tt
  loc_url-Located (text t) es = elim (Bool-cases (string_is_empty (trim_string t))) [
    | inl empty ↦ rw empty tt
    | inr full ↦ rw full (valid_url-Located t es (api.parse (trim_string t)) refl)
  ]

  parse_sitemap-Located : (es : List XmlEvent) → All (Located es) (parse_sitemap api es)
  unfolding parse_sitemap
  parse_sitemap-Located [] = tt
  parse_sitemap-Located (eof ∷ es) = tt
  parse_sitemap-Located (broken ∷ es) = tt
  parse_sitemap-Located (other ∷ es) =
      Located-later other es (parse_sitemap api es) (parse_sitemap-Located es)
  parse_sitemap-Located (start_loc l ∷ es) =
      All-append (Located (start_loc l ∷ es)) (loc_url api l) (parse_sitemap api es)
        (loc_url-Located l es)
        (Located-later (start_loc l) es (parse_sitemap api es) (parse_sitemap-Located es))

  valid_sitemap_urls-All :
      (P : Url → Type 0) (maps : List String)
      → ((s : String) (v : Url) → Memᴰ s maps → api.parse s ≡ parsed v → P v)
      → All P (valid_sitemap_urls api maps)
  unfolding valid_sitemap_urls valid_url
  valid_sitemap_urls-All P [] h = tt
  valid_sitemap_urls-All P (s ∷ maps) h =
      All-append P (valid_url api (api.parse s)) (valid_sitemap_urls api maps)
        (here (api.parse s) (λ v e. h s v (Memᴰ.head refl) e))
        (valid_sitemap_urls-All P maps (λ t v m e. h t v (Memᴰ.tail m) e))
    where
      here : (p : Parsed Url) → ((v : Url) → p ≡ parsed v → P v) → All P (valid_url api p)
      here (parsed v) k = (k v refl, tt)
      here (refused e) k = tt

  module _ (uni : Unicode) (h : Http) (events : String → List XmlEvent)
      (answers : Url → ℕ → Sent Url) where
    -- The URL is named in a document that was received at one of the requests for a sitemap.
    abbrev pub Fetched : Url → Url → Type 0
    Fetched v u =
        (k : ℕ) × (r : Response Url) × (xml : String) × (1 ≤ k)
        × (k ≤ 3)
        × (answers v k ≡ received r)
        × (h.is_success r.status ≡ true)
        × (r.body ≡ bytes xml)
        × Located (events xml) u

    read_xml-ok :
        (r : Response Url) (xml : String)
        → read_xml uni api h r ≡ ok xml
        → ((h.is_success r.status ≡ true) × (r.body ≡ bytes xml)) ⊎ (xml ≡ "")
    unfolding read_xml body_text status_failure
    read_xml-ok r xml e = ground arith

    Located-Fetched :
        (v : Url) (k : ℕ) (r : Response Url) (xml : String) (us : List Url)
        → 1 ≤ k
        → k ≤ 3
        → answers v k ≡ received r
        → h.is_success r.status ≡ true
        → r.body ≡ bytes xml
        → All (Located (events xml)) us
        → All (Fetched v) us
    Located-Fetched v k r xml [] a b c d e l = tt
    Located-Fetched v k r xml (u ∷ us) a b c d e (l, ls) =
        ((k, r, xml, a, b, c, d, e, l), Located-Fetched v k r xml us a b c d e ls)

    sitemap-Fetched :
        (v : Url) (xml : String)
        → events "" ≡ eof ∷ []
        → (get_xml_content uni api h (answers v)).0 ≡ ok xml
        → All (Fetched v) (parse_sitemap api (events xml))
    unfolding get_xml_content
    sitemap-Fetched v xml nothing e =
        let run = with_retry-Retried 2 (λ i. sent_outcome (answers v i)) in
        let (r, got, reading) = bind-eq-ok _ (read_xml uni api h) xml e in
        elim (read_xml-ok r xml reading) [
          | inl (success, body) ↦
              Located-Fetched v _ r xml (parse_sitemap api (events xml)) run.from run.to
                (received_of_ok _ r (sym run.outcome ∙ got)) success body
                (parse_sitemap-Located (events xml))
          | inr empty ↦ rw (empty, nothing) (unfold parse_sitemap in tt)
        ]

    -- What holds of the URLs of every sitemap that is read holds of all of them.
    abbrev Reads : (Url → Type 0) → Url → Type 0
    Reads P v =
        (xml : String)
        → (get_xml_content uni api h (answers v)).0 ≡ ok xml
        → All P (parse_sitemap api (events xml))

    after_xml-All :
        (P : Url → Type 0) (v : Url) (o : Outcome String) (us : List Url)
        → ((xml : String) → o ≡ ok xml → All P (parse_sitemap api (events xml)))
        → after_xml api uni h events answers o ≡ ok us
        → All P us
    unfolding after_xml
    after_xml-All P v (ok xml) us reads e =
        let same : parse_sitemap api (events xml) ≡ us = cc e in rw (← same) (reads xml refl)
    after_xml-All P v (err x) us reads e = let same : [] ≡ us = cc e in rw (← same) tt
    after_xml-All P v panic us reads e = cc e

    joined-All :
        (P : Url → Type 0) (first more : Outcome (List Url)) (sent later : ℕ) (us : List Url)
        → ((vs : List Url) → first ≡ ok vs → All P vs)
        → ((vs : List Url) → more ≡ ok vs → All P vs)
        → (elim first as (λ _. Outcome (List Url) × ℕ) [
          | ok vs ↦ (more >>= λ ws. ok (vs ++ ws), sent + later)
          | err e ↦ (err e, sent)
          | panic ↦ (panic, sent)
        ]).0
          ≡ ok us
        → All P us
    joined-All P (err x) more sent later us f g e = cc e
    joined-All P panic more sent later us f g e = cc e
    joined-All P (ok vs) more sent later us f g e =
        let (ws, got, same) = bind-eq-ok more (λ ws. ok (vs ++ ws)) us e in
        let all : vs ++ ws ≡ us = cc same in rw (← all) (All-append P vs ws (f vs refl) (g ws got))

    fetch_all-All :
        (P : Url → Type 0) (vs us : List Url)
        → All (Reads P) vs
        → (fetch_all api uni h events answers vs).0 ≡ ok us
        → All P us
    unfolding fetch_all
    fetch_all-All P [] us reads e = let same : [] ≡ us = cc e in rw (← same) tt
    fetch_all-All P (v ∷ vs) us (reads, rest) e =
        joined-All P (after_xml api uni h events answers (get_xml_content uni api h (answers v)).0)
          (fetch_all api uni h events answers vs).0 (get_xml_content uni api h (answers v)).1
          (fetch_all api uni h events answers vs).1 us
          (λ ws. after_xml-All P v (get_xml_content uni api h (answers v)).0 ws reads)
          (λ ws. fetch_all-All P vs ws rest) e

    -- The URL comes from one of the sitemaps.
    abbrev pub From : List String → Url → Type 0
    From maps u = (s : String) × Memᴰ s maps × (v : Url) × (api.parse s ≡ parsed v) × Fetched v u

    From-sitemap :
        (maps : List String) (s : String) (v : Url) (us : List Url)
        → Memᴰ s maps
        → api.parse s ≡ parsed v
        → All (Fetched v) us
        → All (From maps) us
    From-sitemap maps s v [] m e f = tt
    From-sitemap maps s v (u ∷ us) m e (f, fs) = ((s, m, v, e, f), From-sitemap maps s v us m e fs)

    -- Every URL of a sitemap was read there: whatever sitemaps fail, if the parser returns URLs, then each
    -- of them is the trimmed text of a `loc` in a document that is the body of a successful response,
    -- received at one of at most three requests for a URL that one of the given texts parses to. Stated
    -- for a reader that yields nothing but the end for an empty document.
    pub parse_sitemaps-From :
        (maps : List String) (us : List Url)
        → events "" ≡ eof ∷ []
        → (parse api uni h events answers maps).0 ≡ ok us
        → All (From maps) us
    unfolding parse
    parse_sitemaps-From maps us nothing e =
        fetch_all-All (From maps) (valid_sitemap_urls api maps) us
          (valid_sitemap_urls-All (Reads (From maps)) maps (λ s v m p xml got.
            From-sitemap maps s v (parse_sitemap api (events xml)) m p
              (sitemap-Fetched v xml nothing got)))
          e

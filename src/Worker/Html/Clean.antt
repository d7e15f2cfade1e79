-- ===== src/Worker/Html/Clean.antt =====
-- html_parser.rs: what the clean text and the outbound links of a page cannot hold.
mod Tests
use polite_web_crawler.Prelude.{
  ℕ, zero, suc, ◌≡◌, refl, sym, ◌∙◌, ap, Bool, true, false, ◌||◌, Option, none, some, String, List,
  [], ◌∷◌, ◌++◌, ◌==◌, ltb, All, arith, if◌then◌else◌, Bool-cases, inl, inr,
}
use polite_web_crawler.Common.Text.{Text, is_whitespace, text_eq, codes}
use polite_web_crawler.Common.Url.{
  Parsed, parsed, refused, relative_url_without_base, other_error, UrlApi,
}
use polite_web_crawler.Worker.Html.{
  trim_start, keep_before, trim_end, trim, find, up_to, slice, cut, piece, pieces, clean_text,
  other_page, joined_link, link, outbound_links,
}

-- "<" or ">"
abbrev pub angle : ℕ → Bool
angle c = c == 60 || c == 62

-- The text before the first of them.
abbrev pub before_angle : Text → Text
before_angle [] = []
before_angle (c ∷ cs) = let rest = before_angle cs in if angle c then [] else c ∷ rest

bump : Option ℕ → Option ℕ
bump none = none
bump (some i) = some (suc i)

find_ne : (c d : ℕ) (ds : Text) → (d == c) ≡ false → find c (d ∷ ds) ≡ bump (find c ds)
unfolding find bump
find_ne c d ds h = go (find c ds)
  where
    go :
        (o : Option ℕ)
        → (if d == c then some 0 else (elim o [ none ↦ none | some i ↦ some (suc i) ])) ≡ bump o
    go none = rw h
    go (some i) = rw h

slice-bump :
    (c : ℕ) (cs : Text) (f g : Option ℕ) → slice (c ∷ cs) (bump f) (bump g) ≡ c ∷ slice cs f g
unfolding slice bump up_to
slice-bump c cs none none = refl
slice-bump c cs (some i) none = refl
slice-bump c cs none (some j) = refl
slice-bump c cs (some i) (some j) = ground arith

slice_less : (t : Text) (g : Option ℕ) → slice t (some 0) g ≡ []
unfolding slice up_to
slice_less t none = refl
slice_less t (some j) = ground arith

slice_greater : (t : Text) (f : Option ℕ) → slice t (bump f) (some 0) ≡ []
unfolding slice bump up_to
slice_greater t none = refl
slice_greater t (some i) = ground arith

find_eq : (c d : ℕ) (ds : Text) → (d == c) ≡ true → find c (d ∷ ds) ≡ some 0
unfolding find
find_eq c d ds h = rw h

-- The slices at the indices found take a text up to the first "<" or ">", whichever comes first.
pub cut_lem : (t : Text) → cut t ≡ before_angle t
unfolding cut
cut_lem [] = unfold find in unfold slice in refl
cut_lem (c ∷ cs) = elim (Bool-cases (c == 60)) [
  | inl less ↦
      ap (λ f. slice (c ∷ cs) f (find 62 (c ∷ cs))) (find_eq 60 c cs less)
      ∙ slice_less (c ∷ cs) (find 62 (c ∷ cs))
      ∙ ground arith
  | inr other ↦ elim (Bool-cases (c == 62)) [
    | inl greater ↦
        ap (λ f. slice (c ∷ cs) f (find 62 (c ∷ cs))) (find_ne 60 c cs other)
        ∙ ap (λ g. slice (c ∷ cs) (bump (find 60 cs)) g) (find_eq 62 c cs greater)
        ∙ slice_greater (c ∷ cs) (find 60 cs)
        ∙ ground arith
    | inr neither ↦
        ap (λ f. slice (c ∷ cs) f (find 62 (c ∷ cs))) (find_ne 60 c cs other)
        ∙ ap (λ g. slice (c ∷ cs) (bump (find 60 cs)) g) (find_ne 62 c cs neither)
        ∙ slice-bump c cs (find 60 cs) (find 62 cs)
        ∙ ground (arith, cut_lem cs)
  ]
]

-- A text in which neither stands.
abbrev pub NoAngle : Text → Type 0
NoAngle t = All (λ c. angle c ≡ false) t

before_angle-NoAngle : (t : Text) → NoAngle (before_angle t)
before_angle-NoAngle [] = tt
before_angle-NoAngle (c ∷ cs) = elim (Bool-cases (angle c)) [
  | inl holds ↦ rw holds tt
  | inr fails ↦ rw fails (fails, before_angle-NoAngle cs)
]

append-NoAngle : (s t : Text) → NoAngle s → NoAngle t → NoAngle (s ++ t)
append-NoAngle [] t h k = k
append-NoAngle (c ∷ s) t (h, hs) k = (h, append-NoAngle s t hs k)

trim_start-NoAngle : (t : Text) → NoAngle t → NoAngle (trim_start t)
unfolding trim_start
trim_start-NoAngle [] h = tt
trim_start-NoAngle (c ∷ cs) (h, hs) = elim (Bool-cases (is_whitespace c)) [
  | inl holds ↦ rw holds (trim_start-NoAngle cs hs)
  | inr fails ↦ rw fails (h, hs)
]

keep_before-NoAngle : (c : ℕ) (t : Text) → angle c ≡ false → NoAngle t → NoAngle (keep_before c t)
unfolding keep_before
keep_before-NoAngle c (d ∷ ds) h k = (h, k)
keep_before-NoAngle c [] h k = elim (Bool-cases (is_whitespace c)) [
  | inl holds ↦ rw holds tt
  | inr fails ↦ rw fails (h, tt)
]

trim_end-NoAngle : (t : Text) → NoAngle t → NoAngle (trim_end t)
unfolding trim_end
trim_end-NoAngle [] h = tt
trim_end-NoAngle (c ∷ cs) (h, hs) = keep_before-NoAngle c (trim_end cs) h (trim_end-NoAngle cs hs)

piece-NoAngle : (t : Text) → NoAngle (piece t)
unfolding piece
piece-NoAngle [] = tt
piece-NoAngle (c ∷ cs) =
    append-NoAngle (cut (c ∷ cs)) (32 ∷ []) (rw (cut_lem (c ∷ cs)) (before_angle-NoAngle (c ∷ cs)))
      (refl, tt)

pieces-NoAngle : (ts : List Text) → NoAngle (pieces ts)
unfolding pieces
pieces-NoAngle [] = tt
pieces-NoAngle (t ∷ ts) =
    append-NoAngle (piece (trim t)) (pieces ts) (piece-NoAngle (trim t)) (pieces-NoAngle ts)

-- No "<" and no ">" gets into the clean text of a page, whatever texts the selector finds.
pub clean_text-NoAngle : (ts : List Text) → NoAngle (clean_text ts)
unfolding clean_text trim
clean_text-NoAngle ts =
    trim_end-NoAngle (trim_start (pieces ts)) (trim_start-NoAngle (pieces ts) (pieces-NoAngle ts))

module _ {Url : Type 0} (urls : UrlApi Url) (own : Url) where
  abbrev Others : List Url → Type 0
  Others us = All (λ u. urls.url_eq u own ≡ false) us

  other_page-Others : (u : Url) → Others (other_page urls own u)
  unfolding other_page
  other_page-Others u = elim (Bool-cases (urls.url_eq (urls.without_fragment u) own)) [
    | inl holds ↦ rw holds tt
    | inr fails ↦ rw fails (fails, tt)
  ]

  joined-Others : (p : Parsed Url) → Others (joined_link urls own p)
  unfolding joined_link
  joined-Others (parsed u) = other_page-Others u
  joined-Others (refused e) = tt

  kept_if : (b : Bool) (us : List Url) → Others us → Others (if b then us else [])
  kept_if true us h = h
  kept_if false us h = tt

  link-Others : (href : String) (p : Parsed Url) → Others (link urls own href p)
  unfolding link
  link-Others href (parsed u) = kept_if _ (other_page urls own u) (other_page-Others u)
  link-Others href (refused relative_url_without_base) = joined-Others (urls.join own href)
  link-Others href (refused (other_error e)) = tt

  append-Others : (us vs : List Url) → Others us → Others vs → Others (us ++ vs)
  append-Others [] vs h k = k
  append-Others (u ∷ us) vs (h, hs) k = (h, append-Others us vs hs k)

  -- The URL of a page is never among its outbound links, whatever the links of the page are.
  pub outbound_links-Others : (hrefs : List String) → Others (outbound_links urls own hrefs)
  unfolding outbound_links
  outbound_links-Others [] = tt
  outbound_links-Others (href ∷ hrefs) =
      append-Others (link urls own href (urls.parse href)) (outbound_links urls own hrefs)
        (link-Others href (urls.parse href)) (outbound_links-Others hrefs)

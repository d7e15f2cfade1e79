-- ===== src/Storage/Dedup/Index.antt =====
-- The bands as an index: each bucket holds exactly the stored hashes of its band value, in order.

use polite_web_crawler.Prelude.{
  ℕ, zero, suc, ◌+◌, ◌≤◌, ◌<◌, ◌≡◌, refl, sym, ◌∙◌, ap, subst, Bool, none, some, List, [], ◌∷◌,
  ◌++◌, arith, ◌==◌, if◌then◌else◌, filter, get_or, set, replicate, length, length-set,
  get_or-set_self, get_or-set_ne, get_or-replicate,
}
use mathlib.Core.List.{append-nil, append_assoc}
use native.Mathlib.Decide.{dec_lt}
use polite_web_crawler.Common.Text.{Text, Unicode}
use polite_web_crawler.Storage.Dedup.Hash.{SimHash, calculate_hash}
use polite_web_crawler.Storage.Dedup.{
  ContentDeduplicator, Band, band_num, push_at, get, extract_band, push_bands, push_all, init,
  insert,
}

-- What a lookup finds in a bucket; nothing where there is none.
unfoldable pub bucket : ℕ → Band → List ℕ
bucket v m = elim (get v m) [ none ↦ [] | some hs ↦ hs ]

filter-snoc :
    (p : ℕ → Bool) (xs : List ℕ) (h : ℕ)
    → filter p (xs ++ h ∷ []) ≡ (if p h then filter p xs ++ h ∷ [] else filter p xs)
filter-snoc p [] h = ground arith
filter-snoc p (x ∷ xs) h = ground (arith, filter-snoc p xs h)

bucket-push_at :
    (v w h : ℕ) (m : Band)
    → bucket w (push_at v h m) ≡ (if v == w then bucket w m ++ h ∷ [] else bucket w m)
unfolding bucket get push_at
bucket-push_at v w h [] = ground arith
bucket-push_at v w h ((x, hs) ∷ m) = ground (arith, bucket-push_at v w h m)

-- One band holds the hashes `hs`.
pub record IsBand (k : ℕ) (hs : List ℕ) (m : Band) : Type 0 where
  pub holds : (v : ℕ) → bucket v m ≡ filter (λ x. extract_band x k == v) hs

IsBand-push_at :
    (k h : ℕ) (hs : List ℕ) (m : Band)
    → IsBand k hs m
    → IsBand k (hs ++ h ∷ []) (push_at (extract_band h k) h m)
IsBand-push_at k h hs m b = record {
  holds = λ v. ground (
    arith,
    bucket-push_at (extract_band h k) v h m,
    b.holds v,
    filter-snoc (λ x. extract_band x k == v) hs h,
  );
}

length-push_bands : (n k h : ℕ) (bs : List Band) → length (push_bands n k h bs) ≡ length bs
unfolding push_bands
length-push_bands zero k h bs = refl
length-push_bands (suc n) k h bs = length-push_bands n (suc k) h _ ∙ length-set bs k _

-- A band that the loop does not reach stays; one that it reaches is pushed to once.
push_bands_before :
    (n k j h : ℕ) (bs : List Band) → j < k → get_or (push_bands n k h bs) j [] ≡ get_or bs j []
unfolding push_bands
push_bands_before zero k j h bs lt = refl
push_bands_before (suc n) k j h bs lt =
    push_bands_before n (suc k) j h _ (omega arith) ∙ get_or-set_ne bs k j _ [] (omega arith)

push_bands_at :
    (n k j h : ℕ) (bs : List Band)
    → k ≤ j
    → j < k + n
    → k + n ≤ length bs
    → get_or (push_bands n k h bs) j [] ≡ push_at (extract_band h j) h (get_or bs j [])
unfolding push_bands
push_bands_at zero k j h bs le lt fits = absurd (omega arith)
push_bands_at (suc n) k j h bs le lt fits = elim (dec_lt k j) [
  | yes after ↦
      push_bands_at n (suc k) j h _ after (omega arith) (omega (arith, length-set bs k pushed))
      ∙ ap (push_at (extract_band h j) h) (get_or-set_ne bs k j pushed [] (omega arith))
  | no here ↦
      let e : k ≡ j = omega arith in
      push_bands_before n (suc k) j h _ (omega arith)
      ∙ subst (λ i. get_or (set bs k pushed) i [] ≡ push_at (extract_band h i) h (get_or bs i [])) e
          (get_or-set_self bs k pushed [] (omega arith))
]
  where
    pushed : Band
    pushed = push_at (extract_band h k) h (get_or bs k [])

-- The bands index the hashes `hs`.
pub record IsIndex (hs : List ℕ) (bands : List Band) : Type 0 where
  pub bands_of : length bands ≡ band_num
  pub band_at : (k : ℕ) → k < band_num → IsBand k hs (get_or bands k [])

pub push_bands-IsIndex :
    (h : ℕ) (hs : List ℕ) (bands : List Band)
    → IsIndex hs bands
    → IsIndex (hs ++ h ∷ []) (push_bands band_num 0 h bands)
push_bands-IsIndex h hs bands i = record {
  bands_of = length-push_bands band_num 0 h bands ∙ i.bands_of;
  band_at = λ k lt.
      subst (IsBand k (hs ++ h ∷ []))
        (sym (
          push_bands_at band_num 0 k h bands (omega arith) (omega arith)
            (omega (arith, i.bands_of))))
        (IsBand-push_at k h hs _ (i.band_at k lt));
}

pub push_all-IsIndex :
    (hs seen : List ℕ) (bands : List Band)
    → IsIndex seen bands
    → IsIndex (seen ++ hs) (push_all hs bands)
unfolding push_all
push_all-IsIndex [] seen bands i = rw append-nil i
push_all-IsIndex (h ∷ hs) seen bands i =
    subst (λ l. IsIndex l (push_all hs (push_bands band_num 0 h bands)))
      (append_assoc seen (h ∷ []) hs)
      (push_all-IsIndex hs (seen ++ h ∷ []) _ (push_bands-IsIndex h seen bands i))

empty-IsIndex : IsIndex [] (replicate band_num [])
empty-IsIndex = record {
  bands_of = refl;
  band_at = λ k lt.
      rw (get_or-replicate {A = Band} band_num k [])
        (record { holds = λ v. unfold bucket get in refl });
}

-- The deduplicator that `init` builds indexes exactly the hashes that it is given, in their order:
-- it has eight bands, and in each band the bucket of a value lists the given hashes whose window at
-- that band has the value.
pub init-IsIndex : (hashes : List ℕ) (dist : ℕ) → IsIndex hashes (init hashes dist).bands
unfolding init
init-IsIndex hashes dist = push_all-IsIndex hashes [] _ empty-IsIndex

module _ (u : Unicode) (s : SimHash) where
  -- If the bands of a deduplicator index some hashes, then after the insertion of a text they index
  -- these and behind them the text's hash, which is also what the insertion returns; the distance
  -- bound stays.
  pub insert-IsIndex :
      (d : ContentDeduplicator) (hs : List ℕ) (text : Text)
      → IsIndex hs d.bands
      → IsIndex (hs ++ calculate_hash u s text ∷ []) (insert u s d text).0.bands
        × ((insert u s d text).1 ≡ calculate_hash u s text)
        × ((insert u s d text).0.max_dist ≡ d.max_dist)
  unfolding insert
  insert-IsIndex d hs text i =
      (push_bands-IsIndex (calculate_hash u s text) hs d.bands i, refl, refl)

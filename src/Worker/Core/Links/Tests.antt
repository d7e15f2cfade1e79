-- ===== src/Worker/Core/Links/Tests.antt =====
-- Runs on links, and the theorems at concrete inputs: URLs that are numbers, and URLs that are texts.
use polite_web_crawler.Prelude.{
  ℕ, ◌≡◌, ◌↔◌, refl, true, false, none, String, List, [], ◌∷◌, any, All, arith, leb, ◌==◌, str_eq,
}
use polite_web_crawler.Common.Outcome.{ok}
use polite_web_crawler.Common.Rpc.{delivers, carry}
use polite_web_crawler.Common.Url.{refused, relative_url_without_base, UrlApi}
use polite_web_crawler.Storage.Seen.{insert_url}
use polite_web_crawler.Storage.Grpc as Grpc
use polite_web_crawler.Storage.Service.{insert_url_in_seen_urls}
use polite_web_crawler.Worker.Client as Client
use polite_web_crawler.Worker.Core.Links as Links
use polite_web_crawler.Worker.Core.Links.{
  insert_sorted, sort, dedup_after, dedup, Contact, reached, unreached, keep_link, filtered_urls,
}
use polite_web_crawler.Worker.Core.Links.Simple.{env, listed-IsBloom, empty_storage, reset}
use polite_web_crawler.Worker.Core.Links.Tidy.{IsOrder}
use polite_web_crawler.Worker.Core.Links.Once.{filtered_urls_once}

abbrev numbered : UrlApi ℕ
numbered = record {
  parse = λ s. refused relative_url_without_base;
  join = λ u s. refused relative_url_without_base;
  domain = λ u. none;
  scheme = λ u. "https";
  path = λ u. [];
  as_str = λ u. "";
  without_fragment = λ u. u;
  url_eq = ◌==◌;
  url_le = leb;
}

eq_leb : (a b : ℕ) → (a == b ≡ true) ↔ (a ≡ b)
eq_leb a b = ground arith

numbered-IsOrder : IsOrder numbered
numbered-IsOrder = record {
  le_total = λ a b h. ground arith;
  le_trans = λ a b c h k. ground arith;
  eq_of_le = λ a b h k. ground arith;
  le_refl = λ a. ground arith;
  eq_iff = eq_leb;
}

tidied : dedup numbered (sort numbered (3 ∷ 1 ∷ 3 ∷ 2 ∷ [])) ≡ 1 ∷ 2 ∷ 3 ∷ []
unfolding dedup sort insert_sorted dedup_after
tidied = refl

-- The second call does not reach the storage, so that its link is dropped.
abbrev first_page : List (String × Contact)
first_page = ("a", reached (delivers reset)) ∷ ("b", unreached reset) ∷ []

abbrev second_page : List (String × Contact)
second_page = ("a", reached (delivers reset)) ∷ ("c", reached (delivers reset)) ∷ []

first_kept : (filtered_urls env first_page empty_storage).0 ≡ ok ("a" ∷ [])
unfolding filtered_urls Links.insert_url Grpc.insert_url Client.insert_url carry
    insert_url_in_seen_urls insert_url keep_link
first_kept = refl

second_kept :
    (filtered_urls env second_page (filtered_urls env first_page empty_storage).1).0 ≡ ok ("c" ∷ [])
unfolding filtered_urls Links.insert_url Grpc.insert_url Client.insert_url carry
    insert_url_in_seen_urls insert_url keep_link
second_kept = refl

filtered_urls_once_example : All (λ p. any (str_eq p) ("c" ∷ []) ≡ false) ("a" ∷ [])
filtered_urls_once_example =
    filtered_urls_once env listed-IsBloom (λ u. refl) first_page second_page empty_storage
      (filtered_urls env first_page empty_storage).1 ("a" ∷ []) ("c" ∷ []) first_kept (λ u h. h)
      second_kept

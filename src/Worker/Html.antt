-- ===== src/Worker/Html.antt =====
-- crates/worker_service/src/parsers/html_parser.rs. The crate `scraper` is a parameter: the texts and
-- attributes that its selectors find in a document, in their order.
pub mod Clean
use polite_web_crawler.Prelude.{
  ℕ, zero, suc, Bool, true, false, ◌&&◌, ◌||◌, not, Option, none, some, String, List, [], ◌∷◌, ◌++◌,
  map, ◌==◌, ltb, any, filter, if◌then◌else◌,
}
use polite_web_crawler.Common.Text.{Text, Unicode, is_whitespace, text_eq, codes, contains}
use polite_web_crawler.Common.Data.{NotParsedPageData, ParsedPageSaveData}
use polite_web_crawler.Common.Url.{
  Parsed, parsed, refused, ParseError, relative_url_without_base, other_error, UrlApi,
}

-- What the selectors find: the text nodes below the tags that are kept, the links, the texts of the
-- first title, and the contents of the descriptions, none for one without.
pub record Html (Doc : Type 0) : Type 0 where
  pub parse_document : String → Doc
  pub texts : Doc → List Text
  pub hrefs : Doc → List String
  pub title : Doc → Option (List Text)
  pub descriptions : Doc → List (Option Text)

pub record ParsedPage (Url : Type 0) : Type 0 where
  pub title : Option Text
  pub description : Option Text
  pub clean_text : Option Text
  pub outbound_links : List Url
  pub url : Url

unfoldable pub is_empty : List Text → Bool
is_empty [] = true
is_empty (k ∷ ks) = false

-- `str::trim`
unfoldable pub trim_start : Text → Text
trim_start [] = []
trim_start (c ∷ cs) = let rest = trim_start cs in if is_whitespace c then rest else c ∷ cs

unfoldable pub keep_before : ℕ → Text → Text
keep_before c [] = if is_whitespace c then [] else c ∷ []
keep_before c (d ∷ ds) = c ∷ d ∷ ds

unfoldable pub trim_end : Text → Text
unfolding keep_before
trim_end [] = []
trim_end (c ∷ cs) = keep_before c (trim_end cs)

unfoldable pub trim : Text → Text
unfolding trim_start trim_end
trim t = trim_end (trim_start t)

-- `str::find` of a character, and the slice up to an index.
unfoldable pub find : ℕ → Text → Option ℕ
find c [] = none
find c (d ∷ ds) =
    let rest = find c ds in
    if d == c then some 0 else elim rest [ none ↦ none | some i ↦ some (suc i) ]

unfoldable pub up_to : ℕ → Text → Text
up_to zero t = []
up_to (suc n) [] = []
up_to (suc n) (c ∷ cs) = c ∷ up_to n cs

-- The slices at the first "<" and at the first ">" before it.
unfoldable pub slice : Text → Option ℕ → Option ℕ → Text
unfolding up_to
slice t none none = t
slice t (some i) none = up_to i t
slice t none (some j) = up_to j t
slice t (some i) (some j) = if ltb j i then up_to j t else up_to i t

unfoldable pub cut : Text → Text
unfolding find slice
cut t = slice t (find 60 t) (find 62 t)

-- What a text node adds to the clean text.
unfoldable pub piece : Text → Text
unfolding cut
piece [] = []
piece (c ∷ cs) = cut (c ∷ cs) ++ 32 ∷ []

unfoldable pub pieces : List Text → Text
unfolding piece trim
pieces [] = []
pieces (t ∷ ts) = piece (trim t) ++ pieces ts

unfoldable pub clean_text : List Text → Text
unfolding pieces
clean_text ts = trim (pieces ts)

-- `split` at the characters that are not alphanumeric: the words, the first one begun with the given
-- characters.
unfoldable pub words : Unicode → Text → Text → List Text
words u word [] = word ∷ []
words u word (c ∷ cs) =
    let more = words u (word ++ c ∷ []) cs in
    let next = words u [] cs in if u.is_alphanumeric c then more else word ∷ next

unfoldable pub tokenize : Unicode → Text → List Text
unfolding words
tokenize u t = map u.to_lowercase (filter (λ w. not (text_eq w [])) (words u [] t))

unfoldable pub is_keywords_in_html : Unicode → Option Text → List Text → Bool
unfolding tokenize
is_keywords_in_html u none keywords = false
is_keywords_in_html u (some t) keywords =
    any (λ k. any (text_eq (u.to_lowercase k)) (tokenize u t)) keywords

-- `join(" ")` of the texts that are not empty.
unfoldable pub joined : List Text → Text
joined [] = []
joined (t ∷ []) = t
joined (t ∷ ts) = t ++ 32 ∷ joined ts

unfoldable pub title_text : List Text → Text
unfolding joined trim find up_to
title_text ts =
    let full = joined (filter (λ t. not (text_eq t [])) (map trim ts)) in
    elim (find 60 full) [ none ↦ full | some i ↦ trim (up_to i full) ]

unfoldable pub page_title : Option (List Text) → Option Text
unfolding title_text
page_title none = none
page_title (some ts) = let t = title_text ts in if text_eq t [] then none else some t

-- Only the first description counts, also where it has no content.
unfoldable pub page_description : List (Option Text) → Option Text
page_description [] = none
page_description (content ∷ contents) = content

module _ {Url : Type 0} (urls : UrlApi Url) (own : Url) where
  -- A link without its fragment, unless it is the page itself.
  unfoldable pub other_page : Url → List Url
  other_page u = let v = urls.without_fragment u in if urls.url_eq v own then [] else v ∷ []

  unfoldable pub joined_link : Parsed Url → List Url
  unfolding other_page
  joined_link (parsed u) = other_page u
  joined_link (refused e) = []

  unfoldable pub link : String → Parsed Url → List Url
  unfolding other_page joined_link
  link href (parsed u) =
      if text_eq (codes (urls.scheme u)) (codes "http")
        || text_eq (codes (urls.scheme u)) (codes "https")
      then other_page u
      else []
  link href (refused relative_url_without_base) = joined_link (urls.join own href)
  link href (refused (other_error e)) = []

  unfoldable pub outbound_links : List String → List Url
  unfolding link
  outbound_links [] = []
  outbound_links (href ∷ hrefs) = link href (urls.parse href) ++ outbound_links hrefs

module _ {Url Doc : Type 0} (urls : UrlApi Url) (html : Html Doc) (u : Unicode) where
  -- With the words of the file of keywords, none where it cannot be read.
  unfoldable pub parse : List Text → NotParsedPageData Url → Bool × ParsedPage Url
  unfolding is_empty clean_text is_keywords_in_html page_title page_description outbound_links
  parse keywords page =
      let doc = html.parse_document page.content in
      let text = clean_text (html.texts doc) in
      let links = outbound_links urls page.url (html.hrefs doc) in
      if not (is_empty keywords) && not (is_keywords_in_html u (some text) keywords)
      then (
        false,
        record {
          title = none;
          description = none;
          clean_text = none;
          outbound_links = links;
          url = page.url;
        },
      )
      else (
        true,
        record {
          title = page_title (html.title doc);
          description = page_description (html.descriptions doc);
          clean_text = some text;
          outbound_links = links;
          url = page.url;
        },
      )

unfoldable pub convert_parsed_page_to_save_data :
    {Url : Type 0} → UrlApi Url → ParsedPage Url → ParsedPageSaveData
convert_parsed_page_to_save_data urls page = record {
  title = page.title;
  description = page.description;
  clean_text = page.clean_text;
  url = urls.as_str page.url;
}

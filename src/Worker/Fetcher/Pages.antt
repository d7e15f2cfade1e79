-- ===== src/Worker/Fetcher/Pages.antt =====
-- What `get_page` and the readers of responses promise, and where they panic.
use polite_web_crawler.Prelude.{
  ℕ, ◌≤◌, ◌<◌, ◌≡◌, ◌≢◌, ◌↔◌, refl, inl, inr, true, false, String, arith, ◌==◌, ◌∙◌, ap, sym,
  Bool-cases, Option-cases,
}
use polite_web_crawler.Common.Text.{Unicode}
use polite_web_crawler.Common.Outcome.{bind-eq-ok, ok, panic, ◌>>=◌}
use polite_web_crawler.Common.Data.{NotParsedPageData}
use polite_web_crawler.Common.Url.{UrlApi}
use polite_web_crawler.Worker.Fetcher.Wire.{
  Http, IsDocumented, Response, Body, bytes, broken, Sent, received, failed,
}
use polite_web_crawler.Worker.Fetcher.Retry.{with_retry-Retried, with_retry_first}
use polite_web_crawler.Worker.Fetcher.{
  body_text, is_page, sent_outcome, status_failure, is_blacklisted_extension, read_page, get_page,
}

-- A status that is neither a success, nor "not found", nor an error.
abbrev pub IsOdd : ℕ → Type 0
IsOdd s = ¬ ((200 ≤ s) × (s < 300)) × ¬ ((400 ≤ s) × (s < 600))

module _ {ℓ} {A : Type ℓ} (h : Http) (doc : IsDocumented h) where
  status_failure_panics : (s : ℕ) → ¬ ((400 ≤ s) × (s < 600)) → status_failure {A = A} h s ≡ panic
  unfolding status_failure
  status_failure_panics s odd = rw ((doc.no_error s).1 odd, status_failure)

  status_failure-panic : (s : ℕ) → status_failure {A = A} h s ≡ panic → ¬ ((400 ≤ s) × (s < 600))
  unfolding status_failure
  status_failure-panic s e = elim (Option-cases (h.error_for_status s)) [
    | inl clean ↦ (doc.no_error s).0 clean
    | inr (x, failing) ↦ absurd (cc (rw (failing, status_failure) at e))
  ]

module _ {Url : Type 0} (uni : Unicode) (api : UrlApi Url) (h : Http) (doc : IsDocumented h) where
  not_success : (s : ℕ) → ¬ ((200 ≤ s) × (s < 300)) → h.is_success s ≡ false
  not_success s no_success = elim (Bool-cases (h.is_success s)) [
    | inl success ↦ absurd (no_success ((doc.success s).0 success))
    | inr e ↦ e
  ]

  not_404 : (s : ℕ) → ¬ ((400 ≤ s) × (s < 600)) → (s == 404) ≡ false
  not_404 s no_error = ground (arith, λ (e : s ≡ 404). no_error (rw e (omega arith)))

  body_not_panic :
      {A : Type 0} (b : Body) (f : String → A) → (body_text b >>= λ c. ok (f c)) ≢ panic
  unfolding body_text
  body_not_panic (bytes c) f e = cc
  body_not_panic (broken x) f e = cc

  module _ (url : Url) (r : Response Url) where
    read_page_odd :
        is_page r.content_type ≡ true → IsOdd r.status → read_page uni api h url r ≡ panic
    unfolding read_page
    read_page_odd page odd =
        rw (page, not_success r.status odd.0, not_404 r.status odd.1)
          (status_failure_panics h doc r.status odd.1)

    read_page_even :
        read_page uni api h url r ≡ panic → (is_page r.content_type ≡ true) × IsOdd r.status
    unfolding read_page
    read_page_even e = elim (Bool-cases (is_page r.content_type)) [
      | inr no_page ↦ absurd (cc (rw no_page at e))
      | inl page ↦ elim (Bool-cases (h.is_success r.status)) [
        | inl success ↦ absurd (body_not_panic r.body _ (rw (page, success) at e))
        | inr no_success ↦ elim (Bool-cases (r.status == 404)) [
          | inl missing ↦ absurd (cc (rw (page, no_success, missing) at e))
          | inr found ↦ (
            page,
            (
              (λ range. absurd (cc ((doc.success r.status).1 range, no_success))),
              status_failure-panic h doc r.status (rw (page, no_success, found) at e),
            ),
          )
        ]
      ]
    ]

    -- Reading the response of a page panics exactly when its content type passes for a page and its
    -- status is neither a success (2xx) nor an error (4xx or 5xx).
    pub read_page_panics :
        (read_page uni api h url r ≡ panic) ↔ ((is_page r.content_type ≡ true) × IsOdd r.status)
    read_page_panics = (read_page_even, λ p. read_page_odd p.0 p.1)

pub received_of_ok :
    {Url : Type 0} (a : Sent Url) (r : Response Url) → sent_outcome a ≡ ok r → a ≡ received r
unfolding sent_outcome
received_of_ok (received x) r e = cc
received_of_ok (failed x) r e = cc

module _ {Url : Type 0} (uni : Unicode) (api : UrlApi Url) (h : Http) where
  -- Content that is not empty is the body of a page that was found.
  read_page_content :
      (url : Url) (r : Response Url) (p : NotParsedPageData Url)
      → read_page uni api h url r ≡ ok p
      → p.content ≢ ""
      → (is_page r.content_type ≡ true)
        × (h.is_success r.status ≡ true)
        × (p.url ≡ r.url)
        × (r.body ≡ bytes p.content)
  unfolding read_page body_text status_failure
  read_page_content url r p e full = ground arith

  -- A page with content was received: if `get_page` returns content that is not empty, then the URL is
  -- not blacklisted and one of the at most three requests was answered by a response that is a success
  -- and passes for a page by its content type; the content is its body, and the URL of the page is the
  -- response's, behind the redirects.
  pub get_page_content :
      (url : Url) (answers : ℕ → Sent Url) (p : NotParsedPageData Url)
      → (get_page uni api h url answers).0 ≡ ok p
      → p.content ≢ ""
      → (is_blacklisted_extension uni api h url ≡ false)
        × ((k : ℕ) × (r : Response Url) × (1 ≤ k)
            × (k ≤ 3)
            × (answers k ≡ received r)
            × (is_page r.content_type ≡ true)
            × (h.is_success r.status ≡ true)
            × (p.url ≡ r.url)
            × (r.body ≡ bytes p.content))
  unfolding get_page
  get_page_content url answers p e full =
      elim (Bool-cases (is_blacklisted_extension uni api h url)) [
        | inl black ↦ absurd (full (ground arith))
        | inr white ↦
            let run = with_retry-Retried 2 (λ i. sent_outcome (answers i)) in
            let (r, got, reading) = bind-eq-ok _ (read_page uni api h url) p (rw white at e) in
            let c = read_page_content url r p reading full in
            (
              white,
              (
                _,
                r,
                run.from,
                run.to,
                received_of_ok _ r (sym run.outcome ∙ got),
                c.0,
                c.1,
                c.2,
                c.3,
              ),
            )
      ]

  -- A page that answers with a status that is neither success nor error, such as 304, panics at the
  -- first request: stated for a URL that is not blacklisted and a content type that passes.
  pub get_page_panics :
      (url : Url) (answers : ℕ → Sent Url) (r : Response Url)
      → IsDocumented h
      → is_blacklisted_extension uni api h url ≡ false
      → answers 1 ≡ received r
      → is_page r.content_type ≡ true
      → IsOdd r.status
      → get_page uni api h url answers ≡ (panic, 1)
  unfolding get_page
  get_page_panics url answers r doc white first page odd =
      rw
        (
          white,
          with_retry_first 2 (λ i. sent_outcome (answers i)) (ok r)
              (rw first (unfold sent_outcome in refl)) (λ x. cc x.is_error),
        )
        (ap (λ x. (x, 1)) (read_page_odd uni api h doc url r page odd))

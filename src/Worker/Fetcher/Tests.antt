-- ===== src/Worker/Fetcher/Tests.antt =====
-- Runs of the fetcher, and its theorems at concrete inputs.
use polite_web_crawler.Prelude.{
  ℕ, zero, suc, ◌≡◌, ◌↔◌, refl, ap, true, false, some, arith, str_eq_iff,
}
use polite_web_crawler.Common.Text.{codes, ends_with, contains}
use polite_web_crawler.Common.Text.Ascii.{ascii}
use polite_web_crawler.Common.Outcome.{ok, panic}
use polite_web_crawler.Common.Data.{NotParsedPageData}
use polite_web_crawler.Common.Url.Simple.{SimpleUrl, simple_urls}
use polite_web_crawler.Worker.Fetcher.Wire.{IsDocumented, Response, bytes, Sent, received, failed}
use polite_web_crawler.Worker.Simple.{statuses}
use polite_web_crawler.Worker.Fetcher.Retry.{with_retry, RetriedTo, with_retry-Retried}
use polite_web_crawler.Worker.Fetcher.Pages.{
  IsOdd, read_page_panics, get_page_content, get_page_panics,
}
use polite_web_crawler.Worker.Fetcher.{
  is_page, sent_outcome, body_text, is_blacklisted_extension, read_page, get_page,
}

statuses-IsDocumented : IsDocumented statuses
statuses-IsDocumented = record { success = λ s. ground arith; no_error = λ s. ground arith }

abbrev home : SimpleUrl
home = record { host = some "a.org"; at = "/home"; number = 1 }

abbrev answer : ℕ → Response SimpleUrl
answer status = record {
  status = status;
  content_type = some (some (codes "text/html"));
  url = home;
  body = bytes "hi";
}

-- The first request fails, and the second is answered.
abbrev flaky : ℕ → Sent SimpleUrl
flaky zero = failed "never"
flaky (suc zero) = failed "timeout"
flaky (suc (suc n)) = received (answer 200)

abbrev moved : ℕ → Sent SimpleUrl
moved i = received (answer 304)

abbrev found : NotParsedPageData SimpleUrl
found = record { url = home; content = "hi" }

html_passes : is_page (some (some (codes "text/html"))) ≡ true
unfolding is_page contains
html_passes = refl

home_is_page : is_blacklisted_extension ascii simple_urls statuses home ≡ false
unfolding is_blacklisted_extension ends_with
home_is_page = refl

second_attempt : get_page ascii simple_urls statuses home flaky ≡ (ok found, 2)
unfolding get_page is_blacklisted_extension ends_with with_retry sent_outcome read_page is_page
    contains body_text
second_attempt = refl

with_retry-Retried_example :
    RetriedTo (λ i. sent_outcome (flaky i)) 1 3 (with_retry 3 (λ i. sent_outcome (flaky i)))
with_retry-Retried_example = with_retry-Retried 2 (λ i. sent_outcome (flaky i))

read_page_panics_example :
    (read_page ascii simple_urls statuses home (answer 304) ≡ panic)
    ↔ ((is_page (some (some (codes "text/html"))) ≡ true) × IsOdd 304)
read_page_panics_example =
    read_page_panics ascii simple_urls statuses statuses-IsDocumented home (answer 304)

get_page_content_example : is_blacklisted_extension ascii simple_urls statuses home ≡ false
get_page_content_example =
    (get_page_content ascii simple_urls statuses home flaky found (ap (λ x. x.0) second_attempt)
      (ground (arith, str_eq_iff "hi" ""))).0

get_page_panics_example : get_page ascii simple_urls statuses home moved ≡ (panic, 1)
get_page_panics_example =
    get_page_panics ascii simple_urls statuses home moved (answer 304) statuses-IsDocumented
      home_is_page refl html_passes (omega arith)

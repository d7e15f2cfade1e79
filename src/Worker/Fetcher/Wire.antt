-- ===== src/Worker/Fetcher/Wire.antt =====
-- The crate `reqwest`: what a request is answered by, and the classes of status codes.
use polite_web_crawler.Prelude.{ℕ, ◌≤◌, ◌<◌, ◌≡◌, ◌↔◌, Bool, true, Option, none, String}
use polite_web_crawler.Common.Text.{Text}

pub data Body : Type 0 where
  bytes : String → Body
  broken : String → Body

pub record Response (Url : Type 0) : Type 0 where
  pub status : ℕ
  -- The header, if there is one, and its text, if it is a text.
  pub content_type : Option (Option Text)
  pub url : Url
  pub body : Body

pub data Sent (Url : Type 0) : Type 0 where
  received : Response Url → Sent Url
  failed : String → Sent Url

pub record Http : Type 0 where
  -- `StatusCode::is_success`
  pub is_success : ℕ → Bool
  -- `Response::error_for_status`, `none` where it returns `Ok`
  pub error_for_status : ℕ → Option String

-- What the crate documents of them: success is 2xx, and an error is 4xx or 5xx.
pub record IsDocumented (h : Http) : Type 0 where
  pub success : (s : ℕ) → (h.is_success s ≡ true) ↔ ((200 ≤ s) × (s < 300))
  pub no_error : (s : ℕ) → (h.error_for_status s ≡ none) ↔ ¬ ((400 ≤ s) × (s < 600))

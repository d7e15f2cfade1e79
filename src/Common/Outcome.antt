-- ===== src/Common/Outcome.antt =====
-- What a call that returns `Result<A, CrawlerError>` can end in: a value, an error, or a panic.
use polite_web_crawler.Prelude.{◌≡◌, refl}
use polite_web_crawler.Common.Errors.{CrawlerError}

pub data Outcome {ℓ} (A : Type ℓ) : Type ℓ where
  ok : A → Outcome A
  err : CrawlerError → Outcome A
  panic : Outcome A

-- The operator `?` and `.await` on a chain of calls.
infixl 5 ◌>>=◌
abbrev pub ◌>>=◌ {ℓ κ} : {A : Type ℓ} {B : Type κ} → Outcome A → (A → Outcome B) → Outcome B
ok a >>= f = f a
err e >>= f = err e
panic >>= f = panic

-- An error, and neither a value nor a panic.
pub record IsErr {ℓ} {A : Type ℓ} (r : Outcome A) : Type ℓ where
  pub error : CrawlerError
  pub is_error : r ≡ err error

-- A chain that succeeds has succeeded at each step.
pub bind-eq-ok :
    {A B : Type 0} (m : Outcome A) (f : A → Outcome B) (b : B)
    → (m >>= f) ≡ ok b
    → (a : A) × (m ≡ ok a) × (f a ≡ ok b)
bind-eq-ok (ok a) f b e = (a, refl, e)
bind-eq-ok (err x) f b e = cc e
bind-eq-ok panic f b e = cc e

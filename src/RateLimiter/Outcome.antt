-- ===== src/RateLimiter/Outcome.antt =====
-- internal/ratelimiter/errors.go and limiter.go: what a limiter answers.
use authara.Prelude.{ℕ}
use authara.Prelude.Text.{Text}

pub record RateLimitedError : Type 0 where
  pub retry_after : ℕ
  pub scope : Text

-- The pairs `(true, nil)`, `(false, &RateLimitedError{…})` and `(false, err)` for another error.
pub data Outcome : Type 0 where
  allowed : Outcome
  rate_limited : RateLimitedError → Outcome
  failed : Text → Outcome

-- ===== src/RateLimiter/Cache/Attempts.antt =====
-- internal/ratelimiter/cache.go: the eight methods of the cache limiter, and the counters that each
-- consults.
use authara.Prelude.{
  ℕ, ◌≡◌, Option, none, some, Bool, true, false, List, [], ◌∷◌, arith, ltb, if◌then◌else◌,
}
use authara.Prelude.Text.{Text, codes}
use authara.RateLimiter.Config.{LimiterConfig}
use authara.RateLimiter.Keys.{normalize_key, normalize_ip}
use authara.RateLimiter.Outcome.{Outcome}
use authara.RateLimiter.Memory.Attempts.{
  Attempt, login, signup, password_reset, oauth, passkey_login, passkey_login_finish,
  challenge_verify, challenge_resend,
}
use authara.RateLimiter.Memory.Charges.{is_allowed}
use authara.RateLimiter.Cache.{CounterCache, rate_limit_key, allow_ip, allow}

module _ (cache : CounterCache) (lower : ℕ → ℕ) (cfg : LimiterConfig ℕ) where
  open cache use {State, increment}

  unfoldable pub allow_login_attempt : Option Text → Text → State → State × Outcome
  allow_login_attempt ip email =
      allow cache lower ip email cfg.login_ip_limit cfg.login_ip_window cfg.login_email_limit
        cfg.login_email_window (codes "login") (codes "email")

  unfoldable pub allow_oauth_attempt : Option Text → State → State × Outcome
  allow_oauth_attempt ip = allow_ip cache ip cfg.login_ip_limit cfg.login_ip_window (codes "login")

  unfoldable pub allow_signup_attempt : Option Text → Text → State → State × Outcome
  allow_signup_attempt ip email =
      allow cache lower ip email cfg.signup_ip_limit cfg.signup_ip_window cfg.signup_email_limit
        cfg.signup_email_window (codes "signup") (codes "email")

  unfoldable pub allow_password_reset_attempt : Option Text → Text → State → State × Outcome
  allow_password_reset_attempt ip email =
      allow cache lower ip email cfg.password_reset_ip_limit cfg.password_reset_ip_window
        cfg.password_reset_email_limit cfg.password_reset_email_window (codes "password_reset")
        (codes "email")

  unfoldable pub allow_passkey_login_attempt : Option Text → State → State × Outcome
  allow_passkey_login_attempt ip =
      allow_ip cache ip cfg.passkey_login_ip_limit cfg.passkey_login_ip_window
        (codes "passkey_login")

  unfoldable pub allow_passkey_login_finish_attempt : Option Text → State → State × Outcome
  allow_passkey_login_finish_attempt ip =
      allow_ip cache ip cfg.passkey_login_ip_limit cfg.passkey_login_ip_window
        (codes "passkey_login_finish")

  unfoldable pub allow_challenge_verify_attempt : Option Text → State → State × Outcome
  allow_challenge_verify_attempt ip =
      allow_ip cache ip cfg.challenge_verify_ip_limit cfg.challenge_verify_ip_window
        (codes "challenge_verify")

  unfoldable pub allow_challenge_resend_attempt : Option Text → State → State × Outcome
  allow_challenge_resend_attempt ip =
      allow_ip cache ip cfg.challenge_resend_ip_limit cfg.challenge_resend_ip_window
        (codes "challenge_resend")

  unfoldable pub attempt : Attempt → State → State × Outcome
  attempt (login ip email) = allow_login_attempt ip email
  attempt (signup ip email) = allow_signup_attempt ip email
  attempt (password_reset ip email) = allow_password_reset_attempt ip email
  attempt (oauth ip) = allow_oauth_attempt ip
  attempt (passkey_login ip) = allow_passkey_login_attempt ip
  attempt (passkey_login_finish ip) = allow_passkey_login_finish_attempt ip
  attempt (challenge_verify ip) = allow_challenge_verify_attempt ip
  attempt (challenge_resend ip) = allow_challenge_resend_attempt ip

  -- A counter that is consulted: its key, the limit, and the window.
  pub record Budget : Type 0 where
    pub key : Text
    pub limit : ℕ
    pub window : ℕ

  by_ip : Text → ℕ → ℕ → Option Text → Budget
  by_ip kind limit window ip = record {
    key = rate_limit_key kind (codes "ip") (normalize_ip ip);
    limit = limit;
    window = window;
  }

  by_email : Text → ℕ → ℕ → Text → Budget
  by_email kind limit window email = record {
    key = rate_limit_key kind (codes "email") (normalize_key lower email);
    limit = limit;
    window = window;
  }

  -- The counters of each attempt, in order.
  pub budgets : Attempt → List Budget
  unfolding by_ip by_email
  budgets (login ip email) =
      by_ip (codes "login") cfg.login_ip_limit cfg.login_ip_window ip
      ∷ by_email (codes "login") cfg.login_email_limit cfg.login_email_window email
      ∷ []
  budgets (signup ip email) =
      by_ip (codes "signup") cfg.signup_ip_limit cfg.signup_ip_window ip
      ∷ by_email (codes "signup") cfg.signup_email_limit cfg.signup_email_window email
      ∷ []
  budgets (password_reset ip email) =
      by_ip (codes "password_reset") cfg.password_reset_ip_limit cfg.password_reset_ip_window ip
      ∷ by_email (codes "password_reset") cfg.password_reset_email_limit
          cfg.password_reset_email_window email
      ∷ []
  budgets (oauth ip) = by_ip (codes "login") cfg.login_ip_limit cfg.login_ip_window ip ∷ []
  budgets (passkey_login ip) =
      by_ip (codes "passkey_login") cfg.passkey_login_ip_limit cfg.passkey_login_ip_window ip ∷ []
  budgets (passkey_login_finish ip) =
      by_ip (codes "passkey_login_finish") cfg.passkey_login_ip_limit cfg.passkey_login_ip_window ip
      ∷ []
  budgets (challenge_verify ip) =
      by_ip (codes "challenge_verify") cfg.challenge_verify_ip_limit cfg.challenge_verify_ip_window
        ip
      ∷ []
  budgets (challenge_resend ip) =
      by_ip (codes "challenge_resend") cfg.challenge_resend_ip_limit cfg.challenge_resend_ip_window
        ip
      ∷ []

  -- Each counter is incremented in turn, up to the first that fails or is over its limit.
  pub consult : List Budget → State → State × Bool
  consult [] st = (st, true)
  consult (b ∷ bs) st =
      let (st', answer) = increment b.key b.window st in
      let rest = consult bs st' in
      elim answer [
        | none ↦ (st', false)
        | some (count, ttl) ↦ if ltb b.limit count then (st', false) else rest
      ]

  -- Whatever the cache does, an attempt increments its counters in order up to the first that the
  -- cache fails to count or that is over its limit, and is let through exactly if there is none.
  pub attempt-consult :
      (a : Attempt) (st : State)
      → ((attempt a st).0 ≡ (consult (budgets a) st).0)
        × (is_allowed (attempt a st).1 ≡ (consult (budgets a) st).1)
  unfolding attempt budgets consult by_ip by_email allow_ip allow allow_login_attempt
      allow_oauth_attempt allow_signup_attempt allow_password_reset_attempt
      allow_passkey_login_attempt allow_passkey_login_finish_attempt allow_challenge_verify_attempt
      allow_challenge_resend_attempt
  attempt-consult (login ip email) st = ground arith
  attempt-consult (signup ip email) st = ground arith
  attempt-consult (password_reset ip email) st = ground arith
  attempt-consult (oauth ip) st = ground arith
  attempt-consult (passkey_login ip) st = ground arith
  attempt-consult (passkey_login_finish ip) st = ground arith
  attempt-consult (challenge_verify ip) st = ground arith
  attempt-consult (challenge_resend ip) st = ground arith

-- ===== src/RateLimiter/Config.antt =====
-- internal/ratelimiter/memory.go: the limiter's configuration and its defaults.
use authara.Prelude.{ℕ, zero, suc, ◌*◌, Option, none, some}
use authara.Prelude.Int.{ℤ, pos, negsuc}

-- Go's `time.Duration` counts nanoseconds.
abbrev pub second : ℕ
second = 1000000000

abbrev pub minute : ℕ
minute = 60 * second

abbrev pub hour : ℕ
hour = 60 * minute

-- `N` is ℤ (a Go `int` or `time.Duration`) as configured and ℕ once the defaults are in.
pub record LimiterConfig (N : Type 0) : Type 0 where
  pub login_ip_limit : N
  pub login_ip_window : N
  pub login_email_limit : N
  pub login_email_window : N
  pub signup_ip_limit : N
  pub signup_ip_window : N
  pub signup_email_limit : N
  pub signup_email_window : N
  pub password_reset_ip_limit : N
  pub password_reset_ip_window : N
  pub password_reset_email_limit : N
  pub password_reset_email_window : N
  pub passkey_login_ip_limit : N
  pub passkey_login_ip_window : N
  pub challenge_verify_ip_limit : N
  pub challenge_verify_ip_window : N
  pub challenge_resend_ip_limit : N
  pub challenge_resend_ip_window : N
  pub cleanup_every : N
  pub max_entries : N

-- A value that is not positive is replaced.
unfoldable pub set_int_default : ℤ → ℕ → ℕ
set_int_default (pos zero) def = def
set_int_default (pos (suc n)) def = suc n
set_int_default (negsuc n) def = def

unfoldable pub set_duration_default : ℤ → ℕ → ℕ
set_duration_default (pos zero) def = def
set_duration_default (pos (suc n)) def = suc n
set_duration_default (negsuc n) def = def

unfoldable pub default_limiter_config : LimiterConfig ℤ → LimiterConfig ℕ
default_limiter_config cfg = record {
  login_ip_limit = set_int_default cfg.login_ip_limit 5;
  login_ip_window = set_duration_default cfg.login_ip_window minute;
  login_email_limit = set_int_default cfg.login_email_limit 10;
  login_email_window = set_duration_default cfg.login_email_window hour;
  signup_ip_limit = set_int_default cfg.signup_ip_limit 3;
  signup_ip_window = set_duration_default cfg.signup_ip_window hour;
  signup_email_limit = set_int_default cfg.signup_email_limit 3;
  signup_email_window = set_duration_default cfg.signup_email_window (24 * hour);
  password_reset_ip_limit = set_int_default cfg.password_reset_ip_limit 5;
  password_reset_ip_window = set_duration_default cfg.password_reset_ip_window hour;
  password_reset_email_limit = set_int_default cfg.password_reset_email_limit 3;
  password_reset_email_window = set_duration_default cfg.password_reset_email_window (24 * hour);
  passkey_login_ip_limit = set_int_default cfg.passkey_login_ip_limit 30;
  passkey_login_ip_window = set_duration_default cfg.passkey_login_ip_window (10 * minute);
  challenge_verify_ip_limit = set_int_default cfg.challenge_verify_ip_limit 30;
  challenge_verify_ip_window = set_duration_default cfg.challenge_verify_ip_window (10 * minute);
  challenge_resend_ip_limit = set_int_default cfg.challenge_resend_ip_limit 10;
  challenge_resend_ip_window = set_duration_default cfg.challenge_resend_ip_window hour;
  cleanup_every = set_int_default cfg.cleanup_every 200;
  max_entries = set_int_default cfg.max_entries 50000;
}

-- Go's zero value of the configuration.
abbrev pub zero_config : LimiterConfig ℤ
zero_config = record {
  login_ip_limit = pos 0;
  login_ip_window = pos 0;
  login_email_limit = pos 0;
  login_email_window = pos 0;
  signup_ip_limit = pos 0;
  signup_ip_window = pos 0;
  signup_email_limit = pos 0;
  signup_email_window = pos 0;
  password_reset_ip_limit = pos 0;
  password_reset_ip_window = pos 0;
  password_reset_email_limit = pos 0;
  password_reset_email_window = pos 0;
  passkey_login_ip_limit = pos 0;
  passkey_login_ip_window = pos 0;
  challenge_verify_ip_limit = pos 0;
  challenge_verify_ip_window = pos 0;
  challenge_resend_ip_limit = pos 0;
  challenge_resend_ip_window = pos 0;
  cleanup_every = pos 0;
  max_entries = pos 0;
}

-- What the normalised provider returns: `none` is a nil provider, else what the provider returned.
unfoldable pub normalized_config_provider : Option (LimiterConfig ℤ) → LimiterConfig ℕ
normalized_config_provider none = default_limiter_config zero_config
normalized_config_provider (some cfg) = default_limiter_config cfg

-- ===== src/RateLimiter/Memory/Windows.antt =====
-- internal/ratelimiter/memory.go: defaults, waiting times, and keys.
use authara.Prelude.{ℕ, ◌<◌, Option, none, some, arith}
use authara.Prelude.Text.{Text}
use authara.Prelude.Int.{ℤ, pos, negsuc}
use authara.RateLimiter.Config.{
  LimiterConfig, set_int_default, set_duration_default, default_limiter_config,
  normalized_config_provider,
}
use authara.RateLimiter.Keys.{normalize_ip, normalize_key}
use authara.RateLimiter.Table.{get_counter, retry_after}
use authara.RateLimiter.Outcome.{Outcome, allowed, rate_limited, failed}
use authara.RateLimiter.Memory.{
  InMemoryLimiter, tidy, get_slot_counter, allow_ip, allow, allow_login_attempt,
  allow_oauth_attempt, allow_signup_attempt, allow_password_reset_attempt,
  allow_passkey_login_attempt, allow_passkey_login_finish_attempt, allow_challenge_verify_attempt,
  allow_challenge_resend_attempt,
}
use authara.RateLimiter.Memory.Maps.{Slot}
use authara.RateLimiter.Memory.Attempts.{Attempt, attempt}

-- Every limit and window of a configuration is positive, and so are the two bounds of the upkeep.
pub record IsPositive (c : LimiterConfig ℕ) : Type 0 where
  pub login : (0 < c.login_ip_limit) × (0 < c.login_email_limit)
  pub login_window : (0 < c.login_ip_window) × (0 < c.login_email_window)
  pub signup : (0 < c.signup_ip_limit) × (0 < c.signup_email_limit)
  pub signup_window : (0 < c.signup_ip_window) × (0 < c.signup_email_window)
  pub password_reset : (0 < c.password_reset_ip_limit) × (0 < c.password_reset_email_limit)
  pub password_reset_window : (0 < c.password_reset_ip_window) × (0 < c.password_reset_email_window)
  pub passkey_login : (0 < c.passkey_login_ip_limit) × (0 < c.passkey_login_ip_window)
  pub challenge_verify : (0 < c.challenge_verify_ip_limit) × (0 < c.challenge_verify_ip_window)
  pub challenge_resend : (0 < c.challenge_resend_ip_limit) × (0 < c.challenge_resend_ip_window)
  pub upkeep : (0 < c.cleanup_every) × (0 < c.max_entries)

set_int_default-pos : (v : ℤ) (d : ℕ) → 0 < d → 0 < set_int_default v d
unfolding set_int_default
set_int_default-pos (pos n) d h = ground arith
set_int_default-pos (negsuc n) d h = h

set_duration_default-pos : (v : ℤ) (d : ℕ) → 0 < d → 0 < set_duration_default v d
unfolding set_duration_default
set_duration_default-pos (pos n) d h = ground arith
set_duration_default-pos (negsuc n) d h = h

default_limiter_config-IsPositive : (c : LimiterConfig ℤ) → IsPositive (default_limiter_config c)
unfolding default_limiter_config
default_limiter_config-IsPositive c = omega (arith, set_int_default-pos, set_duration_default-pos)

-- Whatever is configured, also with no provider at all, the limiter runs on positive values.
pub normalized_config_provider-IsPositive :
    (provider : Option (LimiterConfig ℤ)) → IsPositive (normalized_config_provider provider)
unfolding normalized_config_provider
normalized_config_provider-IsPositive none = default_limiter_config-IsPositive _
normalized_config_provider-IsPositive (some c) = default_limiter_config-IsPositive c

get_slot_counter-open :
    (s : Slot) (k : Text) (now window : ℕ) (l : InMemoryLimiter)
    → 0 < window
    → now < (get_slot_counter s k now window l).1.reset
unfolding get_slot_counter get_counter
get_slot_counter-open s k now window l h = ground arith

-- No error but a refusal, and a refusal with a positive time to wait.
abbrev pub Waits : ℕ → Outcome → Type 0
Waits now allowed = Unit
Waits now (rate_limited e) = 0 < e.retry_after
Waits now (failed e) = ⊥

module _ (ip : Option Text) (s : Slot) (limit window cleanup_every max_entries : ℕ) (kind : Text)
    (now : ℕ) (l : InMemoryLimiter) where
  allow_ip-Waits :
      0 < window → Waits now (allow_ip ip s limit window cleanup_every max_entries kind now l).1
  unfolding allow_ip retry_after
  allow_ip-Waits h =
      let l₁ = tidy now cleanup_every max_entries l in
      ground (arith, get_slot_counter-open s (normalize_ip ip) now window l₁ h)

module _ (lower : ℕ → ℕ) (ip : Option Text) (key : Text) (by_ip by_key : Slot)
    (ip_limit ip_window key_limit key_window cleanup_every max_entries : ℕ) (kind key_scope : Text)
    (now : ℕ) (l : InMemoryLimiter) where
  allow-Waits :
      0 < ip_window
      → 0 < key_window
      → Waits now
          (allow lower ip key by_ip by_key ip_limit ip_window key_limit key_window cleanup_every
            max_entries kind key_scope now l).1
  unfolding allow retry_after
  allow-Waits h h' =
      let l₁ = tidy now cleanup_every max_entries l in
      let l₂ = (get_slot_counter by_ip (normalize_ip ip) now ip_window l₁).0 in
      ground (
        arith,
        get_slot_counter-open by_ip (normalize_ip ip) now ip_window l₁ h,
        get_slot_counter-open by_key (normalize_key lower key) now key_window l₂ h',
      )

module _ (lower : ℕ → ℕ) (cfg : LimiterConfig ℕ) (now : ℕ) (l : InMemoryLimiter) where
  -- With positive windows no attempt ends in another error, and one that is refused is told a
  -- positive time to wait.
  pub attempt-Waits : (a : Attempt) → IsPositive cfg → Waits now (attempt lower cfg a now l).1
  unfolding attempt allow_login_attempt allow_signup_attempt allow_password_reset_attempt
      allow_oauth_attempt allow_passkey_login_attempt allow_passkey_login_finish_attempt
      allow_challenge_verify_attempt allow_challenge_resend_attempt
  attempt-Waits (Attempt.login ip email) p =
      allow-Waits lower ip email _ _ _ _ _ _ _ _ _ _ now l p.login_window.0 p.login_window.1
  attempt-Waits (Attempt.signup ip email) p =
      allow-Waits lower ip email _ _ _ _ _ _ _ _ _ _ now l p.signup_window.0 p.signup_window.1
  attempt-Waits (Attempt.password_reset ip email) p =
      allow-Waits lower ip email _ _ _ _ _ _ _ _ _ _ now l p.password_reset_window.0
        p.password_reset_window.1
  attempt-Waits (Attempt.oauth ip) p = allow_ip-Waits ip _ _ _ _ _ _ now l p.login_window.0
  attempt-Waits (Attempt.passkey_login ip) p = allow_ip-Waits ip _ _ _ _ _ _ now l p.passkey_login.1
  attempt-Waits (Attempt.passkey_login_finish ip) p =
      allow_ip-Waits ip _ _ _ _ _ _ now l p.passkey_login.1
  attempt-Waits (Attempt.challenge_verify ip) p =
      allow_ip-Waits ip _ _ _ _ _ _ now l p.challenge_verify.1
  attempt-Waits (Attempt.challenge_resend ip) p =
      allow_ip-Waits ip _ _ _ _ _ _ now l p.challenge_resend.1

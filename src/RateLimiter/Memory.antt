-- ===== src/RateLimiter/Memory.antt =====
-- internal/ratelimiter/memory.go: the ten tables of the in-memory limiter, and its methods.
pub mod Maps
pub mod Eviction
pub mod Apart
pub mod Excess
pub mod Access
pub mod Charges
pub mod Attempts
pub mod Budget
pub mod Windows
use authara.Prelude.{ℕ, ◌+◌, ◌%◌, Option, ◌++◌, leb, ◌==◌, if◌then◌else◌}
use authara.Prelude.Text.{Text, codes}
use authara.RateLimiter.Config.{LimiterConfig}
use authara.RateLimiter.Keys.{normalize_key, normalize_ip}
use authara.RateLimiter.Table.{Counter, get_counter, increment, retry_after}
use Maps.{
  Slot, login_by_ip, login_by_email, signup_by_ip, signup_by_email, password_reset_by_ip,
  password_reset_by_email, passkey_login_by_ip, passkey_login_finish_by_ip, challenge_verify_by_ip,
  challenge_resend_by_ip, Tables, get, put, sweep_expired, enforce_max_entries,
}
use authara.RateLimiter.Outcome.{Outcome, allowed, rate_limited}

pub record InMemoryLimiter : Type 0 where
  pub tables : Tables
  pub call_count : ℕ

-- The bookkeeping at the head of `allowIP` and `allow`.
unfoldable pub tidy : ℕ → ℕ → ℕ → InMemoryLimiter → InMemoryLimiter
tidy now cleanup_every max_entries l =
    let n = l.call_count + 1 in
    if n % cleanup_every == 0
    then record {
      tables = enforce_max_entries max_entries (sweep_expired now l.tables);
      call_count = n;
    }
    else record { tables = l.tables; call_count = n }

abbrev pub ip_error : Text → ℕ → Counter → Outcome
ip_error kind now c =
    rate_limited (record { retry_after = retry_after now c.reset; scope = kind ++ codes ":ip" })

abbrev pub key_error : Text → Text → ℕ → Counter → Outcome
key_error kind key_scope now c =
    rate_limited
      (record { retry_after = retry_after now c.reset; scope = kind ++ codes ":" ++ key_scope })

-- One access to a table behind its slot: the counter under a key, made anew where its window is
-- over.
unfoldable pub get_slot_counter : Slot → Text → ℕ → ℕ → InMemoryLimiter → InMemoryLimiter × Counter
get_slot_counter s key now window l =
    let (m, c) = get_counter (get s l.tables) key now window in
    (record l { tables = put s m l.tables }, c)

unfoldable pub charge : Slot → Text → Counter → InMemoryLimiter → InMemoryLimiter
charge s key c l = record l { tables = put s (increment key c (get s l.tables)) l.tables }

unfoldable pub allow_ip :
    Option Text → Slot → ℕ → ℕ → ℕ → ℕ → Text → ℕ → InMemoryLimiter → InMemoryLimiter × Outcome
allow_ip ip by_ip ip_limit ip_window cleanup_every max_entries kind now l =
    let ip_key = normalize_ip ip in
    let l₁ = tidy now cleanup_every max_entries l in
    let (l₂, ip_counter) = get_slot_counter by_ip ip_key now ip_window l₁ in
    if leb ip_limit ip_counter.count
    then (l₂, ip_error kind now ip_counter)
    else (charge by_ip ip_key ip_counter l₂, allowed)

module _ (lower : ℕ → ℕ) where
  unfoldable pub allow :
      Option Text
      → Text
      → Slot
      → Slot
      → ℕ
      → ℕ
      → ℕ
      → ℕ
      → ℕ
      → ℕ
      → Text
      → Text
      → ℕ
      → InMemoryLimiter
      → InMemoryLimiter × Outcome
  allow ip key by_ip by_key ip_limit ip_window key_limit key_window cleanup_every max_entries kind
        key_scope now l =
      let ip_key = normalize_ip ip in
      let normalized_key = normalize_key lower key in
      let l₁ = tidy now cleanup_every max_entries l in
      let (l₂, ip_counter) = get_slot_counter by_ip ip_key now ip_window l₁ in
      if leb ip_limit ip_counter.count
      then (l₂, ip_error kind now ip_counter)
      else (let (l₃, key_counter) = get_slot_counter by_key normalized_key now key_window l₂ in
          if leb key_limit key_counter.count
          then (l₃, key_error kind key_scope now key_counter)
          else (
            charge by_key normalized_key key_counter (charge by_ip ip_key ip_counter l₃),
            allowed,
          ))

  unfoldable pub allow_login_attempt :
      LimiterConfig ℕ → Option Text → Text → ℕ → InMemoryLimiter → InMemoryLimiter × Outcome
  allow_login_attempt cfg ip email =
      allow ip email login_by_ip login_by_email cfg.login_ip_limit cfg.login_ip_window
        cfg.login_email_limit cfg.login_email_window cfg.cleanup_every cfg.max_entries
        (codes "login") (codes "email")

  unfoldable pub allow_signup_attempt :
      LimiterConfig ℕ → Option Text → Text → ℕ → InMemoryLimiter → InMemoryLimiter × Outcome
  allow_signup_attempt cfg ip email =
      allow ip email signup_by_ip signup_by_email cfg.signup_ip_limit cfg.signup_ip_window
        cfg.signup_email_limit cfg.signup_email_window cfg.cleanup_every cfg.max_entries
        (codes "signup") (codes "email")

  unfoldable pub allow_password_reset_attempt :
      LimiterConfig ℕ → Option Text → Text → ℕ → InMemoryLimiter → InMemoryLimiter × Outcome
  allow_password_reset_attempt cfg ip email =
      allow ip email password_reset_by_ip password_reset_by_email cfg.password_reset_ip_limit
        cfg.password_reset_ip_window cfg.password_reset_email_limit cfg.password_reset_email_window
        cfg.cleanup_every cfg.max_entries (codes "password_reset") (codes "email")

-- The attempts that are limited by address alone.
abbrev allow_address :
    Slot
    → ℕ
    → ℕ
    → Text
    → LimiterConfig ℕ
    → Option Text
    → ℕ
    → InMemoryLimiter
    → InMemoryLimiter × Outcome
allow_address s limit window kind cfg ip =
    allow_ip ip s limit window cfg.cleanup_every cfg.max_entries kind

unfoldable pub allow_oauth_attempt :
    LimiterConfig ℕ → Option Text → ℕ → InMemoryLimiter → InMemoryLimiter × Outcome
allow_oauth_attempt cfg ip =
    allow_address login_by_ip cfg.login_ip_limit cfg.login_ip_window (codes "login") cfg ip

unfoldable pub allow_passkey_login_attempt :
    LimiterConfig ℕ → Option Text → ℕ → InMemoryLimiter → InMemoryLimiter × Outcome
allow_passkey_login_attempt cfg ip =
    allow_address passkey_login_by_ip cfg.passkey_login_ip_limit cfg.passkey_login_ip_window
      (codes "passkey_login") cfg ip

unfoldable pub allow_passkey_login_finish_attempt :
    LimiterConfig ℕ → Option Text → ℕ → InMemoryLimiter → InMemoryLimiter × Outcome
allow_passkey_login_finish_attempt cfg ip =
    allow_address passkey_login_finish_by_ip cfg.passkey_login_ip_limit cfg.passkey_login_ip_window
      (codes "passkey_login_finish") cfg ip

unfoldable pub allow_challenge_verify_attempt :
    LimiterConfig ℕ → Option Text → ℕ → InMemoryLimiter → InMemoryLimiter × Outcome
allow_challenge_verify_attempt cfg ip =
    allow_address challenge_verify_by_ip cfg.challenge_verify_ip_limit
      cfg.challenge_verify_ip_window (codes "challenge_verify") cfg ip

unfoldable pub allow_challenge_resend_attempt :
    LimiterConfig ℕ → Option Text → ℕ → InMemoryLimiter → InMemoryLimiter × Outcome
allow_challenge_resend_attempt cfg ip =
    allow_address challenge_resend_by_ip cfg.challenge_resend_ip_limit
      cfg.challenge_resend_ip_window (codes "challenge_resend") cfg ip

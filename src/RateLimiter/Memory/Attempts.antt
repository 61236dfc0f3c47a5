-- ===== src/RateLimiter/Memory/Attempts.antt =====
-- internal/ratelimiter/limiter.go and memory.go: the attempts, and the counters each is charged to.
use authara.Prelude.{ℕ, ◌≤◌, ◌<◌, ◌≡◌, ap, ◌≢◌, Option, some, Bool, true, false, ◌||◌, arith}
use authara.Prelude.Text.{Text, text_eq}
use authara.RateLimiter.Config.{LimiterConfig}
use authara.RateLimiter.Keys.{normalize_key, normalize_ip}
use authara.RateLimiter.Table.{Counter}
use authara.RateLimiter.Outcome.{Outcome}
use authara.RateLimiter.Memory.{
  InMemoryLimiter, allow_ip, allow, allow_login_attempt, allow_oauth_attempt, allow_signup_attempt,
  allow_password_reset_attempt, allow_passkey_login_attempt, allow_passkey_login_finish_attempt,
  allow_challenge_verify_attempt, allow_challenge_resend_attempt,
}
use authara.RateLimiter.Memory.Maps.{Slot, total_entries}
use authara.RateLimiter.Memory.Access.{Slot-discrete, held, same_entry}
use authara.RateLimiter.Memory.Charges.{Step, allow_ip-Step, allow-Step}

-- The attempts that the limiter is asked about.
pub data Attempt : Type 0 where
  login signup password_reset : Option Text → Text → Attempt
  oauth passkey_login passkey_login_finish challenge_verify challenge_resend : Option Text → Attempt

module _ (lower : ℕ → ℕ) (cfg : LimiterConfig ℕ) where
  unfoldable pub attempt : Attempt → ℕ → InMemoryLimiter → InMemoryLimiter × Outcome
  attempt (login ip email) = allow_login_attempt lower cfg ip email
  attempt (signup ip email) = allow_signup_attempt lower cfg ip email
  attempt (password_reset ip email) = allow_password_reset_attempt lower cfg ip email
  attempt (oauth ip) = allow_oauth_attempt cfg ip
  attempt (passkey_login ip) = allow_passkey_login_attempt cfg ip
  attempt (passkey_login_finish ip) = allow_passkey_login_finish_attempt cfg ip
  attempt (challenge_verify ip) = allow_challenge_verify_attempt cfg ip
  attempt (challenge_resend ip) = allow_challenge_resend_attempt cfg ip

-- The configured limit on the counters of a table.
abbrev pub limit_of : LimiterConfig ℕ → Slot → ℕ
limit_of cfg Slot.login_by_ip = cfg.login_ip_limit
limit_of cfg Slot.login_by_email = cfg.login_email_limit
limit_of cfg Slot.signup_by_ip = cfg.signup_ip_limit
limit_of cfg Slot.signup_by_email = cfg.signup_email_limit
limit_of cfg Slot.password_reset_by_ip = cfg.password_reset_ip_limit
limit_of cfg Slot.password_reset_by_email = cfg.password_reset_email_limit
limit_of cfg Slot.passkey_login_by_ip = cfg.passkey_login_ip_limit
limit_of cfg Slot.passkey_login_finish_by_ip = cfg.passkey_login_ip_limit
limit_of cfg Slot.challenge_verify_by_ip = cfg.challenge_verify_ip_limit
limit_of cfg Slot.challenge_resend_by_ip = cfg.challenge_resend_ip_limit

-- Whether an attempt is counted under a key of a table.
module _ (lower : ℕ → ℕ) (s : Slot) (j : Text) where
  by_address : Slot → Option Text → Bool
  by_address t ip = same_entry t (normalize_ip ip) s j

  by_email : Slot → Text → Bool
  by_email t email = same_entry t (normalize_key lower email) s j

  pub touches : Attempt → Bool
  unfolding by_address by_email
  touches (login ip email) = by_address Slot.login_by_ip ip || by_email Slot.login_by_email email
  touches (signup ip email) = by_address Slot.signup_by_ip ip || by_email Slot.signup_by_email email
  touches (password_reset ip email) =
      by_address Slot.password_reset_by_ip ip || by_email Slot.password_reset_by_email email
  touches (oauth ip) = by_address Slot.login_by_ip ip
  touches (passkey_login ip) = by_address Slot.passkey_login_by_ip ip
  touches (passkey_login_finish ip) = by_address Slot.passkey_login_finish_by_ip ip
  touches (challenge_verify ip) = by_address Slot.challenge_verify_by_ip ip
  touches (challenge_resend ip) = by_address Slot.challenge_resend_by_ip ip

pub same_entry-eq : (s s' : Slot) (k j : Text) → same_entry s k s' j ≡ true → s ≡ s'
same_entry-eq s s' k j = by_slot (Slot-discrete s s')
  where
    by_slot : (d : Dec (s ≡ s')) → elim d [ yes _ ↦ text_eq k j | no _ ↦ false ] ≡ true → s ≡ s'
    by_slot (yes p) q = p
    by_slot (no n) q = cc

-- A step's record, with the limit named by the table.
relimit :
    (cfg : LimiterConfig ℕ) (s : Slot) (j : Text) (c : Counter) (b : Bool) (limit room : ℕ)
    (l : InMemoryLimiter) (r : InMemoryLimiter × Outcome)
    → (b ≡ true → limit ≡ limit_of cfg s)
    → room ≤ 2
    → Step s j c b limit room l r
    → Step s j c b (limit_of cfg s) 2 l r
relimit cfg s j c b limit room l r same small st = record {
  kept = st.kept;
  within = λ p q. ground (arith, st.within p q, same p);
  growth = omega (arith, st.growth);
}

module _ (lower : ℕ → ℕ) (cfg : LimiterConfig ℕ) (s : Slot) (j : Text) (c : Counter) (now : ℕ)
    (l : InMemoryLimiter) where
  by_address-Step :
      (t : Slot) (window : ℕ) (kind : Text) (ip : Option Text)
      → held s j l ≡ some c
      → now < c.reset
      → total_entries l.tables ≤ cfg.max_entries
      → Step s j c
          (same_entry t (normalize_ip ip) s j)
          (limit_of cfg s)
          2
          l
          (allow_ip ip t (limit_of cfg t) window cfg.cleanup_every cfg.max_entries kind now l)
  by_address-Step t window kind ip e h room =
      relimit cfg s j c _ (limit_of cfg t) 1 l _
        (λ q. ap (limit_of cfg) (same_entry-eq t s (normalize_ip ip) j q)) (omega arith)
        (allow_ip-Step ip t _ window cfg.cleanup_every cfg.max_entries kind now l s j c e h room)

  by_both-Step :
      (t u : Slot) (ip_window key_window : ℕ) (kind key_scope : Text) (ip : Option Text)
      (email : Text)
      → t ≢ u
      → held s j l ≡ some c
      → now < c.reset
      → total_entries l.tables ≤ cfg.max_entries
      → Step s j c
          (same_entry t (normalize_ip ip) s j || same_entry u (normalize_key lower email) s j)
          (limit_of cfg s)
          2
          l
          (allow lower ip email t u
            (limit_of cfg t)
            ip_window
            (limit_of cfg u)
            key_window
            cfg.cleanup_every
            cfg.max_entries
            kind
            key_scope
            now
            l)
  by_both-Step t u ip_window key_window kind key_scope ip email n e h room =
      relimit cfg s j c _ _ 2 l _
        (λ q. ground (
          arith,
          ap (limit_of cfg) {x = t} {y = s},
          same_entry-eq t s (normalize_ip ip) j,
          same_entry-eq u s (normalize_key lower email) j,
          ap (limit_of cfg) {x = u} {y = s},
        ))
        (omega arith)
        (allow-Step lower ip email t u _ ip_window _ key_window cfg.cleanup_every cfg.max_entries
          kind key_scope now l s j c n e h room)

  -- While the limiter holds no more entries than its bound, so that the upkeep evicts none, every
  -- attempt counts against each of its counters that is within its window if it is let through, and
  -- otherwise changes none of them; it is let through only if such a counter was below the limit,
  -- and it adds at most two entries.
  pub attempt-Step :
      (a : Attempt)
      → held s j l ≡ some c
      → now < c.reset
      → total_entries l.tables ≤ cfg.max_entries
      → Step s j c (touches lower s j a) (limit_of cfg s) 2 l (attempt lower cfg a now l)
  unfolding attempt touches allow_login_attempt allow_signup_attempt allow_password_reset_attempt
      allow_oauth_attempt allow_passkey_login_attempt allow_passkey_login_finish_attempt
      allow_challenge_verify_attempt allow_challenge_resend_attempt
  attempt-Step (login ip email) =
      by_both-Step Slot.login_by_ip Slot.login_by_email _ _ _ _ ip email (λ p. cc)
  attempt-Step (signup ip email) =
      by_both-Step Slot.signup_by_ip Slot.signup_by_email _ _ _ _ ip email (λ p. cc)
  attempt-Step (password_reset ip email) =
      by_both-Step Slot.password_reset_by_ip Slot.password_reset_by_email _ _ _ _ ip email (λ p. cc)
  attempt-Step (oauth ip) = by_address-Step Slot.login_by_ip _ _ ip
  attempt-Step (passkey_login ip) = by_address-Step Slot.passkey_login_by_ip _ _ ip
  attempt-Step (passkey_login_finish ip) = by_address-Step Slot.passkey_login_finish_by_ip _ _ ip
  attempt-Step (challenge_verify ip) = by_address-Step Slot.challenge_verify_by_ip _ _ ip
  attempt-Step (challenge_resend ip) = by_address-Step Slot.challenge_resend_by_ip _ _ ip

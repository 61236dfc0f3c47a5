-- ===== src/Challenge/Services.antt =====
-- internal/challenge/service.go: what the service is built from, and the checks of its methods.
use authara.Prelude.{
  ℕ, ◌+◌, Option, none, some, Bool, true, false, List, map, ltb, leb, if◌then◌else◌,
}
use authara.Prelude.Text.{Text, text_eq}
use authara.Store.Rows.{EmailTemplate, signup_code, password_reset_code, email_change_code}
use authara.Store.Pending.{
  ChallengePurpose, signup, password_reset, email_change, email_verification, other_purpose,
  Challenge, is_consumed, is_expired, has_attempts_remaining,
}
use authara.Store.Exec.{
  Db, Exec, Result, ok, err, challenge_consumed, challenge_expired, too_many_attempts,
  too_many_resends, resend_too_soon, unsupported_challenge_purpose, writes,
}
use authara.Store.Outbox.{add_email, new_job}
use authara.Session.Token.{Cache}

-- config.ChallengePolicy, of durations that its validation keeps positive.
pub record ChallengePolicy : Type 0 where
  pub ttl : ℕ
  pub verification_code_ttl : ℕ
  pub max_attempts : ℕ
  pub max_resends : ℕ
  pub minimum_resend_interval : ℕ

-- The parts that the program takes from elsewhere, as they behave in one call.
pub record ChallengeServices : Type 0 where
  pub policy : ChallengePolicy
  pub email_verification_required : Bool
  pub allowlist_enabled : Bool
  -- unicode.ToLower, and the code point that stands for all that `strings.EqualFold` equates
  pub lower : ℕ → ℕ
  pub fold : ℕ → ℕ
  -- hex of HMAC-SHA-256 of a code under a secret, and `stableSixDigitCode`
  pub hash_code : Text → Text → Text
  pub stable_code : ℕ → ℕ → Text → Text
  pub secrets : List Text
  pub cache : Cache
  pub clock : ℕ
  -- what other transactions commit while a lock is waited for, before and after the row of a
  -- challenge is locked
  pub others : Db → Db
  pub others_holding : ℕ → Db → Db

-- `strings.EqualFold`.
abbrev pub equal_fold : ChallengeServices → Text → Text → Bool
equal_fold s a b = text_eq (map s.fold a) (map s.fold b)

abbrev pub purpose_eq : ChallengePurpose → ChallengePurpose → Bool
purpose_eq signup signup = true
purpose_eq password_reset password_reset = true
purpose_eq email_change email_change = true
purpose_eq email_verification email_verification = true
purpose_eq (other_purpose a) (other_purpose b) = text_eq a b
purpose_eq _ _ = false

unfoldable pub email_template_for_purpose : ChallengePurpose → Result EmailTemplate
email_template_for_purpose signup = ok signup_code
email_template_for_purpose password_reset = ok password_reset_code
email_template_for_purpose email_change = ok email_change_code
email_template_for_purpose email_verification = ok email_change_code
email_template_for_purpose (other_purpose p) = err unsupported_challenge_purpose

unfoldable pub validate_challenge_for_verify : Challenge → ℕ → Result (Unit {0})
validate_challenge_for_verify c now =
    if is_consumed c
    then err challenge_consumed
    else if is_expired c now
    then err challenge_expired
    else if has_attempts_remaining c
    then ok tt
    else err too_many_attempts

abbrev pub resend_interval : Challenge → ℕ → ℕ
resend_interval c legacy = elim c.minimum_resend_interval [ none ↦ legacy | some i ↦ i ]

-- `LastSentAt != nil && now.Before(LastSentAt.Add(interval))`
abbrev pub is_too_soon : Option ℕ → ℕ → ℕ → Bool
is_too_soon none interval now = false
is_too_soon (some at) interval now = ltb now (at + interval)

unfoldable pub validate_challenge_for_resend : Challenge → ℕ → ℕ → Result (Unit {0})
validate_challenge_for_resend c now legacy =
    if is_consumed c
    then err challenge_consumed
    else if is_expired c now
    then err challenge_expired
    else if leb c.max_resends c.resend_count
    then err too_many_resends
    else if is_too_soon c.last_sent_at (resend_interval c legacy) now
    then err resend_too_soon
    else ok tt

unfoldable pub enqueue_challenge_email : ℕ → Text → EmailTemplate → ℕ → ℕ → Exec (Unit {0})
enqueue_challenge_email challenge_id to_email template now delivery_deadline =
    writes (add_email (new_job (some challenge_id) to_email template now delivery_deadline))

-- A closure's `resultErr`: the transaction commits, and the method returns the error.
abbrev pub flattened : {A : Type 0} → Result (Result A) → Result A
flattened (ok r) = r
flattened (err e) = err e

unfoldable pub returning : {A : Type 0} → Exec (Result A) → Exec A
returning m w = let (r, w') = m w in (flattened r, w')

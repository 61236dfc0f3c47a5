-- ===== src/Store/Pending.antt =====
-- internal/domain: challenges, the actions that wait for them, and the credentials that these change.
use authara.Prelude.{ℕ, Option, Bool, is_some, not, ◌&&◌, ltb}
use authara.Prelude.Text.{Text}
use authara.Store.Rows.{AuthenticationMethod}

pub data ChallengePurpose : Type 0 where
  signup password_reset email_change email_verification : ChallengePurpose
  other_purpose : Text → ChallengePurpose

-- `minimum_resend_interval` is `none` where HasMinimumResendInterval is false.
pub record Challenge : Type 0 where
  pub id : ℕ
  pub expires_at : ℕ
  pub consumed_at : Option ℕ
  pub purpose : ChallengePurpose
  pub email : Text
  pub attempt_count : ℕ
  pub max_attempts : ℕ
  pub resend_count : ℕ
  pub max_resends : ℕ
  pub last_sent_at : Option ℕ
  pub minimum_resend_interval : Option ℕ

-- `Challenge.IsConsumed`, `IsExpired` and `HasAttemptsRemaining`.
abbrev pub is_consumed : Challenge → Bool
is_consumed c = is_some c.consumed_at

abbrev pub is_expired : Challenge → ℕ → Bool
is_expired c now = ltb c.expires_at now

abbrev pub has_attempts_remaining : Challenge → Bool
has_attempts_remaining c = ltb c.attempt_count c.max_attempts

pub record VerificationCode : Type 0 where
  pub challenge_id : ℕ
  pub expires_at : ℕ
  pub code_hash : Text

pub record PendingSignupAction : Type 0 where
  pub challenge_id : ℕ
  pub email : Text
  pub username : Text
  pub password_hash : Text
  pub invitation_id : Option ℕ

pub record PendingPasswordReset : Type 0 where
  pub challenge_id : ℕ
  pub user_id : ℕ
  pub password_hash : Text

pub record PendingEmailChange : Type 0 where
  pub challenge_id : ℕ
  pub user_id : ℕ
  pub initiating_session_id : ℕ
  pub old_email : Text
  pub new_email : Text

pub record EmailVerificationTransaction : Type 0 where
  pub id : ℕ
  pub user_id : ℕ
  pub original_session_id : ℕ
  pub audience : Text
  pub authentication_method : Option AuthenticationMethod
  pub return_to : Text
  pub expires_at : ℕ
  pub consumed_at : Option ℕ
  pub challenge_id : Option ℕ
  pub target_email : Option Text

-- `EmailVerificationTransaction.IsActive`.
abbrev pub is_active_transaction : EmailVerificationTransaction → ℕ → Bool
is_active_transaction t now = not (is_some t.consumed_at) && ltb now t.expires_at

pub data Provider : Type 0 where
  by_password by_google by_apple by_microsoft : Provider

pub record AuthProvider : Type 0 where
  pub user_id : ℕ
  pub provider : Provider
  pub provider_user_id : Option Text
  pub password_hash : Option Text

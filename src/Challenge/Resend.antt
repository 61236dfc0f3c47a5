-- ===== src/Challenge/Resend.antt =====
-- internal/challenge/service.go: a code is sent again.
use authara.Prelude.{ℕ, ◌==◌, Option, none, some, Bool, true, false, if◌then◌else◌}
use authara.Store.Pending.{
  ChallengePurpose, signup, password_reset, email_change, email_verification, other_purpose,
  Challenge,
}
use authara.Store.Exec.{
  Db, Exec, Result, ok, err, Error, challenge_consumed, too_many_resends, user_not_found, pure,
  raise, lift, reads, inserts, waits, catch, with_transaction, ◌>>=◌, ◌>>◌,
}
use authara.Store.Users.{lock_user}
use authara.Store.Challenges.{
  get_challenge_by_id, increment_challenge_resend_count, get_pending_password_reset_by_challenge_id,
  get_pending_email_change_by_challenge_id, get_email_verification_transaction_by_challenge_id,
}
use authara.Challenge.Services.{
  ChallengeServices, validate_challenge_for_resend, email_template_for_purpose,
  enqueue_challenge_email, returning,
}
use authara.Challenge.Verify.{as_lock}

abbrev guarded : {A : Type 0} → (A → ℕ) → Result A → Result (Option ℕ)
guarded user_of (ok a) = ok (some (user_of a))
guarded user_of (err e) = err challenge_consumed

-- The user whom the waiting action is about, none where no user guards it.
abbrev pending_user : ChallengePurpose → ℕ → Db → Result (Option ℕ)
pending_user password_reset id d =
    guarded (λ a. a.user_id) (get_pending_password_reset_by_challenge_id id d)
pending_user email_change id d =
    guarded (λ a. a.user_id) (get_pending_email_change_by_challenge_id id d)
pending_user email_verification id d =
    guarded (λ t. t.user_id) (get_email_verification_transaction_by_challenge_id id d)
pending_user signup id d = ok none
pending_user (other_purpose p) id d = ok none

unfoldable pub pending_action_user_id : Challenge → Db → Result (Option ℕ)
pending_action_user_id c d = pending_user c.purpose c.id d

abbrev pub is_user_not_found : Error → Bool
is_user_not_found user_not_found = true
is_user_not_found e = false

abbrev pub is_challenge_consumed : Error → Bool
is_challenge_consumed challenge_consumed = true
is_challenge_consumed e = false

abbrev is_same : ℕ → Option ℕ → Bool
is_same user_id none = false
is_same user_id (some id) = id == user_id

module _ (s : ChallengeServices) where
  abbrev pub lock_guard : Challenge → Option ℕ → Exec (Unit {0})
  lock_guard c none = pure tt
  lock_guard c (some user_id) = do
    catch (waits (s.others_holding c.id) (lock_user user_id)) (λ _. pure tt)
        (λ e. if is_user_not_found e then raise challenge_consumed else raise e)
    current ← reads (pending_action_user_id c)
    if is_same user_id current then pure tt else raise challenge_consumed

  unfoldable pub lock_pending_action_for_resend : Challenge → Exec (Unit {0})
  lock_pending_action_for_resend c = do guard ← reads (pending_action_user_id c); lock_guard c guard

  unfoldable pub send_again : Challenge → ℕ → Exec (Result (Unit {0}))
  send_again c now = do
    counted ← inserts (increment_challenge_resend_count c.id now)
    if counted
        then (do
          template ← lift (email_template_for_purpose c.purpose)
          enqueue_challenge_email c.id c.email template now c.expires_at
          pure (ok tt))
        else pure (err too_many_resends)

  abbrev pub resendable : Challenge → ℕ → Result (Unit {0}) → Exec (Result (Unit {0}))
  resendable c now (err e) = pure (err e)
  resendable c now (ok _) =
      catch (lock_pending_action_for_resend c) (λ _. send_again c now)
        (λ e. if is_challenge_consumed e then pure (err e) else raise e)

  unfoldable pub resend_body : ℕ → ℕ → Exec (Result (Unit {0}))
  unfolding lock_pending_action_for_resend send_again
  resend_body challenge_id now = do
    waits s.others (λ d. as_lock (get_challenge_by_id challenge_id d))
    c ← reads (get_challenge_by_id challenge_id)
    resendable c now (validate_challenge_for_resend c now s.policy.minimum_resend_interval)

  unfoldable pub resend_challenge : ℕ → ℕ → Exec (Unit {0})
  unfolding resend_body with_transaction returning
  resend_challenge challenge_id now = returning (with_transaction (resend_body challenge_id now))

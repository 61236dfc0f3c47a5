-- ===== src/Challenge/Reports.antt =====
-- internal/challenge: what is done for a right code does not report a wrong one.
use authara.Prelude.{Option, none, some, ℕ, ◌≡◌, refl, arith}
use authara.Prelude.Text.{Text}
use authara.Store.Rows.{User, EmailTemplate, SecurityEvent, WebhookEvent}
use authara.Store.Pending.{
  EmailVerificationTransaction, Challenge, PendingSignupAction, PendingPasswordReset,
  PendingEmailChange,
}
use authara.Store.Exec.{Db, Scope, Exec, reads, ◌>>=◌}
use authara.Store.Challenges.{
  get_pending_signup_action_by_challenge_id, update_user_email_verified_if_current,
  delete_allowed_email,
}
use authara.Store.Outbox.{enqueue, publish, record_event}
use authara.Session.Token.{Cache, absent, unreachable, reachable, revoke_scope}
use authara.Challenge.Right.{is_wrong, Right, right_rules, Right-pure, Right-raise, Right-writes}
use authara.Challenge.Services.{ChallengeServices}
use authara.Challenge.PasswordReset.{
  require_password_reset_eligibility, execute_password_reset, complete_reset,
}
use authara.Store.Verifications.{consume_email_verification_transaction}
use authara.Challenge.EmailVerification.{
  with_target, move_listed, authorize_verification, execute_verification,
}
use authara.Challenge.EmailChange.{
  require_active_email_change_session, authorize_change, execute_email_change, change_user_address,
  in_use,
}

enqueue-Right : (to : Text) (t : EmailTemplate) (now : ℕ) → Right (enqueue to t now)
unfolding enqueue
enqueue-Right to t now = search right_rules depth 30

revoke_scope-Right : (c : Cache) (scope : Scope) (at : ℕ) → Right (revoke_scope c scope at)
unfolding revoke_scope
revoke_scope-Right absent scope at = Right-pure tt
revoke_scope-Right unreachable scope at = Right-raise _ refl
revoke_scope-Right reachable scope at = record { at = λ w. refl }

event-Right : (e : SecurityEvent) → Right (record_event e)
event-Right e = Right-writes _

publish-Right : (e : WebhookEvent) → Right (publish e)
publish-Right e = Right-writes _

module _ (s : ChallengeServices) where
  require_eligibility-Right :
      (user_id : ℕ) (email : Text) → Right (require_password_reset_eligibility s user_id email)
  unfolding require_password_reset_eligibility
  require_eligibility-Right user_id email = search right_rules depth 40

  execute_reset-Right :
      (user : User) (action : PendingPasswordReset) (now at : ℕ)
      → Right (execute_password_reset s user action now at)
  unfolding execute_password_reset
  execute_reset-Right user action now at =
      search (right_rules, revoke_scope-Right, enqueue-Right) depth 40

  pub complete_reset-Right : (c : Challenge) (now : ℕ) → Right (complete_reset s c now)
  unfolding complete_reset
  complete_reset-Right c now =
      search (right_rules, require_eligibility-Right, execute_reset-Right) depth 40

  pub authorize-Right :
      (user_id session_id now : ℕ) (c : Challenge)
      → Right (authorize_change s user_id session_id now c)
  unfolding authorize_change require_active_email_change_session
  authorize-Right user_id session_id now c = search right_rules depth 50

  in_use-right :
      (user_id : ℕ) (old new : Text) (now : ℕ) (d : Db)
      → is_wrong (in_use s (update_user_email_verified_if_current s.lower user_id old new now d))
        ≡ 0
  unfolding update_user_email_verified_if_current
  in_use-right user_id old new now d = ground arith

  change_address-Right :
      (user_id : ℕ) (old new : Text) (now : ℕ) → Right (change_user_address s user_id old new now)
  change_address-Right user_id old new now = search (right_rules, in_use-right) depth 40

  delete_allowed-right : (email : Text) (d : Db) → is_wrong (delete_allowed_email email d) ≡ 0
  unfolding delete_allowed_email
  delete_allowed-right email d = ground arith

  pub execute_change-Right :
      (action : PendingEmailChange) (now : ℕ) → Right (execute_email_change s action now)
  unfolding execute_email_change
  execute_change-Right action now =
      search (right_rules, change_address-Right, delete_allowed-right, enqueue-Right) depth 50

  move_listed-Right : (old new : Text) → Right (move_listed s old new)
  unfolding delete_allowed_email
  move_listed-Right old new = record { at = λ w. ground arith }

  consume_transaction-right :
      (id now : ℕ) (d : Db) → is_wrong (consume_email_verification_transaction id now d) ≡ 0
  unfolding consume_email_verification_transaction
  consume_transaction-right id now d = ground arith

  pub execute_verification-Right :
      (t : EmailVerificationTransaction) (target : Text) (user : User) (now : ℕ)
      → Right (execute_verification s (t, target, user) now)
  unfolding execute_verification
  execute_verification-Right t target user now =
      search
        (
          right_rules, change_address-Right, move_listed-Right, consume_transaction-right,
          publish-Right,
        )
        depth 50

  with_target-Right :
      (t : EmailVerificationTransaction) (o : Option Text) → Right (with_target s t o)
  with_target-Right t none = Right-raise _ refl
  with_target-Right t (some target) = Right-pure target

  pub authorize_verification-Right :
      (transaction_id now : ℕ) (c : Challenge)
      → Right (authorize_verification s transaction_id now c)
  unfolding authorize_verification
  authorize_verification-Right transaction_id now c =
      search (right_rules, with_target-Right) depth 50

missing-right : (id : ℕ) (d : Db) → is_wrong (get_pending_signup_action_by_challenge_id id d) ≡ 0
unfolding get_pending_signup_action_by_challenge_id
missing-right id d = ground arith

pub signup-Right :
    (complete : PendingSignupAction → Exec (Unit {0}))
    → ((a : PendingSignupAction) → Right (complete a))
    → (id : ℕ)
    → Right (do action ← reads (get_pending_signup_action_by_challenge_id id); complete action)
signup-Right complete right id = search (right_rules, missing-right, right) depth 20

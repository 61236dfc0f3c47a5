-- ===== src/Challenge/Closures.antt =====
-- internal/challenge: what the actions behind a code leave alone.
use authara.Prelude.{ℕ, ◌≡◌, refl, Option, none, some, Bool, arith}
use authara.Prelude.Text.{Text}
use authara.Store.Rows.{User, EmailJob, EmailTemplate, SecurityEvent, WebhookEvent}
use authara.Store.Pending.{
  Challenge, PendingPasswordReset, PendingEmailChange, EmailVerificationTransaction,
}
use authara.Store.Exec.{
  Db, Scope, World, Result, ok, err, or_else, inserts, continue, password_reset_unavailable,
}
use authara.Store.Keeps.{
  Both, Keeps, keeps_rules, Keeps-pure, Keeps-raise, Keeps-writes, Keeps-updates, Keeps-waits,
  Keeps-inserts,
}
use authara.Store.Sessions.{revoke_all_sessions_for_user}
use authara.Store.Challenges.{
  update_password_hash, delete_pending_password_resets_by_user_id,
  delete_pending_email_changes_by_user_id, delete_allowed_email, ensure_allowed_email,
  update_user_email_verified_if_current,
}
use authara.Store.Outbox.{add_email, enqueue, publish, record_event}
use authara.Session.Token.{Cache, absent, unreachable, reachable, revoke_scope}
use authara.Challenge.Services.{ChallengeServices}
use authara.Challenge.EmailChange.{
  require_active_email_change_session, authorize_change, execute_email_change, change_user_address,
  in_use,
}
use authara.Store.Verifications.{mark_user_email_verified, consume_email_verification_transaction}
use authara.Challenge.EmailVerification.{with_target, authorize_verification, execute_verification}
use authara.Challenge.PasswordReset.{
  require_password_reset_eligibility, execute_password_reset, complete_reset,
}

-- What a table's statement does to the challenges.
module _ {P : Db → Type 0} (leaves : (d d' : Db) → d'.challenges ≡ d.challenges → P d → P d') where
  pub add_email-leaves : (job : EmailJob) (d : Db) → P d → P (add_email job d)
  add_email-leaves job d = leaves d (add_email job d) (ground arith)

  pub enqueue-leaves : (to : Text) (t : EmailTemplate) (now : ℕ) → Keeps P (enqueue to t now)
  unfolding enqueue
  enqueue-leaves to t now = search (keeps_rules, Keeps-writes, add_email-leaves) depth 30

  pub publish-leaves : (e : WebhookEvent) → Keeps P (publish e)
  publish-leaves e = Keeps-writes _ (λ d. leaves d _ refl)

  pub event-leaves : (e : SecurityEvent) → Keeps P (record_event e)
  event-leaves e = Keeps-writes _ (λ d. leaves d _ refl)

  pub revoke_scope-leaves : (c : Cache) (scope : Scope) (at : ℕ) → Keeps P (revoke_scope c scope at)
  unfolding revoke_scope
  revoke_scope-leaves absent scope at = Keeps-pure tt
  revoke_scope-leaves unreachable scope at = Keeps-raise _
  revoke_scope-leaves reachable scope at = record { at = λ w h. h }

  pub revoke_all-leaves :
      (user_id at : ℕ) (d : Db) → P d → P (revoke_all_sessions_for_user user_id at d)
  unfolding revoke_all_sessions_for_user
  revoke_all-leaves user_id at d = leaves d _ refl

  pub delete_resets-leaves :
      (user_id : ℕ) (d : Db) → P d → P (delete_pending_password_resets_by_user_id user_id d)
  unfolding delete_pending_password_resets_by_user_id
  delete_resets-leaves user_id d = leaves d _ refl

  pub delete_changes-leaves :
      (user_id : ℕ) (d : Db) → P d → P (delete_pending_email_changes_by_user_id user_id d)
  unfolding delete_pending_email_changes_by_user_id
  delete_changes-leaves user_id d = leaves d _ refl

  module _ (s : ChallengeServices) where
    require_eligibility-leaves :
        (user_id : ℕ) (email : Text) → Keeps P (require_password_reset_eligibility s user_id email)
    unfolding require_password_reset_eligibility
    require_eligibility-leaves user_id email = search keeps_rules depth 30

    update_password-leaves :
        (user_id : ℕ) (hash : Text) (d d' : Db)
        → or_else (update_password_hash user_id hash d) password_reset_unavailable ≡ ok d'
        → P d
        → P d'
    unfolding update_password_hash
    update_password-leaves user_id hash d d' e = leaves d d' (ground (arith, e))

    execute_reset-leaves :
        (user : User) (action : PendingPasswordReset) (now at : ℕ)
        → Keeps P (execute_password_reset s user action now at)
    unfolding execute_password_reset
    execute_reset-leaves user action now at =
        search
          (
            keeps_rules, Keeps-writes, Keeps-updates, update_password-leaves, revoke_scope-leaves,
            revoke_all-leaves, delete_resets-leaves, enqueue-leaves, event-leaves,
          )
          depth 40

    pub complete_reset-leaves :
        ((i : ℕ) (d : Db) → P d → P (s.others_holding i d))
        → (c : Challenge) (now : ℕ) → Keeps P (complete_reset s c now)
    unfolding complete_reset
    complete_reset-leaves rely c now =
        search
          (keeps_rules, Keeps-waits, rely c.id, require_eligibility-leaves, execute_reset-leaves)
          depth 40

    update_email-leaves :
        (user_id : ℕ) (old new : Text) (now : ℕ) (b : Bool) (d d' : Db)
        → update_user_email_verified_if_current s.lower user_id old new now d ≡ ok (b, d')
        → P d
        → P d'
    unfolding update_user_email_verified_if_current
    update_email-leaves user_id old new now b d d' e = leaves d d' (ground (arith, e))

    change_address-leaves :
        (user_id : ℕ) (old new : Text) (now : ℕ)
        → Keeps P (change_user_address s user_id old new now)
    change_address-leaves user_id old new now = record {
      at = λ w h.
          by_result (update_user_email_verified_if_current s.lower user_id old new now w.db) w refl
            h;
    }
      where
        by_result :
            (r : Result (Bool × Db)) (w : World)
            → update_user_email_verified_if_current s.lower user_id old new now w.db ≡ r
            → Both P w
            → Both P (continue (in_use s r) (λ x. inserts (λ _. x)) w).1
        by_result (ok (b, d)) w e h = (h.0, update_email-leaves _ _ _ _ b w.db d e h.1)
        by_result (err e) w e' h = h

    delete_allowed-leaves :
        (email : Text) (d d' : Db) → delete_allowed_email email d ≡ ok d' → P d → P d'
    unfolding delete_allowed_email
    delete_allowed-leaves email d d' e = leaves d d' (ground (arith, e))

    ensure_allowed-leaves : (email : Text) (d : Db) → P d → P (ensure_allowed_email s.lower email d)
    unfolding ensure_allowed_email
    ensure_allowed-leaves email d = leaves d (ensure_allowed_email s.lower email d) (ground arith)

    pub execute_change-leaves :
        (action : PendingEmailChange) (now : ℕ) → Keeps P (execute_email_change s action now)
    unfolding execute_email_change
    execute_change-leaves action now =
        search
          (
            keeps_rules, Keeps-writes, Keeps-updates, change_address-leaves, delete_allowed-leaves,
            ensure_allowed-leaves, delete_resets-leaves, delete_changes-leaves, enqueue-leaves,
            publish-leaves, event-leaves,
          )
          depth 50

    pub authorize-leaves :
        (user_id session_id now : ℕ) (c : Challenge)
        → ((d : Db) → P d → P (s.others_holding c.id d))
        → Keeps P (authorize_change s user_id session_id now c)
    unfolding authorize_change require_active_email_change_session
    authorize-leaves user_id session_id now c rely =
        search (keeps_rules, Keeps-waits, rely) depth 50

    mark_verified-leaves :
        (user_id : ℕ) (email : Text) (now : ℕ) (d : Db)
        → P d
        → P (mark_user_email_verified s.lower user_id email now d).1
    unfolding mark_user_email_verified
    mark_verified-leaves user_id email now d = leaves d _ refl

    consume_transaction-leaves :
        (id now : ℕ) (d d' : Db)
        → consume_email_verification_transaction id now d ≡ ok d'
        → P d
        → P d'
    unfolding consume_email_verification_transaction
    consume_transaction-leaves id now d d' e = leaves d d' (ground (arith, e))

    pub execute_verification-leaves :
        (t : EmailVerificationTransaction) (target : Text) (user : User) (now : ℕ)
        → Keeps P (execute_verification s (t, target, user) now)
    unfolding execute_verification
    execute_verification-leaves t target user now =
        search
          (
            keeps_rules, Keeps-writes, Keeps-updates, Keeps-inserts, change_address-leaves,
            mark_verified-leaves, delete_allowed-leaves, ensure_allowed-leaves,
            consume_transaction-leaves, publish-leaves,
          )
          depth 50

    with_target-leaves :
        (t : EmailVerificationTransaction) (o : Option Text) → Keeps P (with_target s t o)
    with_target-leaves t none = Keeps-raise _
    with_target-leaves t (some target) = Keeps-pure target

    pub authorize_verification-leaves :
        (transaction_id now : ℕ) (c : Challenge)
        → ((d : Db) → P d → P (s.others_holding c.id d))
        → Keeps P (authorize_verification s transaction_id now c)
    unfolding authorize_verification
    authorize_verification-leaves transaction_id now c rely =
        search (keeps_rules, Keeps-waits, rely, with_target-leaves) depth 50

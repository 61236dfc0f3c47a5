-- ===== src/Challenge/EmailChange.antt =====
-- internal/challenge/email_change.go: a user takes another address.
use authara.Prelude.{ℕ, ◌==◌, none, some, Bool, true, false, ◌&&◌, is_some, if◌then◌else◌}
use authara.Prelude.Text.{Text, trim_space}
use authara.Store.Rows.{
  User, SecurityEvent, success, user_actor, account_email_changed, email_changed_old_address,
  email_changed_new_address, user_updated,
}
use authara.Store.Pending.{email_change, Challenge, PendingEmailChange}
use authara.Store.Exec.{
  Db, Exec, Result, ok, err, Error, email_change_not_authorized, email_already_in_use,
  unique_violation, pure, raise, reads, writes, updates, inserts, waits, waits_late, or_else, ◌>>=◌,
  ◌>>◌,
}
use authara.Store.Users.{get_user_by_id}
use authara.Store.Sessions.{get_active_session_by_id}
use authara.Store.Challenges.{
  create_pending_email_change, get_pending_email_change_by_challenge_id,
  delete_pending_email_changes_by_user_id, delete_pending_password_resets_by_user_id,
  update_user_email_verified_if_current, delete_allowed_email, ensure_allowed_email,
}
use authara.Store.Outbox.{enqueue, publish, record_event}
use authara.Challenge.Services.{ChallengeServices, equal_fold}
use authara.Challenge.Create.{create_challenge_for}
use authara.Challenge.Verify.{as_lock, verify_challenge}

-- `store.IsUniqueViolation`.
abbrev is_unique_violation : Error → Bool
is_unique_violation unique_violation = true
is_unique_violation e = false

module _ (s : ChallengeServices) where
  unfoldable pub same_email : Text → Text → Bool
  same_email a b = equal_fold s (trim_space a) (trim_space b)

  -- `lock` is how the caller waits for a row: before or after its first write.
  unfoldable pub require_active_email_change_session :
      ((Db → Result (Unit {0})) → Exec (Unit {0})) → ℕ → ℕ → ℕ → Exec User
  require_active_email_change_session lock user_id session_id now = do
    lock (λ d. or_else (as_lock (get_user_by_id user_id d)) email_change_not_authorized)
    user ← reads (λ d. or_else (get_user_by_id user_id d) email_change_not_authorized)
    if is_some user.disabled_at then raise email_change_not_authorized else pure tt
    lock (λ d.
        or_else (as_lock (get_active_session_by_id session_id now d)) email_change_not_authorized)
    session ←
        reads (λ d. or_else (get_active_session_by_id session_id now d) email_change_not_authorized)
    if session.user_id == user_id then pure user else raise email_change_not_authorized

  abbrev await_change : ℕ → ℕ → Text → Text → ℕ → Challenge → Exec (Unit {0})
  await_change user_id session_id old_email new_email now c = do
    user ←
        require_active_email_change_session (waits_late (s.others_holding c.id)) user_id session_id
          now
    if same_email user.email old_email then pure tt else raise email_change_not_authorized
    writes (
        create_pending_email_change s.lower (record {
          challenge_id = c.id;
          user_id = user_id;
          initiating_session_id = session_id;
          old_email = user.email;
          new_email = new_email;
        }))

  unfoldable pub create_email_change_challenge : ℕ → ℕ → Text → Text → ℕ → Exec ℕ
  unfolding create_challenge_for require_active_email_change_session same_email
  create_email_change_challenge user_id session_id old_email new_email now =
      create_challenge_for s email_change new_email now
        (await_change user_id session_id old_email new_email now)

  abbrev pub changed_event : PendingEmailChange → SecurityEvent
  changed_event action = record {
    kind = account_email_changed;
    outcome = success;
    reason_code = none;
    actor_type = user_actor;
    actor_user_id = some action.user_id;
    user_id = some action.user_id;
    session_id = some action.initiating_session_id;
    organization_id = none;
    passkey_id = none;
    authentication_method = none;
  }

  -- The old address leaves the list of those who may sign in, and the new one joins it.
  abbrev pub move_allowance : PendingEmailChange → Exec (Unit {0})
  move_allowance action =
      if s.allowlist_enabled
      then (do
        updates (delete_allowed_email action.old_email)
        writes (ensure_allowed_email s.lower action.new_email))
      else pure tt

  abbrev pub in_use : Result (Bool × Db) → Result (Bool × Db)
  in_use (ok r) = ok r
  in_use (err e) = err (if is_unique_violation e then email_already_in_use else e)

  -- The statement, with whether it affected a row.
  abbrev pub change_user_address : ℕ → Text → Text → ℕ → Exec Bool
  change_user_address user_id old_email new_email now = do
    r ← reads (λ d.
        in_use (update_user_email_verified_if_current s.lower user_id old_email new_email now d))
    inserts (λ _. r)

  abbrev pub change_address : PendingEmailChange → ℕ → Exec Bool
  change_address action now =
      change_user_address action.user_id action.old_email action.new_email now

  unfoldable pub execute_email_change : PendingEmailChange → ℕ → Exec (Unit {0})
  execute_email_change action now = do
    changed ← change_address action now
    if changed then pure tt else raise email_change_not_authorized
    move_allowance action
    writes (delete_pending_email_changes_by_user_id action.user_id)
    writes (delete_pending_password_resets_by_user_id action.user_id)
    enqueue action.old_email email_changed_old_address now
    enqueue action.new_email email_changed_new_address now
    publish (user_updated action.user_id)
    record_event (changed_event action)

  -- The session that began the change is active, and is the caller's.
  unfoldable pub authorize_change : ℕ → ℕ → ℕ → Challenge → Exec PendingEmailChange
  unfolding require_active_email_change_session same_email
  authorize_change user_id session_id now c = do
    user ←
        require_active_email_change_session (waits (s.others_holding c.id)) user_id session_id now
    waits (s.others_holding c.id) (λ d.
        or_else (as_lock (get_pending_email_change_by_challenge_id c.id d))
          email_change_not_authorized)
    action ←
        reads (λ d.
          or_else (get_pending_email_change_by_challenge_id c.id d) email_change_not_authorized)
    if action.user_id == user_id
          && action.initiating_session_id == session_id
          && same_email user.email action.old_email
        then pure action
        else raise email_change_not_authorized

  unfoldable pub complete_email_change_challenge : ℕ → ℕ → ℕ → Text → ℕ → Exec Challenge
  unfolding verify_challenge authorize_change execute_email_change
  complete_email_change_challenge challenge_id user_id session_id code now =
      verify_challenge s challenge_id email_change code now
        (authorize_change user_id session_id now) (λ action. execute_email_change action now)

-- ===== src/Challenge/PasswordReset.antt =====
-- internal/challenge/password_reset.go: a forgotten password is replaced.
use authara.Prelude.{
  ℕ, Option, none, some, Bool, true, false, not, ◌&&◌, is_some, ltb, if◌then◌else◌,
}
use authara.Prelude.Text.{Text, trim_space, is_empty}
use authara.Store.Rows.{
  User, SecurityEvent, success, anonymous_actor, credential_password_reset, password_changed,
}
use authara.Store.Pending.{password_reset, Challenge, PendingPasswordReset, by_password}
use authara.Store.Exec.{
  Db, Exec, Result, Error, user_scope, password_reset_unavailable, pure, raise, reads, writes,
  updates, waits, waits_late, or_else, catch, ◌>>=◌, ◌>>◌,
}
use authara.Store.Users.{get_user_by_id, lock_user}
use authara.Store.Sessions.{revoke_all_sessions_for_user}
use authara.Store.Challenges.{
  get_pending_password_reset_by_challenge_id, create_pending_password_reset,
  delete_pending_password_resets_by_user_id, get_auth_provider_by_method_and_user_id,
  update_password_hash,
}
use authara.Store.Outbox.{enqueue, record_event}
use authara.Session.Token.{revoke_scope}
use authara.Challenge.Services.{ChallengeServices, equal_fold}
use authara.Challenge.Create.{create_challenge_for, create_opaque_challenge}
use authara.Challenge.Verify.{verify_challenge}

-- `PasswordHash == nil || strings.TrimSpace(*PasswordHash) == ""`, the other way round.
abbrev has_password : Option Text → Bool
has_password none = false
has_password (some hash) = not (is_empty (trim_space hash))

abbrev is_unavailable : Error → Bool
is_unavailable password_reset_unavailable = true
is_unavailable e = false

module _ (s : ChallengeServices) where
  -- Of the errors of the store only those that the code replaces can arise here.
  unfoldable pub require_password_reset_eligibility : ℕ → Text → Exec User
  require_password_reset_eligibility user_id challenge_email = do
    user ← reads (λ d. or_else (get_user_by_id user_id d) password_reset_unavailable)
    if equal_fold s (trim_space user.email) (trim_space challenge_email)
          && not (s.email_verification_required && not (is_some user.email_verified_at))
        then pure tt
        else raise password_reset_unavailable
    provider ← reads (λ d.
        or_else (get_auth_provider_by_method_and_user_id by_password user_id d)
          password_reset_unavailable)
    if has_password provider.password_hash then pure user else raise password_reset_unavailable

  abbrev pub reset_event : ℕ → SecurityEvent
  reset_event user_id = record {
    kind = credential_password_reset;
    outcome = success;
    reason_code = none;
    actor_type = anonymous_actor;
    actor_user_id = none;
    user_id = some user_id;
    session_id = none;
    organization_id = none;
    passkey_id = none;
    authentication_method = none;
  }

  unfoldable pub execute_password_reset : User → PendingPasswordReset → ℕ → ℕ → Exec (Unit {0})
  execute_password_reset user action now marker_at = do
    updates (λ d.
        or_else (update_password_hash action.user_id action.password_hash d)
          password_reset_unavailable)
    revoke_scope s.cache (user_scope action.user_id) marker_at
    writes (revoke_all_sessions_for_user action.user_id now)
    writes (delete_pending_password_resets_by_user_id action.user_id)
    enqueue user.email password_changed now
    record_event (reset_event action.user_id)

  -- The later of the clock's time and the caller's.
  abbrev pub marker : ℕ → ℕ
  marker now = if ltb s.clock now then now else s.clock

  abbrev pub pending_reset : ℕ → Db → Result PendingPasswordReset
  pending_reset challenge_id d =
      or_else (get_pending_password_reset_by_challenge_id challenge_id d) password_reset_unavailable

  -- The action is read again when the user is locked: it may have been withdrawn meanwhile.
  unfoldable pub complete_reset : Challenge → ℕ → Exec (Unit {0})
  unfolding execute_password_reset
  complete_reset c now = do
    action₀ ← reads (pending_reset c.id)
    waits (s.others_holding c.id)
        (λ d. or_else (lock_user action₀.user_id d) password_reset_unavailable)
    action ← reads (pending_reset c.id)
    user ← require_password_reset_eligibility action.user_id c.email
    execute_password_reset user action now (marker now)

  unfoldable pub complete_password_reset_challenge : ℕ → Text → ℕ → Exec Challenge
  unfolding verify_challenge complete_reset
  complete_password_reset_challenge challenge_id code now =
      verify_challenge s challenge_id password_reset code now (λ c. pure c)
        (λ c. complete_reset c now)

  abbrev await_reset : ℕ → Text → Text → Challenge → Exec (Unit {0})
  await_reset user_id email password_hash c = do
    waits_late (s.others_holding c.id)
        (λ d. or_else (lock_user user_id d) password_reset_unavailable)
    _ ← require_password_reset_eligibility user_id email
    writes (
        create_pending_password_reset
          (record { challenge_id = c.id; user_id = user_id; password_hash = password_hash }))

  unfoldable pub create_password_reset_challenge : ℕ → Text → Text → ℕ → Exec ℕ
  unfolding create_challenge_for create_opaque_challenge require_password_reset_eligibility
  create_password_reset_challenge user_id email password_hash now =
      catch
        (create_challenge_for s password_reset email now (await_reset user_id email password_hash))
        (λ id. pure id)
        (λ e.
          if is_unavailable e then create_opaque_challenge s now password_reset email else raise e)

-- ===== src/Session/Revocation.antt =====
-- internal/session/service.go: log-out, the revocation of sessions, and their listing.
pub mod Effects
pub mod Listing
use authara.Prelude.{
  ℕ, ◌==◌, Option, none, some, Bool, true, false, List, [], ◌∷◌, ltb, if◌then◌else◌,
}
use authara.Prelude.Text.{Text}
use authara.Store.Rows.{
  Session, SecurityEvent, EventKind, session_logout, session_revoked, Reason, user_requested,
  security_containment, success, ActorType, user_actor, system_actor,
}
use authara.Store.Exec.{
  Db, Exec, ok, forbidden, session_scope, user_scope, pure, raise, reads, writes, waits, catch,
  with_transaction, ◌>>=◌, ◌>>◌,
}
use authara.Store.Users.{lock_user}
use authara.Store.Sessions.{
  get_session_by_id, get_refresh_token_by_hash, revoke_session, revoke_all_sessions_for_user,
  revoke_other_sessions_by_user_id, list_active_sessions_by_user_id,
  delete_refresh_tokens_by_session, delete_refresh_tokens_for_other_sessions,
}
use authara.Store.Outbox.{record_event}
use authara.Session.Token.{revoke_scope}
use authara.Session.Services.{Services}

abbrev pub session_event :
    EventKind → Option Reason → ActorType → Option ℕ → ℕ → Option ℕ → SecurityEvent
session_event kind reason actor actor_id user_id session_id = record {
  kind = kind;
  outcome = success;
  reason_code = reason;
  actor_type = actor;
  actor_user_id = actor_id;
  user_id = some user_id;
  session_id = session_id;
  organization_id = none;
  passkey_id = none;
  authentication_method = none;
}

module _ (s : Services) where
  -- The later of the caller's time and the clock's.
  abbrev pub marker : ℕ → ℕ
  marker now = if ltb s.clock now then now else s.clock

  -- The transaction of `Logout`: whether the refresh token was found.
  unfoldable pub logout_body : Text → Exec Bool
  logout_body refresh_token =
      let hashed = s.hash_refresh_token refresh_token in
      catch (reads (get_refresh_token_by_hash hashed))
        (λ rt₀. do
          session ← reads (get_session_by_id rt₀.session_id)
          waits s.others (lock_user session.user_id)
          rt ← reads (get_refresh_token_by_hash hashed)
          _ ← reads (get_session_by_id rt.session_id)
          revoke_scope s.cache (session_scope rt.session_id) s.clock
          writes (revoke_session rt.session_id s.clock)
          record_event (
              session_event session_logout none user_actor (some session.user_id) session.user_id
                (some session.id))
          pure true)
        (λ _. pure false)

  -- `Logout` with a refresh token and no access token.
  unfoldable pub logout : Text → Exec Bool
  unfolding with_transaction
  logout refresh_token = with_transaction (logout_body refresh_token)

  unfoldable pub revoke_all_body : ℕ → Exec (Unit {0})
  revoke_all_body user_id = do
    waits s.others (lock_user user_id)
    revoke_scope s.cache (user_scope user_id) s.clock
    writes (revoke_all_sessions_for_user user_id s.clock)
    record_event
        (session_event session_revoked (some security_containment) system_actor none user_id none)

  unfoldable pub revoke_all_sessions : ℕ → Exec (Unit {0})
  unfolding with_transaction
  revoke_all_sessions user_id = with_transaction (revoke_all_body user_id)

  abbrev pub revoked_event : ℕ → ℕ → SecurityEvent
  revoked_event user_id session_id =
      session_event session_revoked (some user_requested) user_actor (some user_id) user_id
        (some session_id)

  unfoldable pub revoke_user_session_body : ℕ → ℕ → ℕ → Exec (Unit {0})
  revoke_user_session_body user_id session_id now = do
    session₀ ← reads (get_session_by_id session_id)
    if session₀.user_id == user_id then pure tt else raise forbidden
    waits s.others (lock_user user_id)
    session ← reads (get_session_by_id session_id)
    if session.user_id == user_id then pure tt else raise forbidden
    revoke_scope s.cache (session_scope session_id) (marker now)
    writes (revoke_session session_id now)
    writes (delete_refresh_tokens_by_session session_id)
    record_event (revoked_event user_id session_id)

  unfoldable pub revoke_user_session : ℕ → ℕ → ℕ → Exec (Unit {0})
  unfolding with_transaction
  revoke_user_session user_id session_id now =
      with_transaction (revoke_user_session_body user_id session_id now)

  -- The loop over the sessions other than the current one.
  unfoldable pub mark_others : ℕ → ℕ → ℕ → List Session → Exec (Unit {0})
  mark_others user_id current now [] = pure tt
  mark_others user_id current now (session ∷ sessions) =
      let rest = mark_others user_id current now sessions in
      if session.id == current then rest else (do
        revoke_scope s.cache (session_scope session.id) (marker now)
        record_event (revoked_event user_id session.id)
        rest)

  unfoldable pub revoke_other_body : ℕ → ℕ → ℕ → Exec (Unit {0})
  revoke_other_body user_id current now = do
    waits s.others (lock_user user_id)
    sessions ← reads (λ d. ok (list_active_sessions_by_user_id user_id now d))
    mark_others user_id current now sessions
    writes (revoke_other_sessions_by_user_id user_id current now)
    writes (delete_refresh_tokens_for_other_sessions user_id current)

  unfoldable pub revoke_other_user_sessions : ℕ → ℕ → ℕ → Exec (Unit {0})
  unfolding with_transaction
  revoke_other_user_sessions user_id current now =
      with_transaction (revoke_other_body user_id current now)

-- The loop of `ListUserSessions`: the sessions without the first that has the id, and that one.
unfoldable pub take_out : ℕ → List Session → Option Session × List Session
take_out id [] = (none, [])
take_out id (session ∷ sessions) =
    let (found, rest) = take_out id sessions in
    if session.id == id then (some session, sessions) else (found, session ∷ rest)

unfoldable pub list_user_sessions : ℕ → ℕ → ℕ → Db → List Session
unfolding take_out
list_user_sessions user_id current now d =
    let sessions = list_active_sessions_by_user_id user_id now d in
    let (found, rest) = take_out current sessions in
    if current == 0 then sessions else elim found [ none ↦ sessions | some c ↦ c ∷ rest ]

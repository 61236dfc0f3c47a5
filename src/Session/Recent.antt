-- ===== src/Session/Recent.antt =====
-- internal/session/service.go: recent authentication, and the challenges by which it is renewed.
pub mod Renewal
use authara.Prelude.{
  ℕ, ◌+◌, ◌-◌, ◌*◌, ◌==◌, Option, none, some, Bool, true, false, not, ◌&&◌, ◌||◌, is_some, ltb, leb,
  zero, suc, if◌then◌else◌,
}
use authara.Prelude.Int.{ℤ, pos, negsuc}
use authara.Store.Rows.{
  Session, AuthenticationChallenge, AuthenticationMethod, password, passkey, google, apple,
  microsoft, other_method, is_consumed, is_expired, SecurityEvent, success, user_actor,
  authentication_reauthenticated,
}
use authara.Store.Exec.{
  Exec, Result, ok, err, invalid_session, recent_authentication_required,
  authentication_challenge_invalid, pure, raise, lift, reads, writes, updates, waits, or_else,
  catch, with_transaction, ◌>>=◌, ◌>>◌,
}
use authara.Store.Sessions.{
  get_active_session_by_id, update_session_authentication, get_authentication_challenge_by_id,
  get_authentication_challenge_by_session_id, replace_authentication_challenge,
  consume_authentication_challenge,
}
use authara.Store.Outbox.{record_event}
use authara.Session.Services.{Services, SessionPolicy}

-- Whether the session's time of authentication is within the window, and not in the future.
unfoldable pub is_within_window : ℕ → ℤ → Option ℕ → Bool
is_within_window now (negsuc n) at = false
is_within_window now (pos zero) at = false
is_within_window now (pos (suc n)) none = false
is_within_window now (pos (suc n)) (some at) = leb at now && leb (now - at) (suc n)

unfoldable pub require_recent_authentication : SessionPolicy → ℕ → ℕ → ℕ → Exec (Unit {0})
require_recent_authentication policy user_id session_id now = do
  current ← reads (λ d. or_else (get_active_session_by_id session_id now d) invalid_session)
  if current.user_id == user_id then pure tt else raise invalid_session
  if not policy.recent_authentication_enabled
        || (is_some current.authentication_method
            && is_within_window now policy.recent_authentication_window current.authenticated_at)
      then pure tt
      else raise recent_authentication_required

-- The methods that the two switches name.
unfoldable pub is_known_method : AuthenticationMethod → Bool
is_known_method password = true
is_known_method passkey = true
is_known_method google = true
is_known_method apple = true
is_known_method microsoft = true
is_known_method (other_method _) = false

unfoldable pub mark_recently_authenticated : ℕ → ℕ → AuthenticationMethod → ℕ → Exec (Unit {0})
mark_recently_authenticated user_id session_id method now =
    if is_known_method method
    then updates (update_session_authentication user_id session_id method now)
    else raise recent_authentication_required

-- Five minutes.
abbrev pub authentication_challenge_ttl : ℕ
authentication_challenge_ttl = 5 * (60 * 1000000000)

module _ (s : Services) (user_id session_id : ℕ) where
  -- The new challenge lives no longer than its session. Its id is drawn by `uuid.New`.
  abbrev pub new_challenge : ℕ → Session → ℕ → AuthenticationChallenge
  new_challenge id current now =
      let expires_at = now + authentication_challenge_ttl in
      record {
        id = id;
        user_id = user_id;
        session_id = session_id;
        created_at = now;
        expires_at = if ltb current.expires_at expires_at then current.expires_at else expires_at;
        consumed_at = none;
        authentication_method = none;
      }

  abbrev pub replace : ℕ → Session → ℕ → Exec AuthenticationChallenge
  replace id current now = do
    writes (replace_authentication_challenge (new_challenge id current now))
    pure (new_challenge id current now)

  unfoldable pub start_body : ℕ → ℕ → Exec AuthenticationChallenge
  start_body id now = do
    waits s.others (λ _. ok tt)
    current ← reads (λ d. or_else (get_active_session_by_id session_id now d) invalid_session)
    if current.user_id == user_id then pure tt else raise invalid_session
    catch (reads (get_authentication_challenge_by_session_id session_id))
        (λ existing.
          if not (is_consumed existing) && not (is_expired existing now)
          then pure existing
          else replace id current now)
        (λ _. replace id current now)

  unfoldable pub start_authentication_challenge : ℕ → ℕ → Exec AuthenticationChallenge
  unfolding with_transaction
  start_authentication_challenge id now = with_transaction (start_body id now)

  -- The challenge is the user's and the session's.
  abbrev pub is_own : AuthenticationChallenge → Bool
  is_own c = c.user_id == user_id && c.session_id == session_id

  unfoldable pub validate_authentication_challenge : ℕ → ℕ → Exec (Unit {0})
  validate_authentication_challenge challenge_id now = do
    c ← reads (λ d.
        or_else (get_authentication_challenge_by_id challenge_id d)
          authentication_challenge_invalid)
    if is_own c && not (is_consumed c) && not (is_expired c now)
        then pure tt
        else raise authentication_challenge_invalid

  unfoldable pub validate_completed_authentication_challenge : ℕ → Exec (Unit {0})
  validate_completed_authentication_challenge challenge_id = do
    c ← reads (λ d.
        or_else (get_authentication_challenge_by_id challenge_id d)
          authentication_challenge_invalid)
    if is_own c && is_consumed c && is_some c.authentication_method
        then pure tt
        else raise authentication_challenge_invalid

  abbrev pub reauthenticated_event : AuthenticationMethod → SecurityEvent
  reauthenticated_event method = record {
    kind = authentication_reauthenticated;
    outcome = success;
    reason_code = none;
    actor_type = user_actor;
    actor_user_id = some user_id;
    user_id = some user_id;
    session_id = some session_id;
    organization_id = none;
    passkey_id = none;
    authentication_method = some method;
  }

  -- `resultErr`: the transaction commits without a change.
  abbrev pub refuse : Exec (Result (Unit {0}))
  refuse = pure (err authentication_challenge_invalid)

  unfoldable pub complete_body : ℕ → AuthenticationMethod → ℕ → Exec (Result (Unit {0}))
  complete_body challenge_id method now = do
    waits s.others (λ _. ok tt)
    catch (reads (get_active_session_by_id session_id now))
        (λ current.
          if current.user_id == user_id
          then catch (reads (get_authentication_challenge_by_id challenge_id))
              (λ c.
                if is_own c && not (is_consumed c) && not (is_expired c now)
                then (do
                  updates (update_session_authentication user_id session_id method now)
                  updates (consume_authentication_challenge challenge_id method now)
                  record_event (reauthenticated_event method)
                  pure (ok tt))
                else refuse)
              (λ _. refuse)
          else refuse)
        (λ _. refuse)

  unfoldable pub complete_authentication_challenge : ℕ → AuthenticationMethod → ℕ → Exec (Unit {0})
  unfolding with_transaction
  complete_authentication_challenge challenge_id method now =
      if is_known_method method
      then (do r ← with_transaction (complete_body challenge_id method now); lift r)
      else raise authentication_challenge_invalid

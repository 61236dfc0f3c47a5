-- ===== src/Session/Calls/Keeps.antt =====
-- internal/session/service.go: the methods that make no refresh token.
use authara.Prelude.{ℕ, List, [], ◌∷◌, ◌++◌}
use authara.Prelude.Text.{Text}
use authara.Store.Rows.{Session, AuthenticationMethod, SecurityEvent}
use authara.Store.Exec.{Db}
use authara.Store.Keeps.{
  Keeps, keeps_rules, Keeps-writes, Keeps-updates, Keeps-waits, Keeps-if, Keeps-bind,
}
use authara.Store.Sessions.Live.{Single}
use authara.Store.Sessions.Tokens.{event-Single}
use authara.Store.Sessions.Issued.{statements}
use authara.Store.Outbox.{enqueue, record_event}
use authara.Session.Token.Keeps.{revoke_scope-Keeps}
use authara.Session.Services.{Services, ensure_user_allowed, record_session_authentication_denied}
use authara.Session.Recent.{
  mark_recently_authenticated, start_authentication_challenge, start_body,
  complete_authentication_challenge, complete_body,
}
use authara.Session.Revocation.{
  logout, logout_body, revoke_all_sessions, revoke_all_body, revoke_user_session,
  revoke_user_session_body, revoke_other_user_sessions, revoke_other_body, mark_others,
  revoked_event,
}

module _ (s : Services) (rely : (d : Db) → Single d → Single (s.others d)) where
  pub ensure-Keeps : (user_id : ℕ) → Keeps Single (ensure_user_allowed s user_id)
  unfolding ensure_user_allowed
  ensure-Keeps user_id = search (keeps_rules) depth 30

  pub enqueue-Keeps : (to : Text) (t : _) (now : ℕ) → Keeps Single (enqueue to t now)
  unfolding enqueue
  enqueue-Keeps to t now = search (keeps_rules, Keeps-writes, statements) depth 30

  pub denied-Keeps :
      (user_id : ℕ) (m : _) (r : _)
      → Keeps Single (record_session_authentication_denied user_id m r)
  unfolding record_session_authentication_denied
  denied-Keeps user_id m r = search (keeps_rules, Keeps-writes, statements) depth 30

  pub mark-Keeps :
      (user_id session_id : ℕ) (m : AuthenticationMethod) (now : ℕ)
      → Keeps Single (mark_recently_authenticated user_id session_id m now)
  unfolding mark_recently_authenticated
  mark-Keeps user_id session_id m now = search (keeps_rules, Keeps-updates, statements) depth 30

  pub start-Keeps :
      (user_id session_id id now : ℕ)
      → Keeps Single (start_authentication_challenge s user_id session_id id now)
  unfolding start_authentication_challenge start_body
  start-Keeps user_id session_id id now =
      search (keeps_rules, Keeps-writes, Keeps-waits, statements, rely) depth 30

  pub complete-Keeps :
      (user_id session_id id : ℕ) (m : AuthenticationMethod) (now : ℕ)
      → Keeps Single (complete_authentication_challenge s user_id session_id id m now)
  unfolding complete_authentication_challenge complete_body
  complete-Keeps user_id session_id id m now =
      search (keeps_rules, Keeps-writes, Keeps-updates, Keeps-waits, statements, rely) depth 40

  pub logout-Keeps : (token : Text) → Keeps Single (logout s token)
  unfolding logout logout_body
  logout-Keeps token =
      search (keeps_rules, Keeps-writes, Keeps-waits, statements, revoke_scope-Keeps, rely) depth 40

  pub revoke_all-Keeps : (user_id : ℕ) → Keeps Single (revoke_all_sessions s user_id)
  unfolding revoke_all_sessions revoke_all_body
  revoke_all-Keeps user_id =
      search (keeps_rules, Keeps-writes, Keeps-waits, statements, revoke_scope-Keeps, rely) depth 40

  pub revoke_one-Keeps :
      (user_id session_id now : ℕ) → Keeps Single (revoke_user_session s user_id session_id now)
  unfolding revoke_user_session revoke_user_session_body
  revoke_one-Keeps user_id session_id now =
      search (keeps_rules, Keeps-writes, Keeps-waits, statements, revoke_scope-Keeps, rely) depth 40

  pub event-Keeps : (e : SecurityEvent) → Keeps Single (record_event e)
  event-Keeps e = Keeps-writes _ (λ d. event-Single (d.security_events ++ e ∷ []) d)

  pub mark_others-Keeps :
      (user_id current now : ℕ) (ss : List Session)
      → Keeps Single (mark_others s user_id current now ss)
  unfolding mark_others
  mark_others-Keeps user_id current now [] = search (keeps_rules) depth 10
  mark_others-Keeps user_id current now (x ∷ xs) =
      Keeps-if _ (mark_others-Keeps user_id current now xs) (
        Keeps-bind _ _ (revoke_scope-Keeps s.cache _ _) λ _.
          Keeps-bind _ _ (event-Keeps (revoked_event s user_id x.id))
            λ _. mark_others-Keeps user_id current now xs)

  pub revoke_others-Keeps :
      (user_id current now : ℕ) → Keeps Single (revoke_other_user_sessions s user_id current now)
  unfolding revoke_other_user_sessions revoke_other_body
  revoke_others-Keeps user_id current now =
      search (keeps_rules, Keeps-writes, Keeps-waits, statements, mark_others-Keeps, rely) depth 40

-- ===== src/Session/Calls.antt =====
-- internal/session/service.go: the methods of the service that change the database, as calls.
pub mod Keeps
pub mod Issues
pub mod Single
use authara.Prelude.{ℕ, Option, List, [], ◌∷◌}
use authara.Prelude.Text.{Text}
use authara.Store.Rows.{AuthenticationMethod}
use authara.Store.Exec.{World, Exec}
use authara.Session.Token.{Audience}
use authara.Session.Services.{Services}
use authara.Session.Refresh.{refresh_session}
use authara.Session.Create.{create_session_for}
use authara.Session.Switch.{switch_session_organization}
use authara.Session.Recent.{
  mark_recently_authenticated, start_authentication_challenge, complete_authentication_challenge,
}
use authara.Session.Revocation.{
  logout, revoke_all_sessions, revoke_user_session, revoke_other_user_sessions,
}

pub data Call : Type 0 where
  create : ℕ → Option ℕ → Audience → AuthenticationMethod → Text → Call
  refresh : Text → Audience → Call
  switch : ℕ → ℕ → ℕ → Audience → Call
  mark : ℕ → ℕ → AuthenticationMethod → Call
  start : ℕ → ℕ → ℕ → Call
  complete : ℕ → ℕ → ℕ → AuthenticationMethod → Call
  log_out : Text → Call
  revoke_all : ℕ → Call
  revoke_one : ℕ → ℕ → Call
  revoke_others : ℕ → ℕ → Call

abbrev after : {A : Type 0} → Exec A → World → World
after m w = (m w).1

-- What a call at a time leaves behind.
unfoldable pub perform : Services → ℕ → Call → World → World
perform s now (create user_id passkey_id audience method user_agent) =
    after (create_session_for s user_id passkey_id audience method user_agent now)
perform s now (refresh token audience) = after (refresh_session s audience now token)
perform s now (switch user_id session_id organization_id audience) =
    after (switch_session_organization s user_id session_id organization_id audience now)
perform s now (mark user_id session_id method) =
    after (mark_recently_authenticated user_id session_id method now)
perform s now (start user_id session_id id) =
    after (start_authentication_challenge s user_id session_id id now)
perform s now (complete user_id session_id challenge_id method) =
    after (complete_authentication_challenge s user_id session_id challenge_id method now)
perform s now (log_out token) = after (logout s token)
perform s now (revoke_all user_id) = after (revoke_all_sessions s user_id)
perform s now (revoke_one user_id session_id) = after (revoke_user_session s user_id session_id now)
perform s now (revoke_others user_id current) =
    after (revoke_other_user_sessions s user_id current now)

-- A history: calls with the time and the surroundings of each.
unfoldable pub perform_all : List (Services × ℕ × Call) → World → World
perform_all [] w = w
perform_all ((s, now, c) ∷ rest) w = perform_all rest (perform s now c w)

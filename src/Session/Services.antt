-- ===== src/Session/Services.antt =====
-- internal/session/service.go: what the service is built from, and the checks its methods share.
use authara.Prelude.{ℕ, zero, suc, ◌+◌, none, some, Bool, true, false, [], ◌∷◌, leb, if◌then◌else◌}
use authara.Prelude.Int.{ℤ, pos, negsuc}
use authara.Prelude.Text.{Text}
use authara.Store.Rows.{
  User, RefreshToken, AuthenticationMethod, Reason, denied, user_actor, authentication_login,
}
use authara.Store.Exec.{Db, Exec, Result, user_not_allowed, pure, raise, reads, ◌>>=◌}
use authara.Store.Outbox.{record_event}
use authara.Store.Users.{get_user_by_id}
use authara.Session.Roles.{Roles, has_any, authara_admin, authara_operator}
use authara.Session.Token.{Audience, app, admin, operator, other_audience, AccessClaims, Cache}

-- config.SessionPolicy
pub record SessionPolicy : Type 0 where
  pub session_ttl : ℕ
  pub refresh_token_ttl : ℕ
  pub refresh_token_rotation : ℤ
  pub recent_authentication_enabled : Bool
  pub recent_authentication_window : ℤ

-- The parts that the program takes from elsewhere, as they behave in one call.
pub record Services : Type 0 where
  pub policy : SessionPolicy
  -- hex of SHA-256
  pub hash_refresh_token : Text → Text
  -- accesspolicy.EmailAccessPolicy
  pub is_email_allowed : Text → Db → Result Bool
  -- the JWT library's signature over the claims
  pub generate_access_token : AccessClaims → Result Text
  -- 32 bytes of crypto/rand
  pub random_token : Result Text
  pub cache : Cache
  -- `time.Now()`, of the process and of the database
  pub clock : ℕ
  pub db_now : ℕ
  -- what other transactions commit while a lock is waited for
  pub others : Db → Db
  -- what they commit while a statement that deletes refresh tokens waits for a row
  pub others_deleting : Db → Db

unfoldable pub should_rotate : RefreshToken → ℕ → ℤ → Bool
should_rotate rt now (negsuc n) = true
should_rotate rt now (pos zero) = false
should_rotate rt now (pos (suc n)) = leb (rt.created_at + suc n) now

-- `audienceAccess` and `canAccessAudience`.
unfoldable pub can_access_audience : Roles → Audience → Bool
unfolding has_any
can_access_audience rs app = true
can_access_audience rs admin = has_any rs (authara_admin ∷ [])
can_access_audience rs operator = has_any rs (authara_operator ∷ [])
can_access_audience rs (other_audience a) = true

unfoldable pub ensure_user_allowed : Services → ℕ → Exec User
ensure_user_allowed s user_id = do
  user ← reads (get_user_by_id user_id)
  allowed ← reads (s.is_email_allowed user.email)
  if allowed then pure user else raise user_not_allowed

-- `recordSessionAuthenticationDenied`.
unfoldable pub record_session_authentication_denied :
    ℕ → AuthenticationMethod → Reason → Exec (Unit {0})
record_session_authentication_denied user_id method reason = record_event (record {
  kind = authentication_login;
  outcome = denied;
  reason_code = some reason;
  actor_type = user_actor;
  actor_user_id = some user_id;
  user_id = some user_id;
  session_id = none;
  organization_id = none;
  passkey_id = none;
  authentication_method = some method;
})

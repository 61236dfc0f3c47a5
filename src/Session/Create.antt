-- ===== src/Session/Create.antt =====
-- internal/session/service.go: `createSession`.
pub mod Admission
use authara.Prelude.{
  ℕ, ◌+◌, ◌==◌, Option, none, some, Bool, true, false, not, ◌&&◌, is_some, if◌then◌else◌,
}
use authara.Prelude.Text.{Text}
use authara.Store.Rows.{
  User, Session, RefreshToken, Organization, OrganizationMembership, AuthenticationMethod,
  SecurityEvent, Reason, access_policy, method_unavailable, audience_forbidden,
  user_disabled_reason, success, user_actor, authentication_login, new_sign_in,
}
use authara.Store.Exec.{
  Db, Exec, Result, ok, err, Error, user_not_allowed, authentication_method_unavailable, forbidden,
  user_disabled, pure, raise, lift, reads, writes, waits, inserts, catch, with_transaction, ◌>>=◌,
  ◌>>◌,
}
use authara.Store.Users.{
  lock_user, get_passkey_by_id, default_organization_for_user, lock_organization,
  get_organization_membership, get_user_platform_role_names, is_user_disabled,
}
use authara.Store.Sessions.{create_session, create_refresh_token}
use authara.Store.Outbox.{enqueue}
use authara.Session.Roles.{Roles, from_db_role_names}
use authara.Session.Token.{Audience, AccessClaims}
use authara.Store.Outbox.{record_event}
use authara.Session.Services.{
  Services, can_access_audience, ensure_user_allowed, record_session_authentication_denied,
}

-- `errors.Is(err, ErrUserNotAllowed)`
abbrev pub is_not_allowed : Error → Bool
is_not_allowed user_not_allowed = true
is_not_allowed _ = false

-- A passkey that is named must be the user's, and not restricted.
unfoldable pub is_passkey_usable : Option ℕ → ℕ → Db → Bool
is_passkey_usable none user_id d = true
is_passkey_usable (some passkey_id) user_id d = elim (get_passkey_by_id passkey_id d) [
  | err _ ↦ false
  | ok p ↦ p.user_id == user_id && not (is_some p.restricted_at)
]

-- What a sign-in returns: a pair of an access token and a refresh token.
abbrev pub Tokens : Type 0
Tokens = Text × Text

module _ (s : Services) (user_id : ℕ) (passkey_id : Option ℕ) (audience : Audience)
    (method : AuthenticationMethod) (user_agent : Text) (now : ℕ) where
  -- `resultErr`: the denial is recorded, and the transaction that holds the record commits.
  abbrev pub deny : Reason → Error → Exec (Result Tokens)
  deny reason e = do record_session_authentication_denied user_id method reason; pure (err e)

  abbrev pub new_session : Organization → Session
  new_session org = record {
    id = 0;
    user_id = user_id;
    active_organization_id = org.id;
    created_at = 0;
    expires_at = now + s.policy.session_ttl;
    revoked_at = none;
    authenticated_at = some now;
    authentication_method = some method;
    user_agent = user_agent;
  }

  abbrev pub new_refresh_token : Session → Organization → Text → RefreshToken
  new_refresh_token session org hashed = record {
    id = 0;
    created_at = 0;
    session_id = session.id;
    organization_id = org.id;
    token_hash = hashed;
    expires_at = now + s.policy.refresh_token_ttl;
    consumed_at = none;
  }

  abbrev pub login_event : Session → Organization → SecurityEvent
  login_event session org = record {
    kind = authentication_login;
    outcome = success;
    reason_code = none;
    actor_type = user_actor;
    actor_user_id = some user_id;
    user_id = some user_id;
    session_id = some session.id;
    organization_id = some org.id;
    passkey_id = passkey_id;
    authentication_method = some method;
  }

  abbrev pub claims_of :
      User → Session → Organization → OrganizationMembership → Roles → AccessClaims
  claims_of user session org membership roles = record {
    subject = user_id;
    session_id = session.id;
    org_id = org.id;
    org_role = membership.role;
    roles = roles;
    email_verified = is_some user.email_verified_at;
    audience = audience;
    issued_at = now;
  }

  -- The access token, the e-mail and the record of the log-in.
  abbrev pub sign_in :
      User → Organization → OrganizationMembership → Roles → Session → Text → Exec (Result Tokens)
  sign_in user org membership roles session refresh_token = do
    access_token ← lift (s.generate_access_token (claims_of user session org membership roles))
    enqueue user.email new_sign_in now
    record_event (login_event session org)
    pure (ok (access_token, refresh_token))

  -- From the session's row to the record of the log-in.
  unfoldable pub open_session :
      User → Organization → OrganizationMembership → Roles → Exec (Result Tokens)
  open_session user org membership roles = do
    session ← inserts (create_session s.db_now (new_session org))
    refresh_token ← lift s.random_token
    writes (
        create_refresh_token s.db_now
          (new_refresh_token session org (s.hash_refresh_token refresh_token)))
    sign_in user org membership roles session refresh_token

  -- The checks behind the locks.
  unfoldable pub admit : User → Exec (Result Tokens)
  admit user = do
    (org, _) ← reads (default_organization_for_user user.id)
    waits s.others (lock_organization org.id)
    membership ← reads (get_organization_membership org.id user_id)
    roles ← reads (λ d. from_db_role_names (get_user_platform_role_names user_id d))
    if can_access_audience roles audience
        then (do
          disabled ← reads (λ d. ok (is_user_disabled user_id d))
          if disabled
              then deny user_disabled_reason user_disabled
              else open_session user org membership roles)
        else deny audience_forbidden forbidden

  unfoldable pub create_body : Exec (Result Tokens)
  create_body =
      catch (ensure_user_allowed s user_id)
        (λ user. do
          waits s.others (lock_user user_id)
          usable ← reads (λ d. ok (is_passkey_usable passkey_id user_id d))
          if usable then admit user else deny method_unavailable authentication_method_unavailable)
        (λ e. if is_not_allowed e then deny access_policy user_not_allowed else raise e)

  -- `CreateSession` passes no passkey, `CreatePasskeySession` one and the method of passkeys.
  unfoldable pub create_session_for : Exec Tokens
  unfolding with_transaction
  create_session_for = do r ← with_transaction create_body; lift r

-- ===== src/Session/Switch.antt =====
-- internal/session/service.go: `SwitchSessionOrganization`.
use authara.Prelude.{ℕ, ◌+◌, ◌==◌, none, is_some, ltb, if◌then◌else◌}
use authara.Prelude.Text.{Text}
use authara.Store.Rows.{User, Session, RefreshToken, OrganizationMembership}
use authara.Store.Exec.{
  Exec, ok, invalid_session, forbidden, user_disabled, pure, raise, lift, reads, writes, updates,
  waits, waits_late, or_else, with_transaction, ◌>>=◌, ◌>>◌,
}
use authara.Store.Users.{
  lock_user, lock_organization, get_organization_membership, get_user_platform_role_names,
  is_user_disabled,
}
use authara.Store.Sessions.{
  get_active_session_by_id, update_session_active_organization, delete_seen_refresh_tokens,
  create_refresh_token,
}
use authara.Session.Roles.{Roles, from_db_role_names}
use authara.Session.Token.{Audience}
use authara.Session.Services.{Services, can_access_audience, ensure_user_allowed}

module _ (s : Services) (user_id session_id organization_id : ℕ) (audience : Audience)
    (now : ℕ) where
  -- The checks of the user, the session and the membership.
  unfoldable pub admit_switch : Exec (User × Session × OrganizationMembership × Roles)
  admit_switch = do
    user ← ensure_user_allowed s user_id
    waits s.others (lock_user user_id)
    waits s.others (λ d. or_else (lock_organization organization_id d) forbidden)
    session ← reads (λ d. or_else (get_active_session_by_id session_id now d) invalid_session)
    if session.user_id == user_id then pure tt else raise forbidden
    membership ←
        reads (λ d. or_else (get_organization_membership organization_id user_id d) forbidden)
    roles ← reads (λ d. from_db_role_names (get_user_platform_role_names user_id d))
    if can_access_audience roles audience then pure tt else raise forbidden
    disabled ← reads (λ d. ok (is_user_disabled user_id d))
    if disabled then raise user_disabled else pure (user, session, membership, roles)

  -- The new token lives no longer than the session.
  abbrev pub switched_token : Session → Text → RefreshToken
  switched_token session hashed =
      let expires_at = now + s.policy.refresh_token_ttl in
      record {
        id = 0;
        created_at = now;
        session_id = session_id;
        organization_id = organization_id;
        token_hash = hashed;
        expires_at = if ltb session.expires_at expires_at then session.expires_at else expires_at;
        consumed_at = none;
      }

  abbrev pub sign : User → OrganizationMembership → Roles → Text → Exec (Text × Text)
  sign user membership roles refresh_token = do
    access_token ← lift (
        s.generate_access_token (record {
          subject = user_id;
          session_id = session_id;
          org_id = organization_id;
          org_role = membership.role;
          roles = roles;
          email_verified = is_some user.email_verified_at;
          audience = audience;
          issued_at = now;
        }))
    pure (access_token, refresh_token)

  -- The part behind the change of the session.
  unfoldable pub switched : User → Session → OrganizationMembership → Roles → Exec (Text × Text)
  switched user session membership roles = do
    seen ← reads (λ d. ok d.refresh_tokens)
    waits_late s.others_deleting (λ _. ok tt)
    writes (delete_seen_refresh_tokens session_id seen)
    refresh_token ← lift s.random_token
    writes (
        create_refresh_token s.db_now (switched_token session (s.hash_refresh_token refresh_token)))
    sign user membership roles refresh_token

  -- The refresh tokens of the session that are seen are replaced by one for the organization. The
  -- update waits for the row of the session, and the deletion for the tokens, which a refresh may
  -- hold: its lock on the user, FOR KEY SHARE, is shared.
  unfoldable pub replace_tokens :
      User → Session → OrganizationMembership → Roles → Exec (Text × Text)
  unfolding switched
  replace_tokens user session membership roles = do
    waits s.others (λ _. ok tt)
    updates (update_session_active_organization session_id organization_id)
    switched user session membership roles

  unfoldable pub switch_body : Exec (Text × Text)
  switch_body = do
    (user, session, membership, roles) ← admit_switch
    replace_tokens user session membership roles

  unfoldable pub switch_session_organization : Exec (Text × Text)
  unfolding with_transaction
  switch_session_organization = with_transaction switch_body

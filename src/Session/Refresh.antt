-- ===== src/Session/Refresh.antt =====
-- internal/session/service.go: `RefreshSession` and `revokeReusedRefreshToken`.
pub mod Soundness
pub mod Single
pub mod Reuse
pub mod Spent
pub mod Once
use authara.Prelude.{ℕ, ◌+◌, Option, none, some, ◌||◌, ltb, is_some, if◌then◌else◌}
use authara.Prelude.Text.{Text}
use authara.Store.Rows.{
  User, Session, RefreshToken, SecurityEvent, OrganizationMembership, success, denied, user_actor,
  anonymous_actor, session_refresh, session_refresh_token_reuse, refresh_token_reuse_reason,
}
use authara.Store.Exec.{
  World, Exec, Result, ok, err, Error, invalid_refresh_token, refresh_token_reuse_detected,
  refresh_token_reuse, forbidden, user_disabled, organization_membership_not_found, join, pure,
  raise, lift, reads, reads_for_update, writes, updates, waits, or_else, with_transaction, ◌>>=◌,
  ◌>>◌,
}
use authara.Store.Users.{
  lock_user, lock_organization, get_organization_membership, get_user_platform_role_names,
  is_user_disabled,
}
use authara.Store.Sessions.{
  get_session_by_id, get_refresh_token_by_hash, consume_refresh_token, create_refresh_token,
  revoke_session,
}
use authara.Session.Roles.{Roles, from_db_role_names}
use authara.Session.Token.{Audience, revoke_scope}
use authara.Store.Exec.{session_scope}
use authara.Store.Outbox.{record_event}
use authara.Session.Services.{Services, should_rotate, can_access_audience, ensure_user_allowed}

module _ (s : Services) (audience : Audience) (now : ℕ) where
  -- The checks of a refresh token's row, before the locks and again behind them.
  unfoldable pub usable_refresh_token : RefreshToken → Result (Unit {0})
  usable_refresh_token rt =
      if is_some rt.consumed_at
      then err (refresh_token_reuse_detected rt)
      else (if ltb rt.expires_at now then err invalid_refresh_token else ok tt)

  -- The row, its session, and the locks. The row's own is the last: behind it the statement that
  -- consumes the row waits for nobody.
  unfoldable pub load_refresh_token : Text → Exec (RefreshToken × Session)
  load_refresh_token hashed = do
    rt₀ ← reads (λ d. or_else (get_refresh_token_by_hash hashed d) invalid_refresh_token)
    lift (usable_refresh_token rt₀)
    session₀ ← reads (λ d. or_else (get_session_by_id rt₀.session_id d) invalid_refresh_token)
    waits s.others (λ d. or_else (lock_user session₀.user_id d) invalid_refresh_token)
    waits s.others (λ d. or_else (lock_organization rt₀.organization_id d) invalid_refresh_token)
    rt ←
        reads_for_update s.others
          (λ d. or_else (get_refresh_token_by_hash hashed d) invalid_refresh_token)
    lift (usable_refresh_token rt)
    session ← reads (λ d. or_else (get_session_by_id rt.session_id d) invalid_refresh_token)
    if ltb session.expires_at now || is_some session.revoked_at
        then raise invalid_refresh_token
        else pure (rt, session)

  -- `errors.Is(err, store.ErrOrganizationMembershipNotFound)`
  abbrev not_member : Result OrganizationMembership → Result OrganizationMembership
  not_member (ok m) = ok m
  not_member (err organization_membership_not_found) = err forbidden
  not_member (err e) = err e

  -- May the session's user have a token for the audience?
  unfoldable pub authorize : Session → RefreshToken → Exec (User × OrganizationMembership × Roles)
  authorize session rt = do
    user ← ensure_user_allowed s session.user_id
    membership ←
        reads (λ d. not_member (get_organization_membership rt.organization_id session.user_id d))
    platform_roles ←
        reads (λ d. from_db_role_names (get_user_platform_role_names session.user_id d))
    if can_access_audience platform_roles audience then pure tt else raise forbidden
    disabled ← reads (λ d. ok (is_user_disabled session.user_id d))
    if disabled then raise user_disabled else pure (user, membership, platform_roles)

  -- The new token lives no longer than its session.
  unfoldable pub rotated : RefreshToken → Session → Text → RefreshToken
  rotated rt session new_hash =
      let new_expires_at = now + s.policy.refresh_token_ttl in
      record {
        id = 0;
        session_id = rt.session_id;
        organization_id = rt.organization_id;
        token_hash = new_hash;
        created_at = now;
        expires_at =
            if ltb session.expires_at new_expires_at then session.expires_at else new_expires_at;
        consumed_at = none;
      }

  unfoldable pub rotate : Text → RefreshToken → Session → Exec Text
  rotate refresh_token rt session =
      if should_rotate rt now s.policy.refresh_token_rotation
      then (do
        updates (λ d. or_else (consume_refresh_token rt.id now d) invalid_refresh_token)
        new_refresh_token ← lift s.random_token
        writes (
            create_refresh_token s.db_now
              (rotated rt session (s.hash_refresh_token new_refresh_token)))
        pure new_refresh_token)
      else pure refresh_token

  abbrev refreshed_event : Session → RefreshToken → SecurityEvent
  refreshed_event session rt = record {
    kind = session_refresh;
    outcome = success;
    reason_code = none;
    actor_type = user_actor;
    actor_user_id = some session.user_id;
    user_id = some session.user_id;
    session_id = some session.id;
    organization_id = some rt.organization_id;
    passkey_id = none;
    authentication_method = session.authentication_method;
  }

  -- What is handed out for a row that is usable: the access token and the refresh token.
  unfoldable pub issue : Text → RefreshToken → Session → Exec (Text × Text)
  issue refresh_token rt session = do
    (user, membership, platform_roles) ← authorize session rt
    new_refresh_token ← rotate refresh_token rt session
    new_access_token ← lift (
        s.generate_access_token (record {
          subject = session.user_id;
          session_id = rt.session_id;
          org_id = rt.organization_id;
          org_role = membership.role;
          roles = platform_roles;
          email_verified = is_some user.email_verified_at;
          audience = audience;
          issued_at = now;
        }))
    record_event (refreshed_event session rt)
    pure (new_access_token, new_refresh_token)

  -- The body of the transaction.
  unfoldable pub refresh_body : Text → Exec (Text × Text)
  refresh_body refresh_token = do
    (rt, session) ← load_refresh_token (s.hash_refresh_token refresh_token)
    issue refresh_token rt session

  abbrev pub reuse_event : Session → RefreshToken → SecurityEvent
  reuse_event session rt = record {
    kind = session_refresh_token_reuse;
    outcome = denied;
    reason_code = some refresh_token_reuse_reason;
    actor_type = anonymous_actor;
    actor_user_id = none;
    user_id = some session.user_id;
    session_id = some session.id;
    organization_id = some rt.organization_id;
    passkey_id = none;
    authentication_method = none;
  }

  -- The error of the cache is kept aside, and the transaction goes on.
  abbrev pub set_aside : Result (Unit {0}) → World → Result (Option Error) × World
  set_aside (ok _) w = (ok none, w)
  set_aside (err e) w = (ok (some e), w)

  abbrev pub keep_error : Exec (Unit {0}) → Exec (Option Error)
  keep_error m w = let (r, w') = m w in set_aside r w'

  abbrev pub marker_at : ℕ
  marker_at = if ltb s.clock now then now else s.clock

  unfoldable pub revoke_reused_body : RefreshToken → Exec (Option Error)
  revoke_reused_body rt = do
    session ← reads (get_session_by_id rt.session_id)
    waits s.others (lock_user session.user_id)
    _ ← reads (get_session_by_id rt.session_id)
    cache_err ← keep_error (revoke_scope s.cache (session_scope rt.session_id) marker_at)
    writes (revoke_session rt.session_id now)
    record_event (reuse_event session rt)
    pure cache_err

  -- `errors.Join(ErrRefreshTokenReuse, cacheErr)`
  abbrev pub reuse_error : Option Error → Error
  reuse_error none = refresh_token_reuse
  reuse_error (some e) = join refresh_token_reuse e

  unfoldable pub revoke_reused_refresh_token : RefreshToken → Exec (Text × Text)
  unfolding with_transaction
  revoke_reused_refresh_token rt = do
    cache_err ← with_transaction (revoke_reused_body rt)
    raise (reuse_error cache_err)

  -- `errors.Is(err, errRefreshTokenReuseDetected)`, with the row.
  abbrev pub reused_row : Error → Option RefreshToken
  reused_row (refresh_token_reuse_detected rt) = some rt
  reused_row _ = none

  abbrev pub on_reuse : Result (Text × Text) → Exec (Text × Text)
  on_reuse (ok r) = pure r
  on_reuse (err e) = elim (reused_row e) [
    | none ↦ raise e
    | some rt ↦ revoke_reused_refresh_token rt
  ]

  unfoldable pub refresh_session : Text → Exec (Text × Text)
  unfolding with_transaction
  refresh_session refresh_token w =
      let (r, w') = with_transaction (refresh_body refresh_token) w in on_reuse r w'

-- ===== src/Session/Refresh/Soundness.antt =====
-- internal/session/service.go: what holds when `RefreshSession` hands out tokens.
use authara.Prelude.{ℕ, ◌≤◌, ◌≡◌, none, true, false, arith, is_some}
use authara.Prelude.Text.{Text}
use authara.Store.Rows.{User, Session, RefreshToken, OrganizationMembership}
use authara.Store.Exec.{Db, World, Result, ok, >>=-eq-ok, with_transaction-eq-ok}
use authara.Store.Users.{
  get_user_by_id, get_organization_membership, get_user_platform_role_names, is_user_disabled,
}
use authara.Store.Sessions.{get_session_by_id, get_refresh_token_by_hash}
use authara.Session.Roles.{Roles, from_db_role_names}
use authara.Session.Token.{Audience, AccessClaims}
use authara.Session.Services.{Services, can_access_audience, ensure_user_allowed}
use authara.Session.Refresh.{
  usable_refresh_token, load_refresh_token, authorize, issue, refresh_body, refresh_session,
  on_reuse, revoke_reused_refresh_token,
}

module _ (s : Services) (audience : Audience) (now : ℕ) where
  -- The database that the transaction sees behind its locks.
  abbrev pub locked : World → Db
  locked w = s.others (s.others (s.others w.committed))

  pub record Loaded (hashed : Text) (d : Db) (rt : RefreshToken) (session : Session) : Type 0 where
    pub found : get_refresh_token_by_hash hashed d ≡ ok rt
    pub unconsumed : rt.consumed_at ≡ none
    pub in_time : now ≤ rt.expires_at
    pub session_found : get_session_by_id rt.session_id d ≡ ok session
    pub session_in_time : now ≤ session.expires_at
    pub session_unrevoked : session.revoked_at ≡ none

  pub load-Loaded :
      (hashed : Text) (w : World) (rt : RefreshToken) (session : Session)
      → (load_refresh_token s audience now hashed w).0 ≡ ok (rt, session)
      → Loaded hashed (locked w) rt session
  unfolding load_refresh_token usable_refresh_token
  load-Loaded hashed w rt session h = ground arith

  pub load-worlds :
      (hashed : Text) (w : World) (rt : RefreshToken) (session : Session)
      → (load_refresh_token s audience now hashed w).0 ≡ ok (rt, session)
      → (load_refresh_token s audience now hashed w).1
        ≡ record { committed = locked w; db = locked w; revocations = w.revocations }
  unfolding load_refresh_token usable_refresh_token
  load-worlds hashed w rt session h = ground arith

  pub record Authorized (d : Db) (session : Session) (rt : RefreshToken) (user : User)
      (membership : OrganizationMembership) (roles : Roles) : Type 0 where
    pub user_found : get_user_by_id session.user_id d ≡ ok user
    pub allowed : s.is_email_allowed user.email d ≡ ok true
    pub is_member : get_organization_membership rt.organization_id session.user_id d ≡ ok membership
    pub roles_known : from_db_role_names (get_user_platform_role_names session.user_id d) ≡ ok roles
    pub in_audience : can_access_audience roles audience ≡ true
    pub enabled : is_user_disabled session.user_id d ≡ false

  authorize-Authorized :
      (session : Session) (rt : RefreshToken) (w : World) (user : User)
      (membership : OrganizationMembership) (roles : Roles)
      → (authorize s audience now session rt w).0 ≡ ok (user, membership, roles)
      → Authorized w.db session rt user membership roles
  unfolding authorize ensure_user_allowed
  authorize-Authorized session rt w user membership roles h = ground arith

  pub authorize-world :
      (session : Session) (rt : RefreshToken) (w : World)
      → (authorize s audience now session rt w).1 ≡ w
  unfolding authorize ensure_user_allowed
  authorize-world session rt w = ground arith

  -- The claims that the access token is signed over.
  abbrev pub claims : RefreshToken → Session → User → OrganizationMembership → Roles → AccessClaims
  claims rt session user membership roles = record {
    subject = session.user_id;
    session_id = rt.session_id;
    org_id = rt.organization_id;
    org_role = membership.role;
    roles = roles;
    email_verified = is_some user.email_verified_at;
    audience = audience;
    issued_at = now;
  }

  pub record Issued (d : Db) (rt : RefreshToken) (session : Session) (access : Text) : Type 0 where
    pub user : User
    pub membership : OrganizationMembership
    pub roles : Roles
    pub authorized : Authorized d session rt user membership roles
    pub signed : s.generate_access_token (claims rt session user membership roles) ≡ ok access

  issue-signed :
      (refresh_token : Text) (rt : RefreshToken) (session : Session) (w : World)
      (access fresh : Text) (user : User) (membership : OrganizationMembership) (roles : Roles)
      → (authorize s audience now session rt w).0 ≡ ok (user, membership, roles)
      → (issue s audience now refresh_token rt session w).0 ≡ ok (access, fresh)
      → s.generate_access_token (claims rt session user membership roles) ≡ ok access
  unfolding issue
  issue-signed refresh_token rt session w access fresh user membership roles e h = ground arith

  issue-Issued :
      (refresh_token : Text) (rt : RefreshToken) (session : Session) (w : World)
      (access fresh : Text)
      → (issue s audience now refresh_token rt session w).0 ≡ ok (access, fresh)
      → Issued w.db rt session access
  unfolding issue
  issue-Issued refresh_token rt session w access fresh h =
      let (granted, e, _) = >>=-eq-ok (authorize s audience now session rt) _ w h in
      record {
        user = granted.0;
        membership = granted.1;
        roles = granted.2;
        authorized = authorize-Authorized session rt w granted.0 granted.1 granted.2 e;
        signed =
            issue-signed refresh_token rt session w access fresh granted.0 granted.1 granted.2 e h;
      }

  -- What holds in the database behind the locks when tokens are handed out.
  pub record Granted (refresh_token access : Text) (d : Db) : Type 0 where
    pub rt : RefreshToken
    pub session : Session
    pub loaded : Loaded (s.hash_refresh_token refresh_token) d rt session
    pub issued : Issued d rt session access

  body-Granted :
      (refresh_token : Text) (w : World) (access fresh : Text)
      → (refresh_body s audience now refresh_token w).0 ≡ ok (access, fresh)
      → Granted refresh_token access (locked w)
  unfolding refresh_body
  body-Granted refresh_token w access fresh h =
      let hashed = s.hash_refresh_token refresh_token in
      let (r, e, h₁) = >>=-eq-ok (load_refresh_token s audience now hashed) _ w h in
      record {
        rt = r.0;
        session = r.1;
        loaded = load-Loaded hashed w r.0 r.1 e;
        issued =
            issue-Issued refresh_token r.0 r.1 _ access fresh
              (rw (load-worlds hashed w r.0 r.1 e) at h₁);
      }

  pub on_reuse-eq-ok :
      (r : Result (Text × Text)) (w : World) {x : Text × Text}
      → (on_reuse s audience now r w).0 ≡ ok x
      → r ≡ ok x
  unfolding revoke_reused_refresh_token
  on_reuse-eq-ok r w h = ground arith

  -- Whenever a refresh hands out tokens, the refresh token's row is unconsumed and in time behind
  -- the locks, its session is in time and not revoked, and its user exists, is allowed and enabled,
  -- is a member of the token's organization, and has the roles that the audience wants; the access
  -- token is signed over exactly these.
  pub refresh_session-Granted :
      (refresh_token : Text) (w : World) (access fresh : Text)
      → (refresh_session s audience now refresh_token w).0 ≡ ok (access, fresh)
      → Granted refresh_token access (locked w)
  unfolding refresh_session
  refresh_session-Granted refresh_token w access fresh h =
      body-Granted refresh_token w access fresh
        (with_transaction-eq-ok (refresh_body s audience now refresh_token) w
          (on_reuse-eq-ok _ _ h)).0

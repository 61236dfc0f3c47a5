-- ===== src/Session/Create/Admission.antt =====
-- internal/session/service.go: what holds when `createSession` hands out tokens, and what is left
-- when it does not.
use authara.Prelude.{ℕ, ◌≡◌, ap, ◌∙◌, inl, inr, Option, true, false, arith}
use authara.Prelude.Text.{Text}
use authara.Store.Rows.{User, Organization, OrganizationMembership, AuthenticationMethod}
use authara.Store.Exec.{
  World, ok, Result-cases, >>=-eq-ok, with_transaction, with_transaction-eq-ok, lift,
}
use authara.Store.Users.{
  get_user_by_id, default_organization_for_user, get_organization_membership,
  get_user_platform_role_names, is_user_disabled,
}
use authara.Session.Roles.{Roles, from_db_role_names}
use authara.Session.Token.{Audience}
use authara.Session.Services.{
  Services, can_access_audience, ensure_user_allowed, record_session_authentication_denied,
}
use authara.Session.Create.{is_passkey_usable, admit, create_body, create_session_for, Tokens}

module _ (s : Services) (user_id : ℕ) (passkey_id : Option ℕ) (audience : Audience)
    (method : AuthenticationMethod) (user_agent : Text) (now : ℕ) where
  -- What the sign-in was checked against: before the locks, behind the user's, and behind both.
  pub record Admitted (w : World) : Type 0 where
    pub user : User
    pub org : Organization
    pub first : OrganizationMembership
    pub membership : OrganizationMembership
    pub roles : Roles
    pub user_found : get_user_by_id user_id w.db ≡ ok user
    pub allowed : s.is_email_allowed user.email w.db ≡ ok true
    pub usable : is_passkey_usable passkey_id user_id (s.others w.committed) ≡ true
    pub default_org : default_organization_for_user user.id (s.others w.committed) ≡ ok (org, first)
    pub is_member :
        get_organization_membership org.id user_id (s.others (s.others w.committed)) ≡ ok membership
    pub roles_known :
        from_db_role_names (get_user_platform_role_names user_id (s.others (s.others w.committed)))
        ≡ ok roles
    pub in_audience : can_access_audience roles audience ≡ true
    pub enabled : is_user_disabled user_id (s.others (s.others w.committed)) ≡ false

  admit-Admitted :
      (w : World) (user : User) (tokens : Tokens)
      → get_user_by_id user_id w.db ≡ ok user
      → s.is_email_allowed user.email w.db ≡ ok true
      → is_passkey_usable passkey_id user_id (s.others w.committed) ≡ true
      → (admit s user_id passkey_id audience method user_agent now user
          (record w { committed = s.others w.committed; db = s.others w.committed })).0
        ≡ ok (ok tokens)
      → Admitted w
  unfolding admit record_session_authentication_denied
  admit-Admitted w user tokens found allowed usable h =
      elim (Result-cases (default_organization_for_user user.id (s.others w.committed))) [
        | inr (e, missing) ↦ ground (arith, h, missing)
        | inl ((org, first), e) ↦
            elim (Result-cases
              (get_organization_membership org.id user_id (s.others (s.others w.committed)))) [
                | inr (x, missing) ↦ ground (arith, h, e, missing)
                | inl (membership, e₁) ↦
                    elim (Result-cases (
                      from_db_role_names
                        (get_user_platform_role_names user_id (s.others (s.others w.committed))))) [
                          | inr (x, unknown) ↦ ground (arith, h, e, e₁, unknown)
                          | inl (roles, e₂) ↦ record {
                            user = user;
                            org = org;
                            first = first;
                            membership = membership;
                            roles = roles;
                            user_found = found;
                            allowed = allowed;
                            usable = usable;
                            default_org = e;
                            is_member = e₁;
                            roles_known = e₂;
                            in_audience = ground (arith, h, e, e₁, e₂);
                            enabled = ground (arith, h, e, e₁, e₂);
                          }
                        ]
              ]
      ]

  abbrev behind_lock : World → World
  behind_lock w = record w { committed = s.others w.committed; db = s.others w.committed }

  body-admit :
      (w : World) (tokens : Tokens)
      → (create_body s user_id passkey_id audience method user_agent now w).0 ≡ ok (ok tokens)
      → (user : User) × (get_user_by_id user_id w.db ≡ ok user)
        × (s.is_email_allowed user.email w.db ≡ ok true)
        × (is_passkey_usable passkey_id user_id (s.others w.committed) ≡ true)
        × ((admit s user_id passkey_id audience method user_agent now user (behind_lock w)).0
            ≡ ok (ok tokens))
  unfolding create_body ensure_user_allowed record_session_authentication_denied
  body-admit w tokens h = elim (Result-cases (get_user_by_id user_id w.db)) [
    | inr (e, missing) ↦ ground (arith, h, missing)
    | inl (user, found) ↦
        (user, found, ground (arith, h, found), ground (arith, h, found), ground (arith, h, found))
  ]

  body-of :
      (w : World) (tokens : Tokens)
      → (create_session_for s user_id passkey_id audience method user_agent now w).0 ≡ ok tokens
      → (create_body s user_id passkey_id audience method user_agent now w).0 ≡ ok (ok tokens)
  unfolding create_session_for
  body-of w tokens h =
      let body = create_body s user_id passkey_id audience method user_agent now in
      let (r, e, h₁) = >>=-eq-ok (with_transaction body) (λ r. lift r) w h in
      (with_transaction-eq-ok body w e).0 ∙ ap ok h₁

  -- Whenever a sign-in hands out tokens, the user exists and the access policy allows the address;
  -- a passkey that is named is the user's and not restricted; and behind the locks the user is a
  -- member of the default organization, has the roles that the audience wants, and is enabled.
  pub create_session_for-Admitted :
      (w : World) (tokens : Tokens)
      → (create_session_for s user_id passkey_id audience method user_agent now w).0 ≡ ok tokens
      → Admitted w
  create_session_for-Admitted w tokens h =
      let (user, found, allowed, usable, h₁) = body-admit w tokens (body-of w tokens h) in
      admit-Admitted w user tokens found allowed usable h₁

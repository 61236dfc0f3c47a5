-- ===== src/Store/Users.antt =====
-- internal/store/users.go, platform_roles.go and organizations.go: the queries on users and
-- memberships that the sessions use.
use authara.Prelude.{
  ℕ, ◌==◌, Option, none, some, Bool, true, false, ◌&&◌, ◌||◌, ltb, List, [], ◌∷◌, map, find?, any,
  filter, is_some, if◌then◌else◌,
}
use authara.Prelude.Text.{Text}
use authara.Store.Rows.{
  User, Organization, OrganizationKind, personal, team, OrganizationMembership, Passkey,
}
use authara.Store.Exec.{
  Db, Result, ok, err, Error, user_not_found, organization_not_found,
  organization_membership_not_found, passkey_not_found,
}

-- `mapNoRows`.
abbrev pub or_missing {ℓ} : {A : Type ℓ} → Option A → Error → Result A
or_missing none e = err e
or_missing (some a) e = ok a

abbrev pub is_personal : OrganizationKind → Bool
is_personal personal = true
is_personal team = false

-- `p != nil && *p == userID`.
abbrev pub is_user : ℕ → Option ℕ → Bool
is_user user_id none = false
is_user user_id (some id) = id == user_id

unfoldable pub get_user_by_id : ℕ → Db → Result User
get_user_by_id user_id d = or_missing (find? (λ (u : User). u.id == user_id) d.users) user_not_found

-- SELECT id … FOR KEY SHARE, and FOR UPDATE.
unfoldable pub lock_user : ℕ → Db → Result (Unit {0})
lock_user user_id d =
    if any (λ (u : User). u.id == user_id) d.users then ok tt else err user_not_found

unfoldable pub is_user_disabled : ℕ → Db → Bool
is_user_disabled user_id d = any (λ (u : User). u.id == user_id && is_some u.disabled_at) d.users

unfoldable pub get_user_platform_role_names : ℕ → Db → List Text
get_user_platform_role_names user_id d =
    map (λ (r : ℕ × Text). r.1) (filter (λ (r : ℕ × Text). r.0 == user_id) d.platform_roles)

unfoldable pub get_passkey_by_id : ℕ → Db → Result Passkey
get_passkey_by_id passkey_id d =
    or_missing (find? (λ (p : Passkey). p.id == passkey_id) d.passkeys) passkey_not_found

unfoldable pub get_organization_by_id : ℕ → Db → Result Organization
get_organization_by_id organization_id d =
    or_missing (find? (λ (o : Organization). o.id == organization_id) d.organizations)
      organization_not_found

unfoldable pub lock_organization : ℕ → Db → Result (Unit {0})
lock_organization organization_id d =
    if any (λ (o : Organization). o.id == organization_id) d.organizations
    then ok tt
    else err organization_not_found

unfoldable pub get_organization_membership : ℕ → ℕ → Db → Result OrganizationMembership
get_organization_membership organization_id user_id d =
    or_missing
      (find?
        (λ (m : OrganizationMembership).
          m.organization_id == organization_id && m.user_id == user_id)
        d.memberships)
      organization_membership_not_found

-- SELECT … WHERE kind = 'personal' AND created_by_user_id = $1, joined with the membership.
unfoldable pub get_personal_organization_for_user :
    ℕ → Db → Result (Organization × OrganizationMembership)
unfolding get_organization_membership
get_personal_organization_for_user user_id d =
    let mine = λ (o : Organization).
      is_personal o.kind
      && is_user user_id o.created_by_user_id
      && any (λ (m : OrganizationMembership). m.organization_id == o.id && m.user_id == user_id)
          d.memberships in
    elim (find? mine d.organizations) [
      | none ↦ err organization_not_found
      | some o ↦ elim (get_organization_membership o.id user_id d) [
        | err e ↦ err organization_not_found
        | ok m ↦ ok (o, m)
      ]
    ]

-- The first row by (created_at, organization_id) of the user's memberships.
abbrev earlier : OrganizationMembership → OrganizationMembership → OrganizationMembership
earlier m n =
    if ltb n.created_at m.created_at
      || (n.created_at == m.created_at && ltb n.organization_id m.organization_id)
    then n
    else m

unfoldable pub first_membership : ℕ → List OrganizationMembership → Option OrganizationMembership
first_membership user_id [] = none
first_membership user_id (m ∷ ms) =
    let rest = first_membership user_id ms in
    if m.user_id == user_id then elim rest [ none ↦ some m | some n ↦ some (earlier m n) ] else rest

-- internal/organization/service.go: `DefaultOrganizationForUser`.
unfoldable pub default_organization_for_user :
    ℕ → Db → Result (Organization × OrganizationMembership)
unfolding get_personal_organization_for_user first_membership
default_organization_for_user user_id d = elim (get_personal_organization_for_user user_id d) [
  | ok r ↦ ok r
  | err _ ↦ elim (first_membership user_id d.memberships) [
    | none ↦ err organization_not_found
    | some m ↦ elim (get_organization_by_id m.organization_id d) [
      | err e ↦ err e
      | ok o ↦ ok (o, m)
    ]
  ]
]

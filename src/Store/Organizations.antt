-- ===== src/Store/Organizations.antt =====
-- internal/store/organizations.go and sessions.go: the statements on organizations and memberships,
-- with the constraints of the migrations that a statement can run into.
pub mod Owners
use authara.Prelude.{ℕ, ◌==◌, Bool, true, false, not, ◌&&◌, ◌||◌, List, any, filter, if◌then◌else◌}
use authara.Store.Rows.{
  Session, RefreshToken, AuthenticationChallenge, Organization, OrganizationMembership,
  OrganizationRole, owner, admin, member,
}
use authara.Store.Exec.{
  Db, Result, ok, err, organization_not_found, organization_membership_not_found, unique_violation,
  foreign_key_violation,
}
use authara.Store.Sessions.{update_where}

abbrev pub is_owner : OrganizationRole → Bool
is_owner owner = true
is_owner admin = false
is_owner member = false

-- A membership's key.
abbrev pub has_key : ℕ → ℕ → OrganizationMembership → Bool
has_key organization_id user_id m = m.organization_id == organization_id && m.user_id == user_id

abbrev pub in_organization : ℕ → OrganizationMembership → Bool
in_organization organization_id m = m.organization_id == organization_id

abbrev pub is_owner_of : ℕ → OrganizationMembership → Bool
is_owner_of organization_id m = m.organization_id == organization_id && is_owner m.role

-- The rows in the order of the table: the callers do not depend on the ORDER BY, except for the
-- order of the e-mails.
unfoldable pub list_organization_memberships_by_organization_id :
    ℕ → Db → List OrganizationMembership
list_organization_memberships_by_organization_id organization_id d =
    filter (in_organization organization_id) d.memberships

-- An INSERT or UPDATE to a second owner runs into the index organization_memberships_single_owner.
unfoldable pub update_organization_membership_role : ℕ → ℕ → OrganizationRole → Db → Result Db
update_organization_membership_role organization_id user_id role d =
    let here = has_key organization_id user_id in
    if any here d.memberships
    then (if is_owner role && any (λ m. is_owner_of organization_id m && not (here m)) d.memberships
        then err unique_violation
        else ok (record d {
          memberships = update_where here (λ m. record m { role = role }) d.memberships;
        }))
    else err organization_membership_not_found

unfoldable pub delete_organization_membership : ℕ → ℕ → Db → Result Db
delete_organization_membership organization_id user_id d =
    if any (has_key organization_id user_id) d.memberships
    then ok (record d {
      memberships = filter (λ m. not (has_key organization_id user_id m)) d.memberships;
    })
    else err organization_membership_not_found

-- DELETE FROM sessions: refresh tokens and challenges go with their session.
abbrev pub delete_sessions : (Session → Bool) → Db → Db
delete_sessions p d =
    let gone = λ (id : ℕ). any (λ (x : Session). x.id == id && p x) d.sessions in
    record d {
      sessions = filter (λ x. not (p x)) d.sessions;
      refresh_tokens = filter (λ (t : RefreshToken). not (gone t.session_id)) d.refresh_tokens;
      authentication_challenges =
          filter (λ (c : AuthenticationChallenge). not (gone c.session_id))
            d.authentication_challenges;
    }

unfoldable pub delete_sessions_by_organization_membership : ℕ → ℕ → Db → Db
delete_sessions_by_organization_membership organization_id user_id =
    delete_sessions (λ x. x.active_organization_id == organization_id && x.user_id == user_id)

unfoldable pub delete_sessions_by_organization : ℕ → Db → Db
delete_sessions_by_organization organization_id =
    delete_sessions (λ x. x.active_organization_id == organization_id)

-- The memberships go with their organization; sessions and refresh tokens hold on to it.
unfoldable pub delete_organization : ℕ → Db → Result Db
delete_organization organization_id d =
    if any (λ (o : Organization). o.id == organization_id) d.organizations
    then (if any (λ (x : Session). x.active_organization_id == organization_id) d.sessions
          || any (λ (t : RefreshToken). t.organization_id == organization_id) d.refresh_tokens
        then err foreign_key_violation
        else ok (record d {
          organizations =
              filter (λ (o : Organization). not (o.id == organization_id)) d.organizations;
          memberships = filter (λ m. not (in_organization organization_id m)) d.memberships;
        }))
    else err organization_not_found

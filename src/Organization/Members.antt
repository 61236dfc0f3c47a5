-- ===== src/Organization/Members.antt =====
-- internal/organization/service.go: `UpdateOrganizationMember`.
use authara.Prelude.{ℕ, Bool, true, false, not, ◌&&◌, ◌||◌, if◌then◌else◌}
use authara.Store.Rows.{
  OrganizationMembership, OrganizationRole, owner, admin, member, organization_role_changed,
  membership_updated,
}
use authara.Store.Exec.{
  Exec, organization_actor_not_allowed, last_organization_owner, invalid_organization_role, pure,
  raise, reads, updates, waits, with_transaction, ◌>>=◌, ◌>>◌,
}
use authara.Store.Users.{
  get_user_by_id, get_organization_by_id, lock_organization, get_organization_membership,
}
use authara.Store.Outbox.{enqueue, publish}
use authara.Store.Organizations.{is_owner, update_organization_membership_role}
use authara.Organization.Services.{OrgServices, as_actor}
use authara.Organization.Lifecycle.{revoke_membership}

abbrev pub same_role : OrganizationRole → OrganizationRole → Bool
same_role owner owner = true
same_role owner admin = false
same_role owner member = false
same_role admin owner = false
same_role admin admin = true
same_role admin member = false
same_role member owner = false
same_role member admin = false
same_role member member = true

abbrev pub is_admin : OrganizationRole → Bool
is_admin r = same_role r admin

module _ (s : OrgServices) where
  unfoldable pub change_role : ℕ → ℕ → OrganizationRole → Exec OrganizationMembership
  change_role organization_id user_id role = do
    revoke_membership s user_id organization_id
    updates (update_organization_membership_role organization_id user_id role)
    m ← reads (get_organization_membership organization_id user_id)
    user ← reads (get_user_by_id user_id)
    enqueue user.email organization_role_changed s.clock
    publish (membership_updated m)
    pure m

  -- The lock and the checks.
  unfoldable pub check_update : ℕ → ℕ → ℕ → Exec OrganizationMembership
  check_update organization_id user_id actor_id = do
    waits s.others (lock_organization organization_id)
    _ ← reads (get_organization_by_id organization_id)
    actor ← reads (λ d. as_actor (get_organization_membership organization_id actor_id d))
    current ← reads (get_organization_membership organization_id user_id)
    if not (is_owner actor.role) && (not (is_admin actor.role) || is_owner current.role)
        then raise organization_actor_not_allowed
        else pure tt
    if is_owner current.role then raise last_organization_owner else pure current

  unfoldable pub update_body : ℕ → ℕ → ℕ → OrganizationRole → Exec OrganizationMembership
  update_body organization_id user_id actor_id role = do
    current ← check_update organization_id user_id actor_id
    if same_role current.role role then pure current else change_role organization_id user_id role

  -- Only the roles of admins and members can be given.
  unfoldable pub update_organization_member :
      ℕ → ℕ → ℕ → OrganizationRole → Exec OrganizationMembership
  unfolding with_transaction
  update_organization_member organization_id user_id actor_id role =
      if is_owner role
      then raise invalid_organization_role
      else with_transaction (update_body organization_id user_id actor_id role)

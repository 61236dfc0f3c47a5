-- ===== src/Organization/Lifecycle.antt =====
-- internal/organization/lifecycle.go: members leave, organizations are deleted or change hands.
use authara.Prelude.{
  ℕ, ◌==◌, none, some, Bool, true, false, not, ◌&&◌, ◌||◌, List, length, count_if, if◌then◌else◌,
}
use authara.Store.Rows.{
  User, Organization, OrganizationMembership, OrganizationRole, owner, admin, member,
  organization_membership_removed, organization_ownership_transferred, membership_deleted,
  membership_updated,
}
use authara.Store.Exec.{
  Exec, ok, Error, membership_scope, personal_organization_immutable, organization_actor_not_member,
  organization_actor_not_allowed, last_organization_member, last_organization_owner,
  organization_membership_not_found, invalid_organization_ownership_transfer, pure, raise, reads,
  writes, updates, waits, or_else, with_transaction, ◌>>=◌, ◌>>◌,
}
use authara.Store.Users.{
  is_personal, is_user, get_user_by_id, lock_user, get_organization_by_id, lock_organization,
  get_organization_membership,
}
use authara.Store.Outbox.{enqueue, publish}
use authara.Store.Organizations.{
  is_owner, list_organization_memberships_by_organization_id, update_organization_membership_role,
  delete_organization_membership, delete_sessions_by_organization_membership,
}
use authara.Session.Token.{revoke_scope}
use authara.Organization.Services.{OrgMode, OrgServices, is_multi, as_actor}

unfoldable pub can_remove_organization_member : OrganizationRole → OrganizationRole → Bool
can_remove_organization_member owner target = true
can_remove_organization_member admin target = not (is_owner target)
can_remove_organization_member member target = false

unfoldable pub count_organization_owners : List OrganizationMembership → ℕ
count_organization_owners = count_if (λ m. is_owner m.role)

-- The creator of a personal organization stays in it, and outside the mode of many organizations
-- everybody does.
unfoldable pub is_bound : OrgMode → Organization → ℕ → Bool
is_bound mode org user_id =
    is_personal org.kind
    && (not (is_multi mode)
        || elim org.created_by_user_id [ none ↦ true | some id ↦ is_user user_id (some id) ])

module _ (s : OrgServices) where
  abbrev pub revoke_membership : ℕ → ℕ → Exec (Unit {0})
  revoke_membership user_id organization_id =
      revoke_scope s.cache (membership_scope user_id organization_id) s.clock

  -- `removeOrganizationMembership` with a notice.
  unfoldable pub remove_organization_membership :
      Organization → OrganizationMembership → Exec (Unit {0})
  remove_organization_membership org m = do
    user ← reads (get_user_by_id m.user_id)
    revoke_membership m.user_id m.organization_id
    writes (delete_sessions_by_organization_membership m.organization_id m.user_id)
    updates (delete_organization_membership m.organization_id m.user_id)
    enqueue user.email organization_membership_removed s.clock
    publish (membership_deleted m)

  -- The lock and the checks.
  unfoldable pub check_removal : ℕ → ℕ → ℕ → Exec (Organization × OrganizationMembership)
  check_removal organization_id user_id actor_id = do
    waits s.others (lock_organization organization_id)
    org ← reads (get_organization_by_id organization_id)
    if is_bound s.mode org user_id then raise personal_organization_immutable else pure tt
    actor ← reads (λ d. as_actor (get_organization_membership organization_id actor_id d))
    target ← reads (get_organization_membership organization_id user_id)
    if not (actor_id == user_id) && not (can_remove_organization_member actor.role target.role)
        then raise organization_actor_not_allowed
        else pure tt
    memberships ←
        reads (λ d. ok (list_organization_memberships_by_organization_id organization_id d))
    if length memberships == 1 then raise last_organization_member else pure tt
    if is_owner target.role && count_organization_owners memberships == 1
        then raise last_organization_owner
        else pure (org, target)

  unfoldable pub remove_body : ℕ → ℕ → ℕ → Exec (Unit {0})
  remove_body organization_id user_id actor_id = do
    (org, target) ← check_removal organization_id user_id actor_id
    remove_organization_membership org target

  unfoldable pub remove_organization_member : ℕ → ℕ → ℕ → Exec (Unit {0})
  unfolding with_transaction
  remove_organization_member organization_id user_id actor_id =
      with_transaction (remove_body organization_id user_id actor_id)

  abbrev pub lock_or : ℕ → Error → Exec (Unit {0})
  lock_or user_id e = waits s.others (λ d. or_else (lock_user user_id d) e)

  -- The roles change in an order in which there are never two owners.
  unfoldable pub transfer_roles : ℕ → ℕ → ℕ → Exec (Unit {0})
  transfer_roles organization_id actor_id new_owner_id = do
    updates (update_organization_membership_role organization_id actor_id admin)
    old_owner ← reads (get_organization_membership organization_id actor_id)
    updates (update_organization_membership_role organization_id new_owner_id owner)
    new_owner ← reads (get_organization_membership organization_id new_owner_id)
    publish (membership_updated new_owner)
    publish (membership_updated old_owner)

  -- The locks and the checks, with the two users.
  unfoldable pub check_transfer : ℕ → ℕ → ℕ → Exec (User × User)
  check_transfer organization_id actor_id new_owner_id = do
    lock_or actor_id organization_actor_not_member
    lock_or new_owner_id organization_membership_not_found
    waits s.others (lock_organization organization_id)
    org ← reads (get_organization_by_id organization_id)
    if is_personal org.kind then raise personal_organization_immutable else pure tt
    actor ← reads (λ d. as_actor (get_organization_membership organization_id actor_id d))
    if is_owner actor.role then pure tt else raise organization_actor_not_allowed
    _ ← reads (get_organization_membership organization_id new_owner_id)
    previous_user ← reads (get_user_by_id actor_id)
    new_user ← reads (get_user_by_id new_owner_id)
    pure (previous_user, new_user)

  -- The cut-offs, the roles, and the e-mails to both.
  unfoldable pub hand_over : ℕ → ℕ → ℕ → User → User → Exec (Unit {0})
  unfolding transfer_roles
  hand_over organization_id actor_id new_owner_id previous_user new_user = do
    revoke_membership new_owner_id organization_id
    revoke_membership actor_id organization_id
    transfer_roles organization_id actor_id new_owner_id
    enqueue previous_user.email organization_ownership_transferred s.clock
    enqueue new_user.email organization_ownership_transferred s.clock

  unfoldable pub transfer_body : ℕ → ℕ → ℕ → Exec (Unit {0})
  transfer_body organization_id actor_id new_owner_id = do
    (previous_user, new_user) ← check_transfer organization_id actor_id new_owner_id
    hand_over organization_id actor_id new_owner_id previous_user new_user

  unfoldable pub transfer_organization_ownership : ℕ → ℕ → ℕ → Exec (Unit {0})
  unfolding with_transaction
  transfer_organization_ownership organization_id actor_id new_owner_id =
      if actor_id == new_owner_id
      then raise invalid_organization_ownership_transfer
      else with_transaction (transfer_body organization_id actor_id new_owner_id)

-- ===== src/Organization/Deletion.antt =====
-- internal/organization/lifecycle.go: `DeleteOrganization`.
use authara.Prelude.{ℕ, ◌&&◌, List, [], ◌∷◌, length, ltb, if◌then◌else◌}
use authara.Prelude.Text.{Text}
use authara.Store.Rows.{
  User, Organization, OrganizationMembership, organization_deleted, organization_deleted_event,
}
use authara.Store.Exec.{
  Exec, ok, personal_organization_immutable, organization_actor_not_allowed,
  organization_has_other_members, pure, raise, reads, writes, updates, waits, with_transaction,
  ◌>>=◌, ◌>>◌,
}
use authara.Store.Users.{
  is_personal, get_user_by_id, get_organization_by_id, lock_organization,
  get_organization_membership,
}
use authara.Store.Outbox.{enqueue, publish}
use authara.Store.Organizations.{
  is_owner, list_organization_memberships_by_organization_id, delete_sessions_by_organization,
  delete_organization,
}
use authara.Organization.Services.{OrgServices, is_single, as_actor}
use authara.Organization.Lifecycle.{revoke_membership}

module _ (s : OrgServices) where
  -- The three loops over the members: their addresses, their cut-offs, and their e-mails.
  unfoldable pub recipients : List OrganizationMembership → Exec (List Text)
  recipients [] = pure []
  recipients (m ∷ ms) =
      let rest = recipients ms in
      reads (get_user_by_id m.user_id) >>= λ (user : User).
      rest >>= λ emails. pure (user.email ∷ emails)

  unfoldable pub revoke_memberships : ℕ → List OrganizationMembership → Exec (Unit {0})
  revoke_memberships organization_id [] = pure tt
  revoke_memberships organization_id (m ∷ ms) =
      let rest = revoke_memberships organization_id ms in
      revoke_membership s m.user_id organization_id >> rest

  unfoldable pub enqueue_all : List Text → Exec (Unit {0})
  enqueue_all [] = pure tt
  enqueue_all (email ∷ emails) =
      let rest = enqueue_all emails in enqueue email organization_deleted s.clock >> rest

  -- `deleteOrganization` with notices.
  unfoldable pub delete_with_notice : Organization → List OrganizationMembership → Exec (Unit {0})
  delete_with_notice org memberships = do
    emails ← recipients memberships
    revoke_memberships org.id memberships
    writes (delete_sessions_by_organization org.id)
    updates (delete_organization org.id)
    enqueue_all emails
    publish (organization_deleted_event org)

  unfoldable pub delete_body : ℕ → ℕ → Exec (Unit {0})
  delete_body organization_id actor_id = do
    waits s.others (lock_organization organization_id)
    org ← reads (get_organization_by_id organization_id)
    if is_personal org.kind then raise personal_organization_immutable else pure tt
    actor ← reads (λ d. as_actor (get_organization_membership organization_id actor_id d))
    if is_owner actor.role then pure tt else raise organization_actor_not_allowed
    memberships ←
        reads (λ d. ok (list_organization_memberships_by_organization_id organization_id d))
    if is_single s.mode && ltb 1 (length memberships)
        then raise organization_has_other_members
        else delete_with_notice org memberships

  unfoldable pub delete_organization_by : ℕ → ℕ → Exec (Unit {0})
  unfolding with_transaction
  delete_organization_by organization_id actor_id =
      with_transaction (delete_body organization_id actor_id)

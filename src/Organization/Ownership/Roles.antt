-- ===== src/Organization/Ownership/Roles.antt =====
-- internal/organization/service.go: the owner, when a member gets another role.
use authara.Prelude.{ℕ, ◌≡◌, ◌⊎◌, inl, inr, false, List, arith}
use authara.Store.Rows.{OrganizationMembership, OrganizationRole}
use authara.Store.Exec.{Db, World, ok, with_transaction, pure, raise, invalid_organization_role}
use authara.Store.Keeps.{Both, Both-bind_ok, Both-either, transaction-Both}
use authara.Store.Users.{get_organization_membership}
use authara.Store.Sessions.{update_where}
use authara.Store.Outbox.{enqueue}
use authara.Store.Organizations.{is_owner, has_key, update_organization_membership_role}
use authara.Store.Organizations.Owners.{Owned}
use authara.Session.Token.{revoke_scope}
use authara.Organization.Services.{OrgServices}
use authara.Organization.Members.{
  check_update, change_role, same_role, update_body, update_organization_member,
}
use authara.Organization.Ownership.Statements.{leaves_memberships, changed-Owned}

abbrev pub with_role :
    ℕ → ℕ → OrganizationRole → List OrganizationMembership → List OrganizationMembership
with_role i u r = update_where (has_key i u) (λ m. record m { role = r })

module _ (s : OrgServices) where
  change_role-memberships :
      (i u : ℕ) (r : OrganizationRole) (w : World)
      → let w' = (change_role s i u r w).1 in
        (w'.committed ≡ w.committed)
        × ((w'.db.memberships ≡ w.db.memberships)
            ⊎ (w'.db.memberships ≡ with_role i u r w.db.memberships))
  unfolding change_role revoke_scope update_organization_membership_role enqueue
  change_role-memberships i u r w = ground arith

  check_update-world :
      (i u actor_id : ℕ) (w : World)
      → let d = s.others w.committed in
        (check_update s i u actor_id w).1 ≡ record w { committed = d; db = d }
  unfolding check_update
  check_update-world i u actor_id w = ground arith

  check_update-ok :
      (i u actor_id : ℕ) (w : World) (current : OrganizationMembership)
      → (check_update s i u actor_id w).0 ≡ ok current
      → (get_organization_membership i u (s.others w.committed) ≡ ok current)
        × (is_owner current.role ≡ false)
  unfolding check_update
  check_update-ok i u actor_id w current h = ground arith

module _ (s : OrgServices) (rely : (d : Db) → Owned d → Owned (s.others d)) where
  update_body-Both :
      (i u actor_id : ℕ) (r : OrganizationRole) (w : World)
      → is_owner r ≡ false
      → Both Owned w
      → Both Owned (update_body s i u actor_id r w).1
  unfolding update_body
  update_body-Both i u actor_id r w plain h =
      let d = s.others w.committed in
      let k = rely w.committed h.0 in
      Both-bind_ok Owned (check_update s i u actor_id) _ w
        (rw (check_update-world s i u actor_id w) (k, k))
        λ current e.
          let (found, plain_now) = check_update-ok s i u actor_id w current e in
          let w₁ = record w { committed = d; db = d } in
          let (same, changed) = change_role-memberships s i u r w₁ in
          let w₂ = (change_role s i u r w₁).1 in
          rw (check_update-world s i u actor_id w) (
            Both-either Owned (same_role current.role r) (pure current) (change_role s i u r) w₁
              (λ _. (k, k))
              λ _. (
                rw same k,
                elim changed [
                  | inl left ↦ leaves_memberships d w₂.db left k
                  | inr new ↦ changed-Owned i u r current d w₂.db k found plain_now plain new
                ],
              ))

  pub update-Both :
      (i u actor_id : ℕ) (r : OrganizationRole) (w : World)
      → Both Owned w
      → Both Owned (update_organization_member s i u actor_id r w).1
  unfolding update_organization_member
  update-Both i u actor_id r w h =
      Both-either Owned (is_owner r) (raise invalid_organization_role)
        (with_transaction (update_body s i u actor_id r)) w (λ _. h)
        λ plain.
          transaction-Both Owned (update_body s i u actor_id r) w
            (update_body-Both i u actor_id r w plain h)

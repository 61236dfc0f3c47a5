-- ===== src/Organization/Ownership/Removal.antt =====
-- internal/organization/lifecycle.go: the owner, when a member leaves or the organization ends.
use authara.Prelude.{ℕ, ◌==◌, ◌≡◌, refl, ◌⊎◌, inl, inr, false, not, ◌&&◌, arith, filter}
use authara.Store.Rows.{Organization, OrganizationMembership}
use authara.Store.Exec.{Db, World, ok}
use authara.Store.Keeps.{Both, Both-bind_ok, transaction-Both}
use authara.Store.Users.{get_organization_membership}
use authara.Store.Outbox.{enqueue}
use authara.Store.Organizations.{
  is_owner, has_key, list_organization_memberships_by_organization_id,
  delete_organization_membership, delete_sessions_by_organization_membership,
}
use authara.Store.Organizations.Owners.{Owned}
use authara.Session.Token.{revoke_scope}
use authara.Organization.Services.{OrgServices}
use authara.Organization.Lifecycle.{
  count_organization_owners, remove_organization_membership, check_removal, remove_body,
  remove_organization_member,
}
use authara.Organization.Ownership.Statements.{
  leaves_memberships, found-members, count_organization_owners-owners, deleted-Owned,
}

-- The member is found and is not the owner.
abbrev Plain : ℕ → ℕ → OrganizationMembership → Db → Type 0
Plain i u m d = Owned d × (get_organization_membership i u d ≡ ok m) × (is_owner m.role ≡ false)

sessions-Plain :
    (i u j v : ℕ) (m : OrganizationMembership) (d : Db)
    → Plain i u m d
    → Plain i u m (delete_sessions_by_organization_membership j v d)
unfolding delete_sessions_by_organization_membership get_organization_membership
sessions-Plain i u j v m d h = (leaves_memberships d _ refl h.0, h.1, h.2)

module _ (s : OrgServices) where
  -- What a removal does to the memberships, whichever step fails.
  removed-memberships :
      (org : Organization) (m : OrganizationMembership) (w : World)
      → let w' = (remove_organization_membership s org m w).1 in
        (w'.committed ≡ w.committed)
        × ((w'.db.memberships ≡ w.db.memberships)
            ⊎ (w'.db.memberships
                ≡ filter (λ x. not (has_key m.organization_id m.user_id x)) w.db.memberships))
  unfolding remove_organization_membership revoke_scope delete_sessions_by_organization_membership
      delete_organization_membership enqueue
  removed-memberships org m w = ground arith

  plain-target :
      (i u : ℕ) (target : OrganizationMembership) (d : Db)
      → Owned d
      → get_organization_membership i u d ≡ ok target
      → is_owner target.role
          && count_organization_owners (list_organization_memberships_by_organization_id i d) == 1
        ≡ false
      → is_owner target.role ≡ false
  plain-target i u target d h found others = ground (
    arith,
    others,
    h.one i,
    found-members i u target d found,
    count_organization_owners-owners i d,
  )

  check_removal-world :
      (i u actor_id : ℕ) (w : World)
      → let d = s.others w.committed in
        (check_removal s i u actor_id w).1 ≡ record w { committed = d; db = d }
  unfolding check_removal
  check_removal-world i u actor_id w = ground arith

  check_removal-ok :
      (i u actor_id : ℕ) (w : World) (org : Organization) (target : OrganizationMembership)
      → (check_removal s i u actor_id w).0 ≡ ok (org, target)
      → let d = s.others w.committed in
        (get_organization_membership i u d ≡ ok target)
        × (is_owner target.role
              && count_organization_owners (list_organization_memberships_by_organization_id i d)
                == 1
            ≡ false)
  unfolding check_removal
  check_removal-ok i u actor_id w org target h = ground arith

  module _ (rely : (d : Db) → Owned d → Owned (s.others d)) where
    remove_body-Both :
        (i u actor_id : ℕ) (w : World) → Both Owned w → Both Owned (remove_body s i u actor_id w).1
    unfolding remove_body
    remove_body-Both i u actor_id w h =
        let check = check_removal s i u actor_id in
        let d = s.others w.committed in
        let k = rely w.committed h.0 in
        Both-bind_ok Owned check _ w (rw (check_removal-world i u actor_id w) (k, k))
          λ (org, target) e.
            let (found, others) = check_removal-ok i u actor_id w org target e in
            let of = found-members i u target d found in
            let (same, changed) =
              removed-memberships org target (record w { committed = d; db = d }) in
            let w₁ =
              (remove_organization_membership s org target
                (record w { committed = d; db = d })).1 in
            let plain = plain-target i u target d k found others in
            rw (check_removal-world i u actor_id w) (
              rw same k,
              elim changed [
                | inl left ↦ leaves_memberships d w₁.db left k
                | inr gone ↦
                    deleted-Owned target.organization_id target.user_id target d w₁.db k
                      (cc (found, of.0, of.1)) plain gone
              ],
            )

    pub remove-Both :
        (i u actor_id : ℕ) (w : World)
        → Both Owned w
        → Both Owned (remove_organization_member s i u actor_id w).1
    unfolding remove_organization_member
    remove-Both i u actor_id w h =
        transaction-Both Owned (remove_body s i u actor_id) w (remove_body-Both i u actor_id w h)

-- ===== src/Organization/Ownership/Transfer.antt =====
-- internal/organization/lifecycle.go: the owner, when the ownership is transferred.
use authara.Prelude.{
  ℕ, ◌==◌, ◌≡◌, refl, ◌⊎◌, inl, inr, Bool, true, List, [], ◌∷◌, arith, any, find?, some, Bool-cases,
}
use authara.Prelude.Text.{Text}
use authara.Store.Rows.{
  User, OrganizationMembership, owner, admin, EmailTemplate, organization_ownership_transferred,
}
use authara.Store.Exec.{
  Db, World, membership_scope, ok, err, Result-cases, with_transaction, raise,
  invalid_organization_ownership_transfer, >>=-eq-ok, >>=-eq-both, Result, continue,
}
use authara.Store.Keeps.{Both, Both-either, transaction-Both_ok}
use authara.Store.Users.{get_organization_membership}
use authara.Store.Outbox.{enqueue}
use authara.Store.Organizations.{is_owner, has_key, update_organization_membership_role}
use authara.Store.Organizations.Owners.{Owned}
use authara.Session.Token.Keeps.{revoke_scope-world}
use authara.Organization.Services.{OrgServices}
use authara.Organization.Lifecycle.{
  check_transfer, hand_over, transfer_roles, revoke_membership, transfer_body,
  transfer_organization_ownership,
}
use authara.Organization.Ownership.Statements.{transferred-Owned}
use authara.Organization.Ownership.Roles.{with_role}

module _ (s : OrgServices) where
  check_transfer-world :
      (i u v : ℕ) (w : World)
      → let w' = (check_transfer s i u v w).1 in
        (w'.committed ≡ w'.db)
        × ((w'.db ≡ s.others w.committed)
            ⊎ (w'.db ≡ s.others (s.others w.committed))
            ⊎ (w'.db ≡ s.others (s.others (s.others w.committed))))
  unfolding check_transfer
  check_transfer-world i u v w = ground arith

  check_transfer-ok :
      (i u v : ℕ) (w : World) (users : User × User)
      → (check_transfer s i u v w).0 ≡ ok users
      → let d = (check_transfer s i u v w).1.db in
        (m : OrganizationMembership) × (get_organization_membership i u d ≡ ok m)
        × (is_owner m.role ≡ true)
  unfolding check_transfer
  check_transfer-ok i u v w users h =
      let d = s.others (s.others (s.others w.committed)) in
      elim (Result-cases (get_organization_membership i u d)) [
        | inr (e, missing) ↦ ground (arith, h, missing)
        | inl (m, found) ↦ (m, ground (arith, h, found), ground (arith, h, found))
      ]

  enqueue-memberships :
      (to : Text) (t : EmailTemplate) (w : World)
      → let w' = (enqueue to t s.clock w).1 in
        (w'.committed ≡ w.committed) × (w'.db.memberships ≡ w.db.memberships)
  unfolding enqueue
  enqueue-memberships to t w = ground arith

  transfer_roles-memberships :
      (i u v : ℕ) (w : World)
      → let (r, w') = transfer_roles s i u v w in
        (w'.committed ≡ w.committed)
        × (r ≡ ok tt
            → (w'.db.memberships ≡ with_role i v owner (with_role i u admin w.db.memberships))
              × (any (has_key i v) (with_role i u admin w.db.memberships) ≡ true))
  unfolding transfer_roles update_organization_membership_role
  transfer_roles-memberships i u v w = (ground arith, λ h. (ground arith, ground arith))

  hand_over-memberships :
      (i u v : ℕ) (x y : User) (w : World)
      → let (r, w') = hand_over s i u v x y w in
        (w'.committed ≡ w.committed)
        × (r ≡ ok tt
            → (w'.db.memberships ≡ with_role i v owner (with_role i u admin w.db.memberships))
              × (any (has_key i v) (with_role i u admin w.db.memberships) ≡ true))
  unfolding hand_over
  hand_over-memberships i u v x y w =
      let w₁ = (revoke_membership s v i w).1 in
      let w₂ = (revoke_membership s u i w₁).1 in
      let w₃ = (transfer_roles s i u v w₂).1 in
      let w₄ = (enqueue x.email organization_ownership_transferred s.clock w₃).1 in
      let a = revoke_scope-world s.cache (membership_scope v i) s.clock w in
      let b = revoke_scope-world s.cache (membership_scope u i) s.clock w₁ in
      let c = transfer_roles-memberships i u v w₂ in
      let d = enqueue-memberships x.email organization_ownership_transferred w₃ in
      let e = enqueue-memberships y.email organization_ownership_transferred w₄ in
      (
        ground (arith, a, b, c.0, d, e),
        λ h. (ground (arith, h, a, b, c, d, e), ground (arith, h, a, b, c, d, e)),
      )

find?-any :
    (p : OrganizationMembership → Bool) (ms : List OrganizationMembership)
    → any p ms ≡ true
    → (m : OrganizationMembership) × (find? p ms ≡ some m)
unfolding any find?
find?-any p [] h = cc
find?-any p (m ∷ ms) h = elim (Bool-cases (p m)) [
  | inl here ↦ (m, ground (arith, here))
  | inr not_here ↦
      let (n, found) = find?-any p ms (ground (arith, h, not_here)) in
      (n, ground (arith, not_here, found))
]

get-any :
    (i v : ℕ) (d : Db)
    → any (has_key i v) d.memberships ≡ true
    → (m : OrganizationMembership) × (get_organization_membership i v d ≡ ok m)
unfolding get_organization_membership
get-any i v d h =
    let (m, found) = find?-any (has_key i v) d.memberships h in (m, ground (arith, found))

module _ (s : OrgServices) (rely : (d : Db) → Owned d → Owned (s.others d)) where
  check_transfer-Both :
      (i u v : ℕ) (w : World) → Both Owned w → Both Owned (check_transfer s i u v w).1
  check_transfer-Both i u v w h =
      let w' = (check_transfer s i u v w).1 in
      let (same, from) = check_transfer-world s i u v w in
      let k₁ = rely w.committed h.0 in
      let k₂ = rely _ k₁ in
      let k : Owned w'.db = elim from [
        | inl one ↦ rw one k₁
        | inr (inl two) ↦ rw two k₂
        | inr (inr three) ↦ rw three (rely _ k₂)
      ] in
      (rw same k, k)

  hand_over-Owned :
      (i u v : ℕ) (x y : User) (m : OrganizationMembership) (w : World)
      → Owned w.db
      → get_organization_membership i u w.db ≡ ok m
      → is_owner m.role ≡ true
      → (hand_over s i u v x y w).0 ≡ ok tt
      → Owned (hand_over s i u v x y w).1.db
  hand_over-Owned i u v x y m w h found is_its e =
      let d₁ = record w.db { memberships = with_role i u admin w.db.memberships } in
      let (changed, there) = (hand_over-memberships s i u v x y w).1 e in
      let (n, found₁) = get-any i v d₁ there in
      transferred-Owned i u v m n w.db d₁ _ h found is_its refl found₁ changed

  transfer_body-committed :
      (i u v : ℕ) (w : World) → Both Owned w → Owned (transfer_body s i u v w).1.committed
  unfolding transfer_body
  transfer_body-committed i u v w h = by_result (check_transfer s i u v w).0
    where
      by_result :
          (r : Result (User × User))
          → Owned
              (continue r
                (λ (x, y). hand_over s i u v x y)
                (check_transfer s i u v w).1).1.committed
      by_result (ok (x, y)) =
          rw (hand_over-memberships s i u v x y (check_transfer s i u v w).1).0
            (check_transfer-Both i u v w h).0
      by_result (err e) = (check_transfer-Both i u v w h).0

  transfer_body-Owned :
      (i u v : ℕ) (w : World)
      → Both Owned w
      → (transfer_body s i u v w).0 ≡ ok tt
      → Owned (transfer_body s i u v w).1.db
  unfolding transfer_body
  transfer_body-Owned i u v w h e =
      let check = check_transfer s i u v in
      let ((x, y), e₁, e₂) = >>=-eq-ok check _ w e in
      let (m, found, is_its) = check_transfer-ok s i u v w (x, y) e₁ in
      rw (>>=-eq-both check (λ (x, y). hand_over s i u v x y) w (x, y) e₁)
        (hand_over-Owned i u v x y m (check w).1 (check_transfer-Both i u v w h).1 found is_its e₂)

  pub transfer-Both :
      (i u v : ℕ) (w : World)
      → Both Owned w
      → Both Owned (transfer_organization_ownership s i u v w).1
  unfolding transfer_organization_ownership
  transfer-Both i u v w h =
      Both-either Owned (u == v) (raise invalid_organization_ownership_transfer)
        (with_transaction (transfer_body s i u v)) w (λ _. h)
        λ _.
          transaction-Both_ok Owned (transfer_body s i u v) w (transfer_body-committed i u v w h)
            λ _ e. transfer_body-Owned i u v w h e

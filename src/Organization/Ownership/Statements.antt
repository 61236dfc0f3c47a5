-- ===== src/Organization/Ownership/Statements.antt =====
-- internal/organization: how the statements treat the owner.
use authara.Prelude.{
  ℕ, ◌≤◌, ◌≡◌, refl, true, false, not, List, [], ◌∷◌, ◌++◌, arith, some, find?, filter, find?-holds,
  count_if, count_if-find?,
}
use authara.Prelude.Text.{Text}
use authara.Store.Rows.{
  OrganizationMembership, OrganizationRole, owner, admin, EmailJob, EmailTemplate, WebhookEvent,
}
use authara.Store.Exec.{Db, ok}
use authara.Store.Keeps.{Keeps, keeps_rules, Keeps-writes}
use authara.Store.Sessions.{update_where}
use authara.Store.Users.{get_organization_membership}
use authara.Store.Outbox.{add_email, enqueue, publish}
use authara.Store.Organizations.{
  is_owner, has_key, in_organization, is_owner_of, list_organization_memberships_by_organization_id,
}
use authara.Store.Organizations.Owners.{
  Owned, members, owners, rows, filter-Deleted, update_where-Changed,
}
use authara.Organization.Lifecycle.{count_organization_owners}

-- A statement on other tables.
pub leaves_memberships : (d d' : Db) → d'.memberships ≡ d.memberships → Owned d → Owned d'
unfolding members owners rows
leaves_memberships d d' e h = record {
  one = λ i. ground (arith, e, h.one i);
  keyed = λ i u. ground (arith, e, h.keyed i u);
}

pub email-Owned : (job : EmailJob) (d : Db) → Owned d → Owned (add_email job d)
email-Owned job d = leaves_memberships d (add_email job d) (ground arith)

pub webhook-Owned : (es : List WebhookEvent) (d : Db) → Owned d → Owned (record d { webhooks = es })
webhook-Owned es d = leaves_memberships d _ refl

pub enqueue-Keeps : (to : Text) (t : EmailTemplate) (now : ℕ) → Keeps Owned (enqueue to t now)
unfolding enqueue
enqueue-Keeps to t now = search (keeps_rules, Keeps-writes, email-Owned) depth 30

pub publish-Keeps : (e : WebhookEvent) → Keeps Owned (publish e)
publish-Keeps e = Keeps-writes _ (λ d. webhook-Owned (d.webhooks ++ e ∷ []) d)

-- A membership that is found is of the organization, which thus has members.
pub found-members :
    (i u : ℕ) (m : OrganizationMembership) (d : Db)
    → get_organization_membership i u d ≡ ok m
    → (m.organization_id ≡ i) × (m.user_id ≡ u) × (1 ≤ members i d)
unfolding get_organization_membership members
found-members i u m d found =
    let found' : find? (has_key i u) d.memberships ≡ some m = ground (arith, found) in
    let key = find?-holds (has_key i u) d.memberships found' in
    (
      ground (arith, key),
      ground (arith, key),
      count_if-find? (has_key i u) (in_organization i) d.memberships m found' (ground (arith, key)),
    )

pub found-owner :
    (i u : ℕ) (m : OrganizationMembership) (d : Db)
    → get_organization_membership i u d ≡ ok m
    → is_owner m.role ≡ true
    → 1 ≤ owners i d
unfolding get_organization_membership owners
found-owner i u m d found is_its =
    let found' : find? (has_key i u) d.memberships ≡ some m = ground (arith, found) in
    let key = find?-holds (has_key i u) d.memberships found' in
    count_if-find? (has_key i u) (is_owner_of i) d.memberships m found'
      (ground (arith, key, is_its))

count_if-listed :
    (i : ℕ) (ms : List OrganizationMembership)
    → count_if (λ m. is_owner m.role) (filter (in_organization i) ms) ≡ count_if (is_owner_of i) ms
unfolding count_if filter
count_if-listed i [] = refl
count_if-listed i (m ∷ ms) = ground (arith, count_if-listed i ms)

pub count_organization_owners-owners :
    (i : ℕ) (d : Db)
    → count_organization_owners (list_organization_memberships_by_organization_id i d) ≡ owners i d
unfolding count_organization_owners list_organization_memberships_by_organization_id owners
count_organization_owners-owners i d = count_if-listed i d.memberships

-- A member who is not the owner leaves.
pub deleted-Owned :
    (i u : ℕ) (m : OrganizationMembership) (d d' : Db)
    → Owned d
    → get_organization_membership i u d ≡ ok m
    → is_owner m.role ≡ false
    → d'.memberships ≡ filter (λ x. not (has_key i u x)) d.memberships
    → Owned d'
deleted-Owned i u m d d' h found plain done =
    let x = filter-Deleted i u m d d' h found done in
    record {
      one = λ j some_left.
          ground (arith, plain, h.one j, x.owners_left j, x.members_left j, some_left);
      keyed = λ j v. omega (arith, h.keyed j v, x.rows_left j v);
    }

-- A member who is not the owner gets another role.
pub changed-Owned :
    (i u : ℕ) (r : OrganizationRole) (m : OrganizationMembership) (d d' : Db)
    → Owned d
    → get_organization_membership i u d ≡ ok m
    → is_owner m.role ≡ false
    → is_owner r ≡ false
    → d'.memberships ≡ update_where (has_key i u) (λ x. record x { role = r }) d.memberships
    → Owned d'
changed-Owned i u r m d d' h found plain still done =
    let x = update_where-Changed i u r m d d' h.keyed found done in
    record {
      one = λ j some_left.
          ground (arith, plain, still, h.one j, x.owners_left j, x.members_left j, some_left);
      keyed = λ j v. omega (arith, h.keyed j v, x.rows_left j v);
    }

-- The owner becomes an admin, and then another member the owner.
pub transferred-Owned :
    (i u v : ℕ) (m n : OrganizationMembership) (d d₁ d₂ : Db)
    → Owned d
    → get_organization_membership i u d ≡ ok m
    → is_owner m.role ≡ true
    → d₁.memberships ≡ update_where (has_key i u) (λ x. record x { role = admin }) d.memberships
    → get_organization_membership i v d₁ ≡ ok n
    → d₂.memberships ≡ update_where (has_key i v) (λ x. record x { role = owner }) d₁.memberships
    → Owned d₂
transferred-Owned i u v m n d d₁ d₂ h found is_its done found₁ done₁ =
    let x = update_where-Changed i u admin m d d₁ h.keyed found done in
    let y =
      update_where-Changed i v owner n d₁ d₂ (λ j w. omega (arith, h.keyed j w, x.rows_left j w))
        found₁ done₁ in
    let of_m = found-members i u m d found in
    let of_n = found-members i v n d₁ found₁ in
    let owner_n = found-owner i v n d₁ found₁ in
    record {
      one = λ j some_left. ground (
        arith,
        is_its,
        of_m,
        of_n,
        owner_n,
        h.one j,
        x.owners_left j,
        x.members_left j,
        y.owners_left j,
        y.members_left j,
        some_left,
      );
      keyed = λ j w. omega (arith, h.keyed j w, x.rows_left j w, y.rows_left j w);
    }

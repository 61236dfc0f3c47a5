-- ===== src/Store/Organizations/Owners.antt =====
-- internal/store/organizations.go: the owners of an organization, under the statements.
use authara.Prelude.{
  ℕ, ◌+◌, ◌≤◌, ◌==◌, ◌≡◌, Bool, not, ◌&&◌, List, [], ◌∷◌, arith, find?, filter, count_if,
  if◌then◌else◌, some,
}
use authara.Store.Rows.{OrganizationMembership, OrganizationRole}
use authara.Store.Exec.{Db, ok}
use authara.Store.Users.{get_organization_membership}
use authara.Store.Sessions.{update_where}
use authara.Store.Organizations.{is_owner, has_key, in_organization, is_owner_of}

-- How many members and owners an organization has, and how many rows a key has.
unfoldable pub members : ℕ → Db → ℕ
members organization_id d = count_if (in_organization organization_id) d.memberships

unfoldable pub owners : ℕ → Db → ℕ
owners organization_id d = count_if (is_owner_of organization_id) d.memberships

unfoldable pub rows : ℕ → ℕ → Db → ℕ
rows organization_id user_id d = count_if (has_key organization_id user_id) d.memberships

-- Every organization that has members has exactly one owner, and the key is a key.
pub record Owned (d : Db) : Type 0 where
  pub one : (i : ℕ) → 1 ≤ members i d → owners i d ≡ 1
  pub keyed : (i u : ℕ) → rows i u d ≤ 1

-- The owners and rows among those of one key, and the others.
count_if-deleted :
    (i u j v : ℕ) (ms : List OrganizationMembership)
    → let rest = filter (λ m. not (has_key i u m)) ms in
      (count_if (is_owner_of j) rest + count_if (λ m. has_key i u m && is_owner_of j m) ms
        ≡ count_if (is_owner_of j) ms)
      × (count_if (in_organization j) rest ≤ count_if (in_organization j) ms)
      × (count_if (has_key j v) rest ≤ count_if (has_key j v) ms)
unfolding filter count_if
count_if-deleted i u j v [] = omega arith
count_if-deleted i u j v (m ∷ ms) = ground (arith, count_if-deleted i u j v ms)

count_if-both-le :
    (p q : OrganizationMembership → Bool) (ms : List OrganizationMembership)
    → count_if (λ m. p m && q m) ms ≤ count_if p ms
unfolding count_if
count_if-both-le p q [] = omega arith
count_if-both-le p q (m ∷ ms) = ground (arith, count_if-both-le p q ms)

-- With one row, what holds of the row that is found holds of all.
count_if-found :
    (p q : OrganizationMembership → Bool) (ms : List OrganizationMembership)
    (m : OrganizationMembership)
    → find? p ms ≡ some m
    → count_if p ms ≤ 1
    → (count_if (λ x. p x && q x) ms ≡ (if q m then 1 else 0)) × (count_if p ms ≡ 1)
unfolding find? count_if
count_if-found p q [] m found single = cc
count_if-found p q (x ∷ xs) m found single =
    ground (arith, count_if-found p q xs m, count_if-both-le p q xs)

count_if-changed :
    (i u j v : ℕ) (r : OrganizationRole) (ms : List OrganizationMembership)
    → let changed = update_where (has_key i u) (λ m. record m { role = r }) ms in
      (count_if (is_owner_of j) changed + count_if (λ m. has_key i u m && is_owner_of j m) ms
        ≡ count_if (is_owner_of j) ms
          + (if is_owner r && i == j then count_if (has_key i u) ms else 0))
      × (count_if (in_organization j) changed ≡ count_if (in_organization j) ms)
      × (count_if (has_key j v) changed ≡ count_if (has_key j v) ms)
unfolding count_if
count_if-changed i u j v r [] = ground arith
count_if-changed i u j v r (m ∷ ms) = ground (arith, count_if-changed i u j v r ms)

-- What a statement about a key that is there does to the counts.
pub record Deleted (i u : ℕ) (m : OrganizationMembership) (d d' : Db) : Type 0 where
  pub owners_left : (j : ℕ) → owners j d' + (if is_owner_of j m then 1 else 0) ≡ owners j d
  pub members_left : (j : ℕ) → members j d' ≤ members j d
  pub rows_left : (j v : ℕ) → rows j v d' ≤ rows j v d

pub filter-Deleted :
    (i u : ℕ) (m : OrganizationMembership) (d d' : Db)
    → Owned d
    → get_organization_membership i u d ≡ ok m
    → d'.memberships ≡ filter (λ x. not (has_key i u x)) d.memberships
    → Deleted i u m d d'
unfolding owners members rows get_organization_membership
filter-Deleted i u m d d' h found done = record {
  owners_left = λ j. ground (
    arith,
    found,
    done,
    h.keyed i u,
    count_if-deleted i u j u d.memberships,
    count_if-found (has_key i u) (is_owner_of j) d.memberships m,
  );
  members_left = λ j. ground (arith, done, count_if-deleted i u j u d.memberships);
  rows_left = λ j v. ground (arith, done, count_if-deleted i u j v d.memberships);
}

pub record Changed (i u : ℕ) (r : OrganizationRole) (m : OrganizationMembership) (d d' : Db)
    : Type 0 where
  pub owners_left :
      (j : ℕ)
      → owners j d' + (if is_owner_of j m then 1 else 0)
        ≡ owners j d + (if is_owner r && i == j then 1 else 0)
  pub members_left : (j : ℕ) → members j d' ≡ members j d
  pub rows_left : (j v : ℕ) → rows j v d' ≡ rows j v d

pub update_where-Changed :
    (i u : ℕ) (r : OrganizationRole) (m : OrganizationMembership) (d d' : Db)
    → ((j v : ℕ) → rows j v d ≤ 1)
    → get_organization_membership i u d ≡ ok m
    → d'.memberships ≡ update_where (has_key i u) (λ x. record x { role = r }) d.memberships
    → Changed i u r m d d'
unfolding owners members rows get_organization_membership
update_where-Changed i u r m d d' keyed found done = record {
  owners_left = λ j. ground (
    arith,
    found,
    done,
    keyed i u,
    count_if-changed i u j u r d.memberships,
    count_if-found (has_key i u) (is_owner_of j) d.memberships m,
  );
  members_left = λ j. ground (arith, done, count_if-changed i u j u r d.memberships);
  rows_left = λ j v. ground (arith, done, count_if-changed i u j v r d.memberships);
}

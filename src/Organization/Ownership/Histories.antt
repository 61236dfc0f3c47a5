-- ===== src/Organization/Ownership/Histories.antt =====
-- internal/organization: histories of the methods, and the owner of each organization.
use authara.Prelude.{
  ℕ, ◌≡◌, refl, not, List, [], ◌∷◌, arith, filter, count_if, if◌then◌else◌, ◌≤◌, ◌==◌,
}
use authara.Prelude.Text.{Text}
use authara.Store.Rows.{OrganizationMembership, OrganizationRole}
use authara.Store.Exec.{Db, World, ok}
use authara.Store.Keeps.{
  Both, Keeps, keeps_rules, Keeps-writes, Keeps-updates, Keeps-waits, Keeps-bind, Keeps-reads,
  Keeps-pure,
}
use authara.Store.Users.{get_user_by_id}
use authara.Store.Organizations.{
  in_organization, is_owner_of, has_key, delete_sessions_by_organization, delete_organization,
}
use authara.Store.Organizations.Owners.{Owned, members, owners, rows}
use authara.Session.Token.Keeps.{revoke_scope-Keeps}
use authara.Organization.Services.{OrgServices}
use authara.Organization.Lifecycle.{remove_organization_member, transfer_organization_ownership}
use authara.Organization.Deletion.{
  recipients, revoke_memberships, enqueue_all, delete_with_notice, delete_body,
  delete_organization_by,
}
use authara.Organization.Members.{update_organization_member}
use authara.Organization.Ownership.Statements.{leaves_memberships, enqueue-Keeps, publish-Keeps}
use authara.Organization.Ownership.Removal.{remove-Both}
use authara.Organization.Ownership.Roles.{update-Both}
use authara.Organization.Ownership.Transfer.{transfer-Both}

count_if-without :
    (i j u : ℕ) (ms : List OrganizationMembership)
    → let rest = filter (λ m. not (in_organization i m)) ms in
      (count_if (in_organization j) rest ≡ (if j == i then 0 else count_if (in_organization j) ms))
      × (count_if (is_owner_of j) rest ≡ (if j == i then 0 else count_if (is_owner_of j) ms))
      × (count_if (has_key j u) rest ≤ count_if (has_key j u) ms)
unfolding count_if filter
count_if-without i j u [] = ground arith
count_if-without i j u (m ∷ ms) = ground (arith, count_if-without i j u ms)

delete_organization-Owned :
    (i : ℕ) (d d' : Db) → delete_organization i d ≡ ok d' → Owned d → Owned d'
unfolding delete_organization members owners rows
delete_organization-Owned i d d' e h = record {
  one = λ j some_left. ground (arith, e, h.one j, some_left, count_if-without i j j d.memberships);
  keyed = λ j u. ground (arith, e, h.keyed j u, count_if-without i j u d.memberships);
}

delete_sessions-Owned : (i : ℕ) (d : Db) → Owned d → Owned (delete_sessions_by_organization i d)
unfolding delete_sessions_by_organization
delete_sessions-Owned i d = leaves_memberships d _ refl

module _ (s : OrgServices) where
  recipients-Keeps : (ms : List OrganizationMembership) → Keeps Owned (recipients s ms)
  unfolding recipients
  recipients-Keeps [] = Keeps-pure []
  recipients-Keeps (m ∷ ms) =
      Keeps-bind _ _ (Keeps-reads (get_user_by_id m.user_id))
        λ user. Keeps-bind _ _ (recipients-Keeps ms) λ emails. Keeps-pure _

  revoke_memberships-Keeps :
      (i : ℕ) (ms : List OrganizationMembership) → Keeps Owned (revoke_memberships s i ms)
  unfolding revoke_memberships
  revoke_memberships-Keeps i [] = Keeps-pure tt
  revoke_memberships-Keeps i (m ∷ ms) =
      Keeps-bind _ _ (revoke_scope-Keeps s.cache _ _) λ _. revoke_memberships-Keeps i ms

  enqueue_all-Keeps : (emails : List Text) → Keeps Owned (enqueue_all s emails)
  unfolding enqueue_all
  enqueue_all-Keeps [] = Keeps-pure tt
  enqueue_all-Keeps (email ∷ emails) =
      Keeps-bind _ _ (enqueue-Keeps email _ s.clock) λ _. enqueue_all-Keeps emails

  delete-Keeps :
      (i actor_id : ℕ)
      → ((d : Db) → Owned d → Owned (s.others d))
      → Keeps Owned (delete_organization_by s i actor_id)
  unfolding delete_organization_by delete_body delete_with_notice
  delete-Keeps i actor_id rely =
      search
        (
          keeps_rules, Keeps-writes, Keeps-updates, Keeps-waits, rely, recipients-Keeps,
          revoke_memberships-Keeps, enqueue_all-Keeps, publish-Keeps, delete_organization-Owned,
          delete_sessions-Owned,
        )
        depth 40

-- The methods, with the organization first and the actor where there is one.
pub data Change : Type 0 where
  remove : ℕ → ℕ → ℕ → Change
  transfer : ℕ → ℕ → ℕ → Change
  update : ℕ → ℕ → ℕ → OrganizationRole → Change
  delete : ℕ → ℕ → Change

pub change : OrgServices → Change → World → World
change s (remove i u actor_id) w = (remove_organization_member s i u actor_id w).1
change s (transfer i actor_id new_owner_id) w =
    (transfer_organization_ownership s i actor_id new_owner_id w).1
change s (update i u actor_id r) w = (update_organization_member s i u actor_id r w).1
change s (delete i actor_id) w = (delete_organization_by s i actor_id w).1

pub change_all : List (OrgServices × Change) → World → World
change_all [] w = w
change_all ((s, c) ∷ rest) w = change_all rest (change s c w)

abbrev pub AllRely : List (OrgServices × Change) → Type 0
AllRely [] = Unit
AllRely ((s, _) ∷ rest) = ((d : Db) → Owned d → Owned (s.others d)) × AllRely rest

change-Both :
    (s : OrgServices) (c : Change) (w : World)
    → ((d : Db) → Owned d → Owned (s.others d))
    → Both Owned w
    → Both Owned (change s c w)
unfolding change
change-Both s (remove i u actor_id) w rely = remove-Both s rely i u actor_id w
change-Both s (transfer i u v) w rely = transfer-Both s rely i u v w
change-Both s (update i u actor_id r) w rely = update-Both s rely i u actor_id r w
change-Both s (delete i actor_id) w rely = (delete-Keeps s i actor_id rely).at w

-- After any history of removals, transfers, changes of role and deletions, whether they succeed or
-- fail and whoever asks for them, every organization that has members has exactly one owner and no
-- user is a member twice, in what is committed and in what a transaction sees, provided that it is
-- so at first and that what other transactions commit during a call keeps it so.
pub change_all-Owned :
    (changes : List (OrgServices × Change)) (w : World)
    → AllRely changes
    → Both Owned w
    → Both Owned (change_all changes w)
unfolding change_all
change_all-Owned [] w rely h = h
change_all-Owned ((s, c) ∷ rest) w rely h =
    change_all-Owned rest (change s c w) rely.1 (change-Both s c w rely.0 h)

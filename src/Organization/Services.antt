-- ===== src/Organization/Services.antt =====
-- internal/organization/service.go and mode.go: what the service is built from.
use authara.Prelude.{ℕ, Bool, true, false}
use authara.Store.Rows.{OrganizationMembership}
use authara.Store.Exec.{
  Db, Result, ok, err, organization_membership_not_found, organization_actor_not_member,
}
use authara.Session.Token.{Cache}

pub data OrgMode : Type 0 where
  personal_mode single_mode multi_mode : OrgMode

abbrev pub is_single : OrgMode → Bool
is_single personal_mode = false
is_single single_mode = true
is_single multi_mode = false

abbrev pub is_multi : OrgMode → Bool
is_multi personal_mode = false
is_multi single_mode = false
is_multi multi_mode = true

-- `clock` is the time that the method reads; `others` is what other transactions commit while a
-- lock is waited for.
pub record OrgServices : Type 0 where
  pub mode : OrgMode
  pub cache : Cache
  pub clock : ℕ
  pub others : Db → Db

-- `errors.Is(err, store.ErrOrganizationMembershipNotFound)` for the actor.
abbrev pub as_actor : Result OrganizationMembership → Result OrganizationMembership
as_actor (ok m) = ok m
as_actor (err organization_membership_not_found) = err organization_actor_not_member
as_actor (err e) = err e

-- ===== src/Organization/Examples.antt =====
-- internal/organization: the service runs on an organization of three.
use authara.Prelude.{true, ℕ, none, some, List, [], ◌∷◌, arith, count_if}
use authara.Prelude.Text.{codes}
use authara.Store.Rows.{User, OrganizationMembership, OrganizationRole, owner, admin, member, team}
use authara.Store.Exec.{Db, World}
use authara.Store.Keeps.{Both}
use authara.Store.Organizations.Owners.{Owned, members, owners, rows}
use authara.Session.Token.{absent}
use authara.Organization.Services.{OrgServices, multi_mode}
use authara.Organization.Ownership.Histories.{Change, change_all, change_all-Owned}

abbrev services : OrgServices
services = record { mode = multi_mode; cache = absent; clock = 50; others = λ d. d }

abbrev user : ℕ → User
user id = record {
  id = id;
  email = codes "someone@example.org";
  username = codes "someone";
  disabled_at = none;
  email_verified_at = none;
}

abbrev membership : ℕ → OrganizationRole → OrganizationMembership
membership user_id role = record {
  organization_id = 7;
  user_id = user_id;
  role = role;
  created_at = 1;
}

abbrev db : Db
db = record {
  users = user 1 ∷ user 2 ∷ user 3 ∷ [];
  sessions = [];
  refresh_tokens = [];
  authentication_challenges = [];
  organizations =
      record { id = 7; name = codes "Team"; kind = team; created_by_user_id = some 1 } ∷ [];
  memberships = membership 1 owner ∷ membership 2 admin ∷ membership 3 member ∷ [];
  platform_roles = [];
  passkeys = [];
  security_events = [];
  emails = [];
  webhooks = [];
  next_id = 30;
  next_job_id = 1;
  next_challenge_id = 1;
  is_template_enabled = λ t. true;
  challenges = [];
  verification_codes = [];
  pending_signup_actions = [];
  pending_password_resets = [];
  pending_email_changes = [];
  email_verification_transactions = [];
  auth_providers = [];
  allowed_emails = [];
}

abbrev world : World
world = record { committed = db; db = db; revocations = [] }

db-Owned : Owned db
unfolding members owners rows count_if
db-Owned = record { one = λ i some_left. ground (arith, some_left); keyed = λ i u. ground arith }

-- The owner hands over to the admin, who removes the third member; the former owner leaves.
abbrev changes : List (OrgServices × Change)
changes =
    (services, Change.transfer 7 1 2)
    ∷ (services, Change.remove 7 3 2)
    ∷ (services, Change.remove 7 1 1)
    ∷ []

change_all-Owned_example : Both Owned (change_all changes world)
change_all-Owned_example =
    change_all-Owned changes world (λ d h. h, (λ d h. h, (λ d h. h, tt))) (db-Owned, db-Owned)

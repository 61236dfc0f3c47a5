-- ===== src/Session/Fixtures.antt =====
-- internal/session/service.go: a service and a database with one session, for examples.
use authara.Prelude.{none, some, true, [], ◌∷◌}
use authara.Prelude.Int.{negsuc}
use authara.Prelude.Text.{codes}
use authara.Store.Rows.{User, Session, RefreshToken, Organization, personal, owner, password}
use authara.Store.Exec.{Db, ok}
use authara.Session.Token.{unreachable}
use authara.Session.Services.{SessionPolicy, Services}

abbrev pub policy : SessionPolicy
policy = record {
  session_ttl = 1000;
  refresh_token_ttl = 100;
  refresh_token_rotation = negsuc 0;
  recent_authentication_enabled = true;
  recent_authentication_window = negsuc 0;
}

-- A token's hash is the token with a mark in front of it.
abbrev pub services : Services
services = record {
  policy = policy;
  hash_refresh_token = λ t. 0 ∷ t;
  is_email_allowed = λ e d. ok true;
  generate_access_token = λ c. ok (codes "access");
  random_token = ok (codes "fresh");
  cache = unreachable;
  clock = 50;
  db_now = 50;
  others = λ d. d;
  others_deleting = λ d. d;
}

abbrev pub ada : User
ada = record {
  id = 1;
  email = codes "ada@example.org";
  username = codes "ada";
  disabled_at = none;
  email_verified_at = some 1;
}

abbrev pub laptop : Session
laptop = record {
  id = 10;
  user_id = 1;
  active_organization_id = 5;
  created_at = 1;
  expires_at = 1000;
  revoked_at = none;
  authenticated_at = some 1;
  authentication_method = some password;
  user_agent = codes "laptop";
}

abbrev pub token : RefreshToken
token = record {
  id = 20;
  created_at = 1;
  session_id = 10;
  organization_id = 5;
  token_hash = 0 ∷ codes "old";
  expires_at = 101;
  consumed_at = none;
}

abbrev pub home : Organization
home = record { id = 5; name = codes "Ada"; kind = personal; created_by_user_id = some 1 }

abbrev pub db : Db
db = record {
  users = ada ∷ [];
  sessions = laptop ∷ [];
  refresh_tokens = token ∷ [];
  authentication_challenges = [];
  organizations = home ∷ [];
  memberships = record { organization_id = 5; user_id = 1; role = owner; created_at = 1 } ∷ [];
  platform_roles = [];
  passkeys = [];
  security_events = [];
  emails = [];
  webhooks = [];
  next_id = 30;
  next_job_id = 1;
  next_challenge_id = 1;
  is_template_enabled = λ t. true;
  challenges = [];
  verification_codes = [];
  pending_signup_actions = [];
  pending_password_resets = [];
  pending_email_changes = [];
  email_verification_transactions = [];
  auth_providers = [];
  allowed_emails = [];
}

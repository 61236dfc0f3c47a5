-- ===== src/Challenge/Fixtures.antt =====
-- internal/challenge: a service and a database with one challenge, for examples.
use authara.Prelude.{find?, ◌≡◌, refl, [], ◌∷◌, none, some, false, ◌++◌}
use authara.Prelude.Text.{codes}
use authara.Store.Pending.{Challenge, password_reset, by_password}
use authara.Store.Exec.{Db, World, ok}
use authara.Store.Challenges.{get_challenge_by_id}
use authara.Session.Token.{reachable}
use authara.Session.Fixtures.{db}
use authara.Session.Refresh.Reuse.{idle}
use authara.Challenge.Services.{ChallengeServices}

-- A code's hash is the code after the secret.
abbrev pub services : ChallengeServices
services = record {
  policy = record {
    ttl = 600;
    verification_code_ttl = 300;
    max_attempts = 3;
    max_resends = 3;
    minimum_resend_interval = 60;
  };
  email_verification_required = false;
  allowlist_enabled = false;
  lower = λ c. c;
  fold = λ c. c;
  hash_code = λ code secret. secret ++ code;
  stable_code = λ a b secret. codes "123456";
  secrets = codes "s" ∷ [];
  cache = reachable;
  clock = 100;
  others = λ d. d;
  others_holding = λ i d. d;
}

abbrev pub challenge : Challenge
challenge = record {
  id = 7;
  expires_at = 700;
  consumed_at = none;
  purpose = password_reset;
  email = codes "ada@example.org";
  attempt_count = 1;
  max_attempts = 3;
  resend_count = 0;
  max_resends = 3;
  last_sent_at = some 40;
  minimum_resend_interval = some 60;
}

abbrev pub asked : Db
asked = record db {
  challenges = challenge ∷ [];
  verification_codes =
      record { challenge_id = 7; expires_at = 400; code_hash = codes "s123456" } ∷ [];
  pending_password_resets =
      record { challenge_id = 7; user_id = 1; password_hash = codes "new" } ∷ [];
  auth_providers =
      record {
        user_id = 1;
        provider = by_password;
        provider_user_id = none;
        password_hash = some (codes "old");
      }
      ∷ [];
}

abbrev pub start : World
start = idle asked []

pub found : get_challenge_by_id 7 asked ≡ ok challenge
unfolding get_challenge_by_id find?
found = refl

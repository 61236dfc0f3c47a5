-- ===== src/Challenge/VerificationExamples.antt =====
-- internal/challenge/email_verification.go: a required verification, on a database with one.
use authara.Prelude.{◌≡◌, refl, none, some, [], ◌∷◌, any, find?, count_if}
use authara.Prelude.Text.{Text, codes, text_eq, trim_space}
use authara.Store.Rows.{User, password}
use authara.Store.Pending.{email_verification, EmailVerificationTransaction}
use authara.Store.Exec.{Db, World, ok, with_transaction}
use authara.Store.Users.{get_user_by_id}
use authara.Store.Challenges.{
  canonical_email, get_challenge_by_id, consume_challenge, get_verification_code_by_challenge_id,
  get_email_verification_transaction_by_challenge_id,
}
use authara.Store.Verifications.{mark_user_email_verified, consume_email_verification_transaction}
use authara.Session.Fixtures.{ada}
use authara.Session.Refresh.Reuse.{idle}
use authara.Challenge.Fixtures.{services, challenge, asked}
use authara.Challenge.Services.{returning, validate_challenge_for_verify}
use authara.Challenge.Codes.{verify_code, clone_secrets, matches_verification_code_hash}
use authara.Challenge.Verify.{verify_challenge, verify_body, try_code, consume}
use authara.Challenge.EmailVerification.{
  authorize_verification, execute_verification, complete_required_email_verification,
}
use authara.Challenge.Steps.{locked}
use authara.Challenge.Verifications.{
  Authorized, Served, held, held_twice, complete_required_email_verification-Authorized,
}

abbrev required : Db
required = record asked {
  users = record ada { email_verified_at = none } ∷ [];
  challenges = record challenge { purpose = email_verification } ∷ [];
  email_verification_transactions =
      record {
        id = 9;
        user_id = 1;
        original_session_id = 10;
        audience = codes "app";
        authentication_method = some password;
        return_to = codes "/";
        expires_at = 650;
        consumed_at = none;
        challenge_id = some 7;
        target_email = some (codes "ada@example.org");
      }
      ∷ [];
}

abbrev start : World
start = idle required []

verified :
    (complete_required_email_verification services 9 7 (codes "123456") 100 start).0
    ≡ ok (record challenge { purpose = email_verification; consumed_at = some 100 })
unfolding complete_required_email_verification verify_challenge verify_body with_transaction
    returning verify_code validate_challenge_for_verify try_code consume get_challenge_by_id find?
    any text_eq get_verification_code_by_challenge_id clone_secrets matches_verification_code_hash
    authorize_verification get_email_verification_transaction_by_challenge_id get_user_by_id
    execute_verification mark_user_email_verified canonical_email count_if trim_space
    consume_email_verification_transaction consume_challenge
verified = refl

complete_required_email_verification-Authorized_example :
    let d =
      (complete_required_email_verification services 9 7 (codes "123456") 100 start).1.committed in
    let w = locked services start in
    (t : EmailVerificationTransaction) × (target : Text) × (user : User) × Authorized 9 7 100
      (held services 9 100 7 w)
      (held_twice services 9 100 7 w)
      t
      target
      user
    × Served services 9 100 target user d
complete_required_email_verification-Authorized_example =
    complete_required_email_verification-Authorized services 9 7 100 (codes "123456")
      (record challenge { purpose = email_verification; consumed_at = some 100 }) start verified

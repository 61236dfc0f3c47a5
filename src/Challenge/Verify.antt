-- ===== src/Challenge/Verify.antt =====
-- internal/challenge/service.go and signup.go: a code is given for a challenge.
use authara.Prelude.{ℕ, Bool, true, false, some, if◌then◌else◌}
use authara.Prelude.Text.{Text}
use authara.Store.Pending.{ChallengePurpose, signup, Challenge, PendingSignupAction}
use authara.Store.Exec.{
  Exec, Result, ok, err, Error, invalid_verification_code, unsupported_challenge_purpose,
  challenge_already_consumed, challenge_consumed, pure, raise, reads, writes, updates, waits, catch,
  with_transaction, ◌>>=◌, ◌>>◌,
}
use authara.Store.Challenges.{
  get_challenge_by_id, consume_challenge, increment_challenge_attempt_count,
  get_pending_signup_action_by_challenge_id, create_pending_signup_action,
}
use authara.Challenge.Services.{
  ChallengeServices, purpose_eq, validate_challenge_for_verify, returning,
}
use authara.Challenge.Codes.{verify_code}
use authara.Challenge.Create.{create_challenge_for}

-- The row is locked, or is not there.
abbrev pub as_lock : {A : Type 0} → Result A → Result (Unit {0})
as_lock (ok a) = ok tt
as_lock (err e) = err e

-- `errors.Is(err, ErrInvalidVerificationCode)`.
abbrev pub is_invalid_code : Error → Bool
is_invalid_code invalid_verification_code = true
is_invalid_code e = false

abbrev is_already_consumed : Error → Bool
is_already_consumed challenge_already_consumed = true
is_already_consumed e = false

module _ {A : Type 0} (s : ChallengeServices) (challenge_id : ℕ) (purpose : ChallengePurpose)
    (code : Text) (now : ℕ) (before : Challenge → Exec A) (after : A → Exec (Unit {0})) where
  -- A wrong code is counted.
  unfoldable pub refuse_code : Error → Exec (Result Challenge)
  refuse_code e = do
    if is_invalid_code e then writes (increment_challenge_attempt_count challenge_id) else pure tt
    pure (err e)

  unfoldable pub consume : Challenge → Exec (Result Challenge)
  consume c =
      catch (updates (consume_challenge challenge_id now))
        (λ _. pure (ok (record c { consumed_at = some now })))
        (λ e. if is_already_consumed e then pure (err challenge_consumed) else raise e)

  -- What follows the checks on the challenge's row.
  unfoldable pub try_code : Challenge → Exec (Result Challenge)
  unfolding refuse_code consume
  try_code c = do
    a ← before c
    catch (reads (verify_code s challenge_id code now)) (λ _. do after a; consume c)
        (λ e. refuse_code e)

  abbrev pub validated : Challenge → Result (Unit {0}) → Exec (Result Challenge)
  validated c (err e) = pure (err e)
  validated c (ok _) =
      if purpose_eq c.purpose purpose then try_code c else pure (err unsupported_challenge_purpose)

  unfoldable pub verify_body : Exec (Result Challenge)
  unfolding try_code
  verify_body = do
    waits s.others (λ d. as_lock (get_challenge_by_id challenge_id d))
    c ← reads (get_challenge_by_id challenge_id)
    validated c (validate_challenge_for_verify c now)

  unfoldable pub verify_challenge : Exec Challenge
  unfolding verify_body with_transaction returning
  verify_challenge = returning (with_transaction verify_body)

-- `complete` is the caller's, who creates the account.
abbrev pub accept_signup : (PendingSignupAction → Exec (Unit {0})) → Challenge → Exec (Unit {0})
accept_signup complete c = do
  action ← reads (get_pending_signup_action_by_challenge_id c.id)
  complete action

module _ (s : ChallengeServices) where
  unfoldable pub create_signup_challenge : PendingSignupAction → ℕ → Exec ℕ
  unfolding create_challenge_for
  create_signup_challenge input now =
      create_challenge_for s signup input.email now
        (λ c. writes (create_pending_signup_action s.lower (record input { challenge_id = c.id })))

  unfoldable pub verify_signup_challenge :
      ℕ → Text → ℕ → (PendingSignupAction → Exec (Unit {0})) → Exec Challenge
  unfolding verify_challenge
  verify_signup_challenge challenge_id code now complete =
      verify_challenge s challenge_id signup code now (λ c. pure c) (accept_signup complete)

-- ===== src/Challenge/EmailVerification.antt =====
-- internal/challenge/email_verification.go: an address that a user has to verify before going on.
use authara.Prelude.{
  ℕ, ◌+◌, ◌==◌, Option, none, some, Bool, true, false, not, ◌&&◌, is_some, map, if◌then◌else◌,
}
use authara.Prelude.Text.{Text, trim_space}
use authara.Store.Rows.{User, user_updated}
use authara.Store.Pending.{
  email_verification, Challenge, EmailVerificationTransaction, is_active_transaction,
}
use authara.Store.Exec.{
  Exec, Result, ok, Error, session_scope, email_verification_invalid, email_already_in_use,
  allowed_email_not_found, pure, raise, reads, writes, updates, inserts, waits, waits_late,
  with_transaction, or_else, catch, ◌>>=◌, ◌>>◌,
}
use authara.Store.Users.{get_user_by_id}
use authara.Store.Sessions.{get_active_session_by_id, revoke_session}
use authara.Store.Challenges.{
  get_email_verification_transaction_by_challenge_id, delete_allowed_email, ensure_allowed_email,
}
use authara.Store.Verifications.{
  upsert_email_verification_transaction, get_email_verification_transaction_by_id,
  attach_email_verification_challenge, consume_email_verification_transaction, user_exists_by_email,
  mark_user_email_verified,
}
use authara.Store.Outbox.{publish}
use authara.Session.Token.{revoke_scope}
use authara.Challenge.Services.{ChallengeServices, equal_fold}
use authara.Challenge.Create.{create_challenge_for}
use authara.Challenge.Verify.{as_lock, verify_challenge}
use authara.Challenge.EmailChange.{change_user_address}

abbrev is_allowed_email_not_found : Error → Bool
is_allowed_email_not_found allowed_email_not_found = true
is_allowed_email_not_found e = false

abbrev invalid : {A : Type 0} → Result A → Result A
invalid r = or_else r email_verification_invalid

module _ (s : ChallengeServices) where
  abbrev pub begin_for : ℕ → ℕ → Text → Text → ℕ → User → Exec (Option EmailVerificationTransaction)
  begin_for user_id session_id audience return_to now user =
      if is_some user.email_verified_at then pure none else (do
        waits s.others (λ d. invalid (as_lock (get_active_session_by_id session_id now d)))
        session ← reads (λ d. invalid (get_active_session_by_id session_id now d))
        if session.user_id == user_id then pure tt else raise email_verification_invalid
        transaction ← inserts (
            upsert_email_verification_transaction (record {
              id = 0;
              user_id = user_id;
              original_session_id = session_id;
              audience = audience;
              authentication_method = session.authentication_method;
              return_to = return_to;
              expires_at = now + s.policy.ttl;
              consumed_at = none;
              challenge_id = none;
              target_email = none;
            }))
        revoke_scope s.cache (session_scope session_id) now
        writes (revoke_session session_id now)
        pure (some transaction))

  -- The result is `none` where the code returns the zero transaction: the address is verified.
  unfoldable pub begin_required_email_verification :
      ℕ → ℕ → Text → Text → ℕ → Exec (Option EmailVerificationTransaction)
  unfolding with_transaction revoke_scope
  begin_required_email_verification user_id session_id audience return_to now = with_transaction (do
    waits s.others (λ d. as_lock (get_user_by_id user_id d))
    user ← reads (get_user_by_id user_id)
    begin_for user_id session_id audience return_to now user)

  unfoldable pub get_email_verification_transaction :
      ℕ → ℕ → Exec (EmailVerificationTransaction × User)
  get_email_verification_transaction id now = do
    transaction ← reads (λ d. invalid (get_email_verification_transaction_by_id id d))
    if is_active_transaction transaction now then pure tt else raise email_verification_invalid
    user ← reads (λ d. invalid (get_user_by_id transaction.user_id d))
    if is_some user.email_verified_at
        then raise email_verification_invalid
        else pure (transaction, user)

  abbrev pub await_verification : ℕ → Text → ℕ → Challenge → Exec (Unit {0})
  await_verification transaction_id target_email now c = do
    waits_late (s.others_holding c.id)
        (λ d. invalid (as_lock (get_email_verification_transaction_by_id transaction_id d)))
    transaction ← reads (λ d. invalid (get_email_verification_transaction_by_id transaction_id d))
    if is_active_transaction transaction now then pure tt else raise email_verification_invalid
    waits_late (s.others_holding c.id)
        (λ d. invalid (as_lock (get_user_by_id transaction.user_id d)))
    user ← reads (λ d. invalid (get_user_by_id transaction.user_id d))
    if is_some user.email_verified_at then raise email_verification_invalid else pure tt
    exists ← reads (λ d. ok (user_exists_by_email s.lower target_email d))
    if not (equal_fold s user.email target_email) && exists
        then raise email_already_in_use
        else pure tt
    updates (attach_email_verification_challenge s.lower transaction.id c.id target_email)

  unfoldable pub create_required_email_verification_challenge : ℕ → Text → ℕ → Exec ℕ
  unfolding create_challenge_for
  create_required_email_verification_challenge transaction_id target now =
      let target_email = map s.lower (trim_space target) in
      create_challenge_for s email_verification target_email now
        (await_verification transaction_id target_email now)

  abbrev pub with_target : EmailVerificationTransaction → Option Text → Exec Text
  with_target t none = raise email_verification_invalid
  with_target t (some target) = pure target

  -- The transaction of the challenge, its target, and its user.
  unfoldable pub authorize_verification :
      ℕ → ℕ → Challenge → Exec (EmailVerificationTransaction × Text × User)
  authorize_verification transaction_id now c = do
    waits (s.others_holding c.id)
        (λ d. invalid (as_lock (get_email_verification_transaction_by_challenge_id c.id d)))
    transaction ← reads (λ d. invalid (get_email_verification_transaction_by_challenge_id c.id d))
    if transaction.id == transaction_id && is_active_transaction transaction now
        then pure tt
        else raise email_verification_invalid
    target ← with_target transaction transaction.target_email
    waits (s.others_holding c.id) (λ d. invalid (as_lock (get_user_by_id transaction.user_id d)))
    user ← reads (λ d. invalid (get_user_by_id transaction.user_id d))
    if is_some user.email_verified_at
        then raise email_verification_invalid
        else pure (transaction, target, user)

  -- An address that is not on the list need not leave it.
  abbrev pub move_listed : Text → Text → Exec (Unit {0})
  move_listed old_email new_email =
      if s.allowlist_enabled
      then (do
        catch (updates (delete_allowed_email old_email)) (λ _. pure tt)
            (λ e. if is_allowed_email_not_found e then pure tt else raise e)
        writes (ensure_allowed_email s.lower new_email))
      else pure tt

  abbrev pub set_address : User → Text → ℕ → Exec (Unit {0})
  set_address user target now =
      if equal_fold s user.email target
      then (do
        marked ← inserts (mark_user_email_verified s.lower user.id user.email now)
        if marked then pure tt else raise email_verification_invalid)
      else (do
        changed ← change_user_address s user.id user.email target now
        if changed then pure tt else raise email_verification_invalid
        move_listed user.email target)

  unfoldable pub execute_verification :
      EmailVerificationTransaction × Text × User → ℕ → Exec (Unit {0})
  execute_verification (transaction, target, user) now = do
    set_address user target now
    updates (consume_email_verification_transaction transaction.id now)
    publish (user_updated user.id)

  -- What is returned beside the error is what was read for the check, with the user's new address
  -- and the time, and the challenge.
  unfoldable pub complete_required_email_verification : ℕ → ℕ → Text → ℕ → Exec Challenge
  unfolding verify_challenge authorize_verification execute_verification
  complete_required_email_verification transaction_id challenge_id code now =
      verify_challenge s challenge_id email_verification code now
        (authorize_verification transaction_id now) (λ a. execute_verification a now)

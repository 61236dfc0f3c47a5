-- ===== src/Store/Challenges.antt =====
-- internal/store/challange.go, pending_action.go, email_verification.go and auth_providers.go: the
-- statements on challenges and on what waits for them.
use authara.Prelude.{
  ℕ, ◌+◌, ◌==◌, none, some, Option, Bool, true, false, not, ◌&&◌, List, [], ◌∷◌, ◌++◌, map, find?,
  any, filter, is_some, ltb, if◌then◌else◌,
}
use authara.Prelude.Text.{Text, text_eq, trim_space}
use authara.Store.Rows.{User}
use authara.Store.Pending.{
  Challenge, VerificationCode, PendingSignupAction, PendingPasswordReset, PendingEmailChange,
  EmailVerificationTransaction, Provider, by_password, by_google, by_apple, by_microsoft,
  AuthProvider,
}
use authara.Store.Exec.{
  Db, Result, ok, err, challenge_not_found, challenge_already_consumed, verification_code_not_found,
  pending_signup_action_not_found, pending_password_reset_not_found, pending_email_change_not_found,
  email_verification_transaction_not_found, auth_provider_not_found, allowed_email_not_found,
  unique_violation,
}
use authara.Store.Users.{or_missing}
use authara.Store.Sessions.{update_where}

-- internal/identity/canonical.go: `CanonicalEmail`.
unfoldable pub canonical_email : (ℕ → ℕ) → Text → Text
canonical_email lower email = map lower (trim_space email)

unfoldable pub create_challenge : (ℕ → ℕ) → Challenge → Db → Challenge × Db
unfolding canonical_email
create_challenge lower c d =
    let row = record c { id = d.next_challenge_id; email = canonical_email lower c.email } in
    (
      row,
      record d {
        challenges = d.challenges ++ row ∷ [];
        next_challenge_id = d.next_challenge_id + 1;
      },
    )

unfoldable pub get_challenge_by_id : ℕ → Db → Result Challenge
get_challenge_by_id id d =
    or_missing (find? (λ (c : Challenge). c.id == id) d.challenges) challenge_not_found

abbrev pub to_consume : ℕ → Challenge → Bool
to_consume id c = c.id == id && not (is_some c.consumed_at)

unfoldable pub consume_challenge : ℕ → ℕ → Db → Result Db
consume_challenge id now d =
    if any (to_consume id) d.challenges
    then ok (record d {
      challenges =
          update_where (to_consume id) (λ (c : Challenge). record c { consumed_at = some now })
            d.challenges;
    })
    else err challenge_already_consumed

unfoldable pub increment_challenge_attempt_count : ℕ → Db → Db
increment_challenge_attempt_count id d = record d {
  challenges =
      update_where (λ (c : Challenge). c.id == id)
        (λ (c : Challenge). record c { attempt_count = c.attempt_count + 1 }) d.challenges;
}

abbrev pub to_resend : ℕ → Challenge → Bool
to_resend id c = c.id == id && ltb c.resend_count c.max_resends

-- Whether a row was affected, and the table after the statement.
unfoldable pub increment_challenge_resend_count : ℕ → ℕ → Db → Bool × Db
increment_challenge_resend_count id now d = (
  any (to_resend id) d.challenges,
  record d {
    challenges =
        update_where (to_resend id)
          (λ (c : Challenge). record c {
            resend_count = c.resend_count + 1;
            last_sent_at = some now;
          })
          d.challenges;
  },
)

unfoldable pub set_challenge_last_sent_at : ℕ → ℕ → Db → Db
set_challenge_last_sent_at id now d = record d {
  challenges =
      update_where (λ (c : Challenge). c.id == id)
        (λ (c : Challenge). record c { last_sent_at = some now }) d.challenges;
}

-- INSERT … ON CONFLICT DO UPDATE: the rows with the key are replaced, or the row is added.
abbrev pub upsert {ℓ} : {A : Type ℓ} → (A → Bool) → A → List A → List A
upsert p a xs = if any p xs then map (λ x. if p x then a else x) xs else xs ++ a ∷ []

unfoldable pub upsert_verification_code : VerificationCode → Db → Db
upsert_verification_code v d = record d {
  verification_codes =
      upsert (λ (x : VerificationCode). x.challenge_id == v.challenge_id) v d.verification_codes;
}

unfoldable pub get_verification_code_by_challenge_id : ℕ → Db → Result VerificationCode
get_verification_code_by_challenge_id id d =
    or_missing (find? (λ (v : VerificationCode). v.challenge_id == id) d.verification_codes)
      verification_code_not_found

unfoldable pub create_pending_signup_action : (ℕ → ℕ) → PendingSignupAction → Db → Db
unfolding canonical_email
create_pending_signup_action lower a d = record d {
  pending_signup_actions =
      d.pending_signup_actions ++ record a { email = canonical_email lower a.email } ∷ [];
}

unfoldable pub get_pending_signup_action_by_challenge_id : ℕ → Db → Result PendingSignupAction
get_pending_signup_action_by_challenge_id id d =
    or_missing (find? (λ (a : PendingSignupAction). a.challenge_id == id) d.pending_signup_actions)
      pending_signup_action_not_found

unfoldable pub create_pending_password_reset : PendingPasswordReset → Db → Db
create_pending_password_reset a d = record d {
  pending_password_resets =
      upsert (λ (x : PendingPasswordReset). x.user_id == a.user_id) a d.pending_password_resets;
}

unfoldable pub get_pending_password_reset_by_challenge_id : ℕ → Db → Result PendingPasswordReset
get_pending_password_reset_by_challenge_id id d =
    or_missing
      (find? (λ (a : PendingPasswordReset). a.challenge_id == id) d.pending_password_resets)
      pending_password_reset_not_found

unfoldable pub delete_pending_password_resets_by_user_id : ℕ → Db → Db
delete_pending_password_resets_by_user_id user_id d = record d {
  pending_password_resets =
      filter (λ (a : PendingPasswordReset). not (a.user_id == user_id)) d.pending_password_resets;
}

unfoldable pub create_pending_email_change : (ℕ → ℕ) → PendingEmailChange → Db → Db
unfolding canonical_email
create_pending_email_change lower a d =
    let row = record a {
      old_email = canonical_email lower a.old_email;
      new_email = canonical_email lower a.new_email;
    } in
    record d {
      pending_email_changes =
          upsert (λ (x : PendingEmailChange). x.user_id == a.user_id) row d.pending_email_changes;
    }

unfoldable pub get_pending_email_change_by_challenge_id : ℕ → Db → Result PendingEmailChange
get_pending_email_change_by_challenge_id id d =
    or_missing (find? (λ (a : PendingEmailChange). a.challenge_id == id) d.pending_email_changes)
      pending_email_change_not_found

unfoldable pub delete_pending_email_changes_by_user_id : ℕ → Db → Db
delete_pending_email_changes_by_user_id user_id d = record d {
  pending_email_changes =
      filter (λ (a : PendingEmailChange). not (a.user_id == user_id)) d.pending_email_changes;
}

-- `p != nil && *p == id`.
abbrev pub is_id : ℕ → Option ℕ → Bool
is_id id none = false
is_id id (some x) = x == id

unfoldable pub get_email_verification_transaction_by_challenge_id :
    ℕ → Db → Result EmailVerificationTransaction
get_email_verification_transaction_by_challenge_id id d =
    or_missing
      (find? (λ (t : EmailVerificationTransaction). is_id id t.challenge_id)
        d.email_verification_transactions)
      email_verification_transaction_not_found

abbrev pub provider_eq : Provider → Provider → Bool
provider_eq by_password by_password = true
provider_eq by_google by_google = true
provider_eq by_apple by_apple = true
provider_eq by_microsoft by_microsoft = true
provider_eq _ _ = false

unfoldable pub get_auth_provider_by_method_and_user_id : Provider → ℕ → Db → Result AuthProvider
get_auth_provider_by_method_and_user_id provider user_id d =
    or_missing
      (find? (λ (p : AuthProvider). p.user_id == user_id && provider_eq p.provider provider)
        d.auth_providers)
      auth_provider_not_found

abbrev pub is_password_of : ℕ → AuthProvider → Bool
is_password_of user_id p = p.user_id == user_id && provider_eq p.provider by_password

unfoldable pub update_password_hash : ℕ → Text → Db → Result Db
update_password_hash user_id password_hash d =
    if any (is_password_of user_id) d.auth_providers
    then ok (record d {
      auth_providers =
          update_where (is_password_of user_id)
            (λ (p : AuthProvider). record p { password_hash = some password_hash })
            d.auth_providers;
    })
    else err auth_provider_not_found

-- The rows that the UPDATE matches; a user's new address must not be another's (users_email_key).
unfoldable pub update_user_email_verified_if_current :
    (ℕ → ℕ) → ℕ → Text → Text → ℕ → Db → Result (Bool × Db)
unfolding canonical_email
update_user_email_verified_if_current lower user_id current new_email verified_at d =
    let current = canonical_email lower current in
    let new_email = canonical_email lower new_email in
    let matches = λ (u : User). u.id == user_id && text_eq u.email current in
    if any matches d.users
      && any (λ (u : User). not (u.id == user_id) && text_eq u.email new_email) d.users
    then err unique_violation
    else ok (
      any matches d.users,
      record d {
        users =
            update_where matches
              (λ (u : User). record u { email = new_email; email_verified_at = some verified_at })
              d.users;
      },
    )

unfoldable pub delete_allowed_email : Text → Db → Result Db
delete_allowed_email email d =
    if any (λ (e : Text). text_eq e email) d.allowed_emails
    then ok (record d {
      allowed_emails = filter (λ (e : Text). not (text_eq e email)) d.allowed_emails;
    })
    else err allowed_email_not_found

unfoldable pub ensure_allowed_email : (ℕ → ℕ) → Text → Db → Db
unfolding canonical_email
ensure_allowed_email lower email d =
    let email = canonical_email lower email in
    if text_eq email []
    then d
    else (if any (λ (e : Text). text_eq e email) d.allowed_emails
        then d
        else record d { allowed_emails = d.allowed_emails ++ email ∷ [] })

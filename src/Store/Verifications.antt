-- ===== src/Store/Verifications.antt =====
-- internal/store/email_verification.go, and the statements of internal/store/users.go beside it.
use authara.Prelude.{
  ℕ, ◌+◌, ◌==◌, none, some, Bool, not, ◌&&◌, is_some, [], ◌∷◌, ◌++◌, any, count_if, find?,
  if◌then◌else◌,
}
use authara.Prelude.Text.{Text, text_eq}
use authara.Store.Rows.{User}
use authara.Store.Pending.{EmailVerificationTransaction}
use authara.Store.Exec.{Db, Result, ok, err, email_verification_transaction_not_found}
use authara.Store.Users.{or_missing}
use authara.Store.Sessions.{update_where}
use authara.Store.Challenges.{canonical_email}

-- ON CONFLICT (user_id) DO UPDATE keeps the id, the challenge and the target of the row.
abbrev pub renew :
    EmailVerificationTransaction → EmailVerificationTransaction → EmailVerificationTransaction
renew t old = record t {
  id = old.id;
  challenge_id = old.challenge_id;
  target_email = old.target_email;
  consumed_at = none;
}

abbrev of_user : ℕ → EmailVerificationTransaction → Bool
of_user user_id t = t.user_id == user_id

unfoldable pub upsert_email_verification_transaction :
    EmailVerificationTransaction → Db → EmailVerificationTransaction × Db
upsert_email_verification_transaction t d =
    elim (find? (of_user t.user_id) d.email_verification_transactions) [
      | some old ↦ (
        renew t old,
        record d {
          email_verification_transactions =
              update_where (of_user t.user_id) (renew t) d.email_verification_transactions;
        },
      )
      | none ↦
          let row = record t {
            id = d.next_id;
            challenge_id = none;
            target_email = none;
            consumed_at = none;
          } in
          (
            row,
            record d {
              email_verification_transactions = d.email_verification_transactions ++ row ∷ [];
              next_id = d.next_id + 1;
            },
          )
    ]

unfoldable pub get_email_verification_transaction_by_id :
    ℕ → Db → Result EmailVerificationTransaction
get_email_verification_transaction_by_id id d =
    or_missing
      (find? (λ (t : EmailVerificationTransaction). t.id == id) d.email_verification_transactions)
      email_verification_transaction_not_found

abbrev pub is_open : ℕ → EmailVerificationTransaction → Bool
is_open id t = t.id == id && not (is_some t.consumed_at)

unfoldable pub attach_email_verification_challenge : (ℕ → ℕ) → ℕ → ℕ → Text → Db → Result Db
unfolding canonical_email
attach_email_verification_challenge lower id challenge_id target_email d =
    if count_if (is_open id) d.email_verification_transactions == 1
    then ok (record d {
      email_verification_transactions =
          update_where (is_open id)
            (λ t. record t {
              challenge_id = some challenge_id;
              target_email = some (canonical_email lower target_email);
            })
            d.email_verification_transactions;
    })
    else err email_verification_transaction_not_found

unfoldable pub consume_email_verification_transaction : ℕ → ℕ → Db → Result Db
consume_email_verification_transaction id consumed_at d =
    if count_if (is_open id) d.email_verification_transactions == 1
    then ok (record d {
      email_verification_transactions =
          update_where (is_open id) (λ t. record t { consumed_at = some consumed_at })
            d.email_verification_transactions;
    })
    else err email_verification_transaction_not_found

unfoldable pub user_exists_by_email : (ℕ → ℕ) → Text → Db → Bool
unfolding canonical_email
user_exists_by_email lower email d =
    any (λ (u : User). text_eq u.email (canonical_email lower email)) d.users

-- The first result says whether one row was affected.
unfoldable pub mark_user_email_verified : (ℕ → ℕ) → ℕ → Text → ℕ → Db → Bool × Db
unfolding canonical_email
mark_user_email_verified lower user_id email verified_at d =
    let matches = λ (u : User). u.id == user_id && text_eq u.email (canonical_email lower email) in
    (
      count_if matches d.users == 1,
      record d {
        users =
            update_where matches (λ (u : User). record u { email_verified_at = some verified_at })
              d.users;
      },
    )

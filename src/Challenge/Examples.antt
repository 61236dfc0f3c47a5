-- ===== src/Challenge/Examples.antt =====
-- internal/challenge: a password reset and its code, on a database with one challenge.
use authara.Prelude.{ℕ, ◌+◌, ◌≤◌, ◌≡◌, ◌≢◌, ◌⊎◌, refl, List, [], ◌∷◌, some, true, arith, any, find?}
use authara.Prelude.Text.{Text, codes, text_eq, trim_space}
use authara.Store.Pending.{PendingPasswordReset}
use authara.Store.Exec.{ok, user_scope, with_transaction}
use authara.Store.Challenges.{
  delete_pending_password_resets_by_user_id, get_challenge_by_id,
  get_verification_code_by_challenge_id, get_auth_provider_by_method_and_user_id,
  update_password_hash, consume_challenge, increment_challenge_resend_count,
  get_pending_password_reset_by_challenge_id,
}
use authara.Session.Token.{absent, is_cut_off, revoke_scope}
use authara.Challenge.Services.{
  ChallengeServices, returning, validate_challenge_for_verify, validate_challenge_for_resend,
  enqueue_challenge_email, email_template_for_purpose,
}
use authara.Challenge.Codes.{verify_code, clone_secrets, matches_verification_code_hash}
use authara.Challenge.Verify.{verify_challenge, verify_body, try_code, consume}
use authara.Challenge.Resend.{
  resend_challenge, resend_body, lock_pending_action_for_resend, pending_action_user_id, send_again,
}
use authara.Challenge.PasswordReset.{
  complete_password_reset_challenge, complete_reset, require_password_reset_eligibility,
  execute_password_reset, marker,
}
use authara.Challenge.Executed.{IsReplaced}
use authara.Store.Sessions.{revoke_all_sessions_for_user}
use authara.Store.Outbox.{enqueue}
use authara.Store.Users.{lock_user, get_user_by_id}
use authara.Challenge.History.{
  Guess, guess, for_password_reset, for_email_change, wrong_guesses, AllRely, wrong_guesses_bound,
}
use authara.Challenge.Once.{guess-once}
use authara.Challenge.Replaced.{complete_password_reset-Replaced}
use authara.Challenge.Spacing.{resend_challenge-spaced}
use authara.Challenge.Fixtures.{services, challenge, asked, start, found}

-- Two wrong codes, the right one too late, and a code for something else.
abbrev guesses : List (ChallengeServices × Text × ℕ × Guess)
guesses =
    (services, codes "000000", 100, for_password_reset)
    ∷ (services, codes "111111", 101, for_password_reset)
    ∷ (services, codes "123456", 102, for_password_reset)
    ∷ (services, codes "123456", 103, for_email_change 1 10)
    ∷ []

guesses-AllRely : AllRely 7 3 guesses
guesses-AllRely = (
  (λ made d h. h, λ i made d h. h, λ d. refl, tt),
  (
    (λ made d h. h, λ i made d h. h, λ d. refl, tt),
    (
      (λ made d h. h, λ i made d h. h, λ d. refl, tt),
      ((λ made d h. h, λ i made d h. h, λ d. refl, tt), tt),
    ),
  ),
)

wrong_guesses_bound_example : 1 + wrong_guesses 7 guesses start ≤ 3
wrong_guesses_bound_example =
    wrong_guesses_bound 7 challenge guesses start found refl (omega arith) guesses-AllRely

-- The run of a reset with the challenge's code.
reset :
    (guess services 7 (codes "123456") 100 for_password_reset start).0
    ≡ ok (record challenge { consumed_at = some 100 })
unfolding guess complete_password_reset_challenge verify_challenge verify_body with_transaction
    returning verify_code validate_challenge_for_verify try_code consume get_challenge_by_id find?
    any text_eq get_verification_code_by_challenge_id clone_secrets matches_verification_code_hash
    complete_reset get_pending_password_reset_by_challenge_id lock_user
    require_password_reset_eligibility get_user_by_id get_auth_provider_by_method_and_user_id
    execute_password_reset update_password_hash revoke_scope consume_challenge trim_space enqueue
    delete_pending_password_resets_by_user_id revoke_all_sessions_for_user
reset = refl

guess-once_example :
    (guess services 7
      (codes "123456")
      200
      (for_email_change 1 10)
      (guess services 7 (codes "123456") 100 for_password_reset start).1).0
    ≢ ok challenge
guess-once_example =
    guess-once services services 7 100 200 (codes "123456") (codes "123456") for_password_reset
      (for_email_change 1 10) (record challenge { consumed_at = some 100 }) challenge start
      (λ d h. h) reset

complete_password_reset-Replaced_example :
    let w' = (complete_password_reset_challenge services 7 (codes "123456") 100 start).1 in
    (action : PendingPasswordReset) × (get_pending_password_reset_by_challenge_id 7 asked
      ≡ ok action)
    × (verify_code services 7 (codes "123456") 100 asked ≡ ok tt)
    × IsReplaced action w'.committed
    × ((services.cache ≡ absent)
        ⊎ (is_cut_off w'.revocations (user_scope action.user_id) (marker services 100) ≡ true))
unfolding guess
complete_password_reset-Replaced_example =
    complete_password_reset-Replaced services 7 100 (codes "123456")
      (record challenge { consumed_at = some 100 }) start reset

-- The code is sent again, and once more.
resent : (resend_challenge services 7 100 start).0 ≡ ok tt
unfolding resend_challenge resend_body with_transaction returning get_challenge_by_id find? any
    text_eq validate_challenge_for_resend lock_pending_action_for_resend pending_action_user_id
    send_again increment_challenge_resend_count enqueue_challenge_email email_template_for_purpose
    get_pending_password_reset_by_challenge_id lock_user
resent = refl

resent_again : (resend_challenge services 7 160 (resend_challenge services 7 100 start).1).0 ≡ ok tt
unfolding resend_challenge resend_body with_transaction returning get_challenge_by_id find? any
    text_eq validate_challenge_for_resend lock_pending_action_for_resend pending_action_user_id
    send_again increment_challenge_resend_count enqueue_challenge_email email_template_for_purpose
    get_pending_password_reset_by_challenge_id lock_user
resent_again = refl

resend_challenge-spaced_example : 100 + 60 ≤ 160
resend_challenge-spaced_example =
    resend_challenge-spaced services services 7 100 160 60 challenge start (λ d. refl) (λ d. refl)
      (λ d h. h) found refl resent resent_again

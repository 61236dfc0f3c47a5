-- ===== src/Challenge/Once.antt =====
-- internal/challenge: a challenge is used up by the code that is accepted for it.
use authara.Prelude.{ℕ, ◌≡◌, ◌≢◌, sym, subst, arith}
use authara.Prelude.Text.{Text}
use authara.Store.Pending.{
  Challenge, ChallengePurpose, signup, password_reset, email_change, email_verification,
}
use authara.Store.Exec.{Db, World, Exec, ok, pure}
use authara.Store.Challenges.{get_challenge_by_id}
use authara.Challenge.Services.{ChallengeServices, validate_challenge_for_verify}
use authara.Challenge.Verify.{verify_challenge, accept_signup, verify_signup_challenge}
use authara.Challenge.PasswordReset.{complete_reset, complete_password_reset_challenge}
use authara.Challenge.EmailChange.{
  authorize_change, execute_email_change, complete_email_change_challenge,
}
use authara.Challenge.EmailVerification.{
  authorize_verification, execute_verification, complete_required_email_verification,
}
use authara.Challenge.Verified.{verify-Accepted}
use authara.Challenge.Used.{IsUsed, consume-IsUsed, valid-unused}
use authara.Challenge.History.{
  Guess, for_signup, for_password_reset, for_email_change, for_email_verification, guess,
}

-- The row that a code is accepted for, before and after.
record Used (s : ChallengeServices) (cid now : ℕ) (w w' : World) : Type 0 where
  row : Challenge
  found : get_challenge_by_id cid (s.others w.committed) ≡ ok row
  valid : validate_challenge_for_verify row now ≡ ok tt
  used : IsUsed cid w'.committed

accepted-Used :
    {A : Type 0} (s : ChallengeServices) (cid : ℕ) (purpose : ChallengePurpose) (code : Text)
    (now : ℕ) (before : Challenge → Exec A) (after : A → Exec (Unit {0})) (c : Challenge)
    (w : World)
    → (verify_challenge s cid purpose code now before after w).0 ≡ ok c
    → Used s cid now w (verify_challenge s cid purpose code now before after w).1
accepted-Used s cid purpose code now before after c w h =
    let a = verify-Accepted s cid purpose code now before after c w h in
    record {
      row = a.row;
      found = a.found;
      valid = a.valid;
      used =
          subst (λ (x : World). IsUsed cid x.committed) (sym a.left)
            (consume-IsUsed cid now _ a.last a.consumed);
    }

guess-Used :
    (s : ChallengeServices) (cid now : ℕ) (code : Text) (g : Guess) (c : Challenge) (w : World)
    → (guess s cid code now g w).0 ≡ ok c
    → Used s cid now w (guess s cid code now g w).1
unfolding guess verify_signup_challenge complete_password_reset_challenge
    complete_email_change_challenge complete_required_email_verification
guess-Used s cid now code (for_signup complete) c w =
    accepted-Used s cid signup code now (λ x. pure x) (accept_signup complete) c w
guess-Used s cid now code for_password_reset c w =
    accepted-Used s cid password_reset code now (λ x. pure x) (λ x. complete_reset s x now) c w
guess-Used s cid now code (for_email_change user_id session_id) c w =
    accepted-Used s cid email_change code now (authorize_change s user_id session_id now)
      (λ action. execute_email_change s action now) c w
guess-Used s cid now code (for_email_verification transaction_id) c w =
    accepted-Used s cid email_verification code now (authorize_verification s transaction_id now)
      (λ a. execute_verification s a now) c w

-- A challenge serves once: when a code was accepted for it, no code is accepted for it again, for
-- whatever kind of action and at whatever time, as long as the other transactions of the later call
-- leave a consumed challenge consumed.
pub guess-once :
    (s s' : ChallengeServices) (cid now now' : ℕ) (code code' : Text) (g g' : Guess)
    (c c' : Challenge) (w : World)
    → ((d : Db) → IsUsed cid d → IsUsed cid (s'.others d))
    → (guess s cid code now g w).0 ≡ ok c
    → (guess s' cid code' now' g' (guess s cid code now g w).1).0 ≢ ok c'
guess-once s s' cid now now' code code' g g' c c' w rely h h' =
    let first = guess-Used s cid now code g c w h in
    let again = guess-Used s' cid now' code' g' c' (guess s cid code now g w).1 h' in
    let (row, found, used) = rely (guess s cid code now g w).1.committed first.used in
    ground (arith, found, used, again.found, valid-unused again.row now' again.valid)

-- ===== src/Challenge/History.antt =====
-- internal/challenge: the methods that take a code, and histories of codes given for one challenge.
use authara.Prelude.{ℕ, ◌+◌, ◌≤◌, ◌≡◌, refl, sym, subst, ◌∙◌, List, [], ◌∷◌, arith}
use authara.Prelude.Text.{Text}
use authara.Store.Pending.{Challenge, PendingSignupAction}
use authara.Store.Exec.{Db, World, Exec, ok, reads}
use authara.Store.Keeps.{Both, Keeps, Keeps-pure, Keeps-reads, Keeps-bind}
use authara.Store.Challenges.{get_challenge_by_id, get_pending_signup_action_by_challenge_id}
use authara.Challenge.Rows.{Holds, leaves_challenges, found-id}
use authara.Challenge.Right.{is_wrong, Right}
use authara.Challenge.Services.{ChallengeServices}
use authara.Challenge.Verify.{verify_signup_challenge}
use authara.Challenge.PasswordReset.{complete_password_reset_challenge}
use authara.Challenge.EmailChange.{complete_email_change_challenge}
use authara.Challenge.EmailVerification.{complete_required_email_verification}
use authara.Challenge.Closures.{
  execute_verification-leaves, authorize_verification-leaves, complete_reset-leaves,
  execute_change-leaves, authorize-leaves,
}
use authara.Challenge.Guesses.{verify-Counted}
use authara.Challenge.Reports.{
  authorize_verification-Right, execute_verification-Right, complete_reset-Right, authorize-Right,
  execute_change-Right, signup-Right,
}

-- What is done for a code that is right.
pub data Guess : Type 0 where
  -- the completion is the caller's
  for_signup : (PendingSignupAction → Exec (Unit {0})) → Guess
  for_password_reset : Guess
  -- by the user and the session
  for_email_change : ℕ → ℕ → Guess
  -- under the transaction
  for_email_verification : ℕ → Guess

-- A method that takes a code for a challenge, at a time.
unfoldable pub guess : ChallengeServices → ℕ → Text → ℕ → Guess → Exec Challenge
guess s challenge_id code now (for_signup complete) =
    verify_signup_challenge s challenge_id code now complete
guess s challenge_id code now for_password_reset =
    complete_password_reset_challenge s challenge_id code now
guess s challenge_id code now (for_email_change user_id session_id) =
    complete_email_change_challenge s challenge_id user_id session_id code now
guess s challenge_id code now (for_email_verification transaction_id) =
    complete_required_email_verification s transaction_id challenge_id code now

-- How many of the codes given in a history were wrong.
unfoldable pub wrong_guesses : ℕ → List (ChallengeServices × Text × ℕ × Guess) → World → ℕ
wrong_guesses challenge_id [] w = 0
wrong_guesses challenge_id ((s, code, now, g) ∷ rest) w =
    let (r, w') = guess s challenge_id code now g w in
    is_wrong r + wrong_guesses challenge_id rest w'

-- What is asked of the caller's part.
abbrev pub Completes : ℕ → ℕ → Guess → Type 0
Completes challenge_id allowed (for_signup complete) =
    ((made : ℕ) (a : PendingSignupAction) → Keeps (Holds challenge_id made allowed) (complete a))
    × ((a : PendingSignupAction) → Right (complete a))
Completes challenge_id allowed for_password_reset = Unit {0}
Completes challenge_id allowed (for_email_change user_id session_id) = Unit {0}
Completes challenge_id allowed (for_email_verification transaction_id) = Unit {0}

-- What a history relies on: the other transactions leave the challenge there, with no fewer
-- attempts and its allowance, and do not touch it while it is locked; the completion of a sign-up
-- does so too, and does not itself report a wrong code.
abbrev pub Relies : ℕ → ℕ → ChallengeServices → Guess → Type 0
Relies challenge_id allowed s g =
    ((made : ℕ) (d : Db)
      → Holds challenge_id made allowed d
      → Holds challenge_id made allowed (s.others d))
    × ((i made : ℕ) (d : Db)
        → Holds challenge_id made allowed d
        → Holds challenge_id made allowed (s.others_holding i d))
    × ((d : Db)
        → get_challenge_by_id challenge_id (s.others_holding challenge_id d)
          ≡ get_challenge_by_id challenge_id d)
    × Completes challenge_id allowed g

abbrev pub AllRely : ℕ → ℕ → List (ChallengeServices × Text × ℕ × Guess) → Type 0
AllRely challenge_id allowed [] = Unit {0}
AllRely challenge_id allowed ((s, code, now, g) ∷ rest) =
    Relies challenge_id allowed s g × AllRely challenge_id allowed rest

module _ (challenge_id allowed : ℕ) where
  -- The row itself, beside what is counted on it.
  abbrev Row : ℕ → Challenge → Db → Type 0
  Row made c d = Holds challenge_id made allowed d × (get_challenge_by_id challenge_id d ≡ ok c)

  leaves-Row :
      (made : ℕ) (c : Challenge) (d d' : Db)
      → d'.challenges ≡ d.challenges
      → Row made c d
      → Row made c d'
  unfolding get_challenge_by_id
  leaves-Row made c d d' e (h, found) = (leaves_challenges d d' e h, ground (arith, e, found))

  holding-Row :
      (s : ChallengeServices) (made : ℕ) (c : Challenge)
      → ((i : ℕ) (d : Db)
          → Holds challenge_id made allowed d
          → Holds challenge_id made allowed (s.others_holding i d))
      → ((d : Db)
          → get_challenge_by_id challenge_id (s.others_holding challenge_id d)
            ≡ get_challenge_by_id challenge_id d)
      → (d : Db) → Row made c d
      → Row made c (s.others_holding c.id d)
  holding-Row s made c holding locks d (h, found) =
      let own = sym (found-id challenge_id d c found) in
      let untouched =
        subst (λ i. get_challenge_by_id challenge_id (s.others_holding i d) ≡ ok c) own
          (locks d ∙ found) in
      (holding c.id d h, untouched)

  guess-Counted :
      (s : ChallengeServices) (code : Text) (now made : ℕ) (g : Guess) (w : World)
      → Relies challenge_id allowed s g
      → Both (Holds challenge_id made allowed) w
      → let (r, w') = guess s challenge_id code now g w in
        Both (Holds challenge_id (made + is_wrong r) allowed) w'
  unfolding guess verify_signup_challenge complete_password_reset_challenge
      complete_email_change_challenge complete_required_email_verification
  guess-Counted s code now made (for_signup complete) w (rely, holding, locks, (keeps, right)) h =
      verify-Counted s challenge_id _ code now _ _ allowed rely (λ n c. Keeps-pure c) (λ c w. refl)
        (λ n c.
          Keeps-bind (reads (get_pending_signup_action_by_challenge_id c.id)) complete
            (Keeps-reads _) (keeps n))
        (λ c w. (signup-Right complete right c.id).at w) made w h
  guess-Counted s code now made for_password_reset w (rely, holding, locks, _) h =
      verify-Counted s challenge_id _ code now _ _ allowed rely (λ n c. Keeps-pure c) (λ c w. refl)
        (λ n c. complete_reset-leaves leaves_challenges s (λ i. holding i n) c now)
        (λ c w. (complete_reset-Right s c now).at w) made w h
  guess-Counted s code now made (for_email_change user_id session_id) w (rely, holding, locks, _)
        h =
      verify-Counted s challenge_id _ code now _ _ allowed rely
        (λ n c.
          authorize-leaves (leaves-Row n c) s user_id session_id now c
            (holding-Row s n c (λ i. holding i n) locks))
        (λ c w. (authorize-Right s user_id session_id now c).at w)
        (λ n action. execute_change-leaves leaves_challenges s action now)
        (λ action w. (execute_change-Right s action now).at w) made w h
  guess-Counted s code now made (for_email_verification transaction_id) w (rely, holding, locks, _)
        h =
      verify-Counted s challenge_id _ code now _ _ allowed rely
        (λ n c.
          authorize_verification-leaves (leaves-Row n c) s transaction_id now c
            (holding-Row s n c (λ i. holding i n) locks))
        (λ c w. (authorize_verification-Right s transaction_id now c).at w)
        (λ n a. execute_verification-leaves leaves_challenges s a.0 a.1 a.2 now)
        (λ a w. (execute_verification-Right s a.0 a.1 a.2 now).at w) made w h

  wrong-Counted :
      (history : List (ChallengeServices × Text × ℕ × Guess)) (made : ℕ) (w : World)
      → AllRely challenge_id allowed history
      → Both (Holds challenge_id made allowed) w
      → made + wrong_guesses challenge_id history w ≤ allowed
  unfolding wrong_guesses
  wrong-Counted [] made w rely (h, _) = omega (arith, h.counted, h.within, h.allowance)
  wrong-Counted ((s, code, now, g) ∷ rest) made w (relies, rely) h =
      let r = (guess s challenge_id code now g w).0 in
      let later =
        wrong-Counted rest (made + is_wrong r) (guess s challenge_id code now g w).1 rely
          (guess-Counted s code now made g w relies h) in
      omega (arith, later)

-- However many codes are given for a challenge, of whatever kind and at whatever time, no more wrong
-- ones are tried than it has attempts left. At first the challenge is there, no transaction is open,
-- and no more attempts are counted than it allows. What other transactions commit meanwhile leaves
-- the challenge there, with its allowance and with no fewer attempts counted, and they do not touch
-- it while its row is locked. The completion of a sign-up, which is the caller's, leaves the
-- challenge like that too, and does not itself report a wrong code.
pub wrong_guesses_bound :
    (challenge_id : ℕ) (c : Challenge) (history : List (ChallengeServices × Text × ℕ × Guess))
    (w : World)
    → get_challenge_by_id challenge_id w.committed ≡ ok c
    → w.db ≡ w.committed
    → c.attempt_count ≤ c.max_attempts
    → AllRely challenge_id c.max_attempts history
    → c.attempt_count + wrong_guesses challenge_id history w ≤ c.max_attempts
wrong_guesses_bound challenge_id c history w found idle within rely =
    let start : Holds challenge_id c.attempt_count c.max_attempts w.committed = record {
      row = c;
      found = found;
      counted = omega arith;
      within = within;
      allowance = refl;
    } in
    wrong-Counted challenge_id c.max_attempts history c.attempt_count w rely (start, rw idle start)

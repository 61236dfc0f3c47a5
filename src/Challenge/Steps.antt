-- ===== src/Challenge/Steps.antt =====
-- internal/challenge/service.go: the ways through the verification of a code.
use authara.Prelude.{ℕ, ◌≡◌, ap, ◌∙◌, true, false, arith}
use authara.Prelude.Text.{Text}
use authara.Store.Pending.{ChallengePurpose, Challenge, has_attempts_remaining}
use authara.Store.Exec.{
  Db, World, Exec, Result, ok, err, Error, challenge_already_consumed, challenge_not_found, reads,
  waits, continue, >>=-eq-both, ◌>>=◌,
}
use authara.Store.Challenges.{get_challenge_by_id, consume_challenge}
use authara.Challenge.Services.{ChallengeServices, validate_challenge_for_verify}
use authara.Challenge.Verify.{as_lock, is_invalid_code, validated, verify_body}

pub consume-refused :
    (id now : ℕ) (d : Db) (e : Error)
    → consume_challenge id now d ≡ err e
    → consume_challenge id now d ≡ err challenge_already_consumed
unfolding consume_challenge
consume-refused id now d e refused = ground (arith, refused)

pub get-missing :
    (id : ℕ) (d : Db) (e : Error) → get_challenge_by_id id d ≡ err e → e ≡ challenge_not_found
unfolding get_challenge_by_id
get-missing id d e missing = ground (arith, missing)

-- A row that passes has an attempt left.
pub validated-left :
    (c : Challenge) (now : ℕ)
    → validate_challenge_for_verify c now ≡ ok tt
    → has_attempts_remaining c ≡ true
unfolding validate_challenge_for_verify
validated-left c now passed = ground (arith, passed)

pub refused-right :
    (c : Challenge) (now : ℕ) (e : Error)
    → validate_challenge_for_verify c now ≡ err e
    → is_invalid_code e ≡ false
unfolding validate_challenge_for_verify
refused-right c now e refused = ground (arith, refused)

-- The world that the first lock leaves.
abbrev pub locked : ChallengeServices → World → World
locked s w = record w { committed = s.others w.committed; db = s.others w.committed }

module _ {A : Type 0} (s : ChallengeServices) (cid : ℕ) (purpose : ChallengePurpose) (code : Text)
    (now : ℕ) (before : Challenge → Exec A) (after : A → Exec (Unit {0})) where
  pub body-found :
      (c : Challenge) (w : World)
      → get_challenge_by_id cid (s.others w.committed) ≡ ok c
      → verify_body s cid purpose code now before after w
        ≡ validated s cid purpose code now before after c
            (validate_challenge_for_verify c now)
            (locked s w)
  unfolding verify_body
  body-found c w mine =
      >>=-eq-both (waits s.others (λ d. as_lock (get_challenge_by_id cid d))) _ w tt
        (ap as_lock mine)
      ∙ >>=-eq-both (reads (get_challenge_by_id cid)) _ (locked s w) c mine

  pub body-missing :
      (e : Error) (w : World)
      → get_challenge_by_id cid (s.others w.committed) ≡ err e
      → verify_body s cid purpose code now before after w ≡ (err e, locked s w)
  unfolding verify_body
  body-missing e w missing =
      ap
        (λ (r : Result Challenge).
          continue (as_lock r)
            (λ _. do
              c ← reads (get_challenge_by_id cid)
              validated s cid purpose code now before after c (validate_challenge_for_verify c now))
            (locked s w))
        missing

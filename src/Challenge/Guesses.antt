-- ===== src/Challenge/Guesses.antt =====
-- internal/challenge/service.go: how often a wrong code may be given for a challenge.
use authara.Prelude.{ℕ, ◌+◌, ◌≡◌, refl, inl, inr, true, Bool-cases}
use authara.Prelude.Text.{Text}
use authara.Store.Pending.{ChallengePurpose, Challenge, has_attempts_remaining}
use authara.Store.Exec.{
  Db, World, Exec, Result, ok, err, Error, reads, catch, continue, branch, settle, with_transaction,
  Result-cases, ◌>>◌,
}
use authara.Store.Keeps.{Both, Keeps}
use authara.Store.Challenges.{get_challenge_by_id, consume_challenge}
use authara.Challenge.Rows.{Holds, increment-own, consume-Holds, no_more}
use authara.Challenge.Services.{
  ChallengeServices, purpose_eq, validate_challenge_for_verify, flattened, returning,
}
use authara.Challenge.Codes.{verify_code}
use authara.Challenge.Right.{is_wrong}
use authara.Challenge.Steps.{
  locked, body-found, body-missing, consume-refused, get-missing, validated-left, refused-right,
}
use authara.Challenge.Verify.{
  is_invalid_code, refuse_code, consume, try_code, validated, verify_body, verify_challenge,
}

abbrev wrong_inside : Result (Result Challenge) → ℕ
wrong_inside (ok r) = is_wrong r
wrong_inside (err e) = 0

module _ {A : Type 0} (s : ChallengeServices) (cid : ℕ) (purpose : ChallengePurpose) (code : Text)
    (now : ℕ) (before : Challenge → Exec A) (after : A → Exec (Unit {0})) (allowed : ℕ)
    (rely : (made : ℕ) (d : Db) → Holds cid made allowed d → Holds cid made allowed (s.others d))
    (before-Keeps : (made : ℕ) (c : Challenge)
      → Keeps (λ d. Holds cid made allowed d × (get_challenge_by_id cid d ≡ ok c)) (before c))
    (before-right : (c : Challenge) (w : World) → is_wrong (before c w).0 ≡ 0)
    (after-Keeps : (made : ℕ) (a : A) → Keeps (Holds cid made allowed) (after a))
    (after-right : (a : A) (w : World) → is_wrong (after a w).0 ≡ 0) where
  -- What a closure leaves: the count in the database is as large as the result says.
  abbrev Counts : ℕ → Result (Result Challenge) × World → Type 0
  Counts made (r, w) =
      Holds cid made allowed w.committed
      × Holds cid (made + wrong_inside r) allowed w.db
      × (is_wrong r ≡ 0)

  kept :
      (made : ℕ) (r : Result (Result Challenge)) (w : World)
      → Both (Holds cid made allowed) w
      → wrong_inside r ≡ 0
      → is_wrong r ≡ 0
      → Counts made (r, w)
  kept made r w h none_inside none = (h.0, rw none_inside (no_more w.db h.1), none)

  refuse-Counts :
      (made : ℕ) (c : Challenge) (e : Error) (w : World)
      → Both (Holds cid made allowed) w
      → get_challenge_by_id cid w.db ≡ ok c
      → has_attempts_remaining c ≡ true
      → Counts made (refuse_code s cid purpose code now before after e w)
  unfolding refuse_code
  refuse-Counts made c e w h mine left = elim (Bool-cases (is_invalid_code e)) [
    | inl wrong ↦ rw wrong (h.0, rw wrong (increment-own c w.db mine left h.1), refl)
    | inr other ↦ rw other (h.0, rw other (no_more w.db h.1), refl)
  ]

  consume-Counts :
      (made : ℕ) (c : Challenge) (w : World)
      → Both (Holds cid made allowed) w
      → Counts made (consume s cid purpose code now before after c w)
  unfolding consume
  consume-Counts made c w h = elim (Result-cases (consume_challenge cid now w.db)) [
    | inl (d, done) ↦ rw done (h.0, no_more d (consume-Holds cid now w.db d done h.1), refl)
    | inr (e, refused) ↦ rw (consume-refused cid now w.db e refused) (h.0, no_more w.db h.1, refl)
  ]

  after-Counts :
      (made : ℕ) (a : A) (c : Challenge) (w : World)
      → Both (Holds cid made allowed) w
      → Counts made ((do after a; consume s cid purpose code now before after c) w)
  after-Counts made a c w h =
      by_result (after a w).0 (after a w).1 ((after-Keeps made a).at w h) (after-right a w)
    where
      by_result :
          (r : Result (Unit {0})) (w' : World)
          → Both (Holds cid made allowed) w'
          → is_wrong r ≡ 0
          → Counts made (continue r (λ _. consume s cid purpose code now before after c) w')
      by_result (ok _) w' h' right = consume-Counts made c w' h'
      by_result (err e) w' h' right = kept made (err e) w' h' refl right

  try-Counts :
      (made : ℕ) (c : Challenge) (w : World)
      → Both (Holds cid made allowed) w
      → get_challenge_by_id cid w.committed ≡ ok c
      → get_challenge_by_id cid w.db ≡ ok c
      → has_attempts_remaining c ≡ true
      → Counts made (try_code s cid purpose code now before after c w)
  unfolding try_code
  try-Counts made c w h mine mine' left =
      by_before (before c w).0 (before c w).1
        ((before-Keeps made c).at w ((h.0, mine), (h.1, mine'))) (before-right c w)
    where
      by_code :
          (r : Result (Unit {0})) (a : A) (w' : World)
          → Both (Holds cid made allowed) w'
          → get_challenge_by_id cid w'.db ≡ ok c
          → Counts made (
              branch r
                (λ _. do after a; consume s cid purpose code now before after c)
                (λ e. refuse_code s cid purpose code now before after e)
                w')
      by_code (ok _) a w' h' here = after-Counts made a c w' h'
      by_code (err e) a w' h' here = refuse-Counts made c e w' h' here left

      by_before :
          (r : Result A) (w' : World)
          → Both (λ d. Holds cid made allowed d × (get_challenge_by_id cid d ≡ ok c)) w'
          → is_wrong r ≡ 0
          → Counts made (
              continue r
                (λ a.
                  catch
                    (reads (verify_code s cid code now))
                    (λ _. do after a; consume s cid purpose code now before after c)
                    (λ e. refuse_code s cid purpose code now before after e))
                w')
      by_before (ok a) w' h' right =
          by_code (verify_code s cid code now w'.db) a w' (h'.0.0, h'.1.0) h'.1.1
      by_before (err e) w' h' right = kept made (err e) w' (h'.0.0, h'.1.0) refl right

  body-Counts :
      (made : ℕ) (w : World)
      → Both (Holds cid made allowed) w
      → Counts made (verify_body s cid purpose code now before after w)
  body-Counts made w h = by_row (get_challenge_by_id cid (s.others w.committed)) refl
    where
      w' : World
      w' = locked s w

      h' : Both (Holds cid made allowed) w'
      h' = (rely made w.committed h.0, rely made w.committed h.0)

      by_validation :
          (c : Challenge) (r : Result (Unit {0}))
          → get_challenge_by_id cid (s.others w.committed) ≡ ok c
          → validate_challenge_for_verify c now ≡ r
          → Counts made (validated s cid purpose code now before after c r w')
      by_validation c (err e) mine v =
          (h'.0, rw (refused-right c now e v) (no_more w'.db h'.1), refl)
      by_validation c (ok _) mine v = elim (Bool-cases (purpose_eq c.purpose purpose)) [
        | inl same ↦ rw same (try-Counts made c w' h' mine mine (validated-left c now v))
        | inr other ↦ rw other (h'.0, no_more w'.db h'.1, refl)
      ]

      by_row :
          (r : Result Challenge)
          → get_challenge_by_id cid (s.others w.committed) ≡ r
          → Counts made (verify_body s cid purpose code now before after w)
      by_row (ok c) mine =
          rw (body-found s cid purpose code now before after c w mine)
            (by_validation c (validate_challenge_for_verify c now) mine refl)
      by_row (err e) missing =
          rw
            (
              body-missing s cid purpose code now before after e w missing,
              get-missing cid _ e missing,
            )
            (h'.0, no_more w'.db h'.1, refl)

  -- A method's call counts a wrong code once, in what is committed too.
  pub verify-Counted :
      (made : ℕ) (w : World)
      → Both (Holds cid made allowed) w
      → let (r, w') = verify_challenge s cid purpose code now before after w in
        Both (Holds cid (made + is_wrong r) allowed) w'
  unfolding verify_challenge with_transaction returning
  verify-Counted made w h =
      by_result (verify_body s cid purpose code now before after w).0
        (verify_body s cid purpose code now before after w).1 (body-Counts made w h)
    where
      by_result :
          (r : Result (Result Challenge)) (w' : World)
          → Counts made (r, w')
          → let (r', w'') = settle r w' in
            Both (Holds cid (made + is_wrong (flattened r')) allowed) w''
      by_result (ok r) w' (below, counted, right) = (counted, counted)
      by_result (err e) w' (below, counted, right) =
          let unchanged : Holds cid (made + is_wrong {A = Result Challenge} (err e)) allowed
              w'.committed =
            rw right (no_more w'.committed below) in
          (unchanged, unchanged)

-- ===== src/Challenge/Verified.antt =====
-- internal/challenge/service.go: what holds when a code was accepted.
use authara.Prelude.{ℕ, ◌≡◌, refl, sym, ap, ◌∙◌, inl, inr, true, arith, Bool-cases}
use authara.Prelude.Text.{Text}
use authara.Store.Pending.{ChallengePurpose, Challenge}
use authara.Store.Exec.{
  Db, World, Exec, Result, ok, err, Error, branch, settle, with_transaction, Result-cases,
  >>=-eq-ok, >>=-eq-both, ◌>>◌,
}
use authara.Store.Challenges.{get_challenge_by_id, consume_challenge}
use authara.Challenge.Services.{
  ChallengeServices, purpose_eq, validate_challenge_for_verify, flattened, returning,
}
use authara.Challenge.Codes.{verify_code}
use authara.Challenge.Steps.{locked, body-found, body-missing}
use authara.Challenge.Verify.{
  refuse_code, consume, try_code, validated, verify_body, verify_challenge,
}

module _ {A : Type 0} (s : ChallengeServices) (cid : ℕ) (purpose : ChallengePurpose) (code : Text)
    (now : ℕ) (before : Challenge → Exec A) (after : A → Exec (Unit {0})) where
  -- The way of a code that is accepted, from the locked row to the row that is consumed.
  pub record Accepted (w w' : World) : Type 0 where
    pub row : Challenge
    pub found : get_challenge_by_id cid (s.others w.committed) ≡ ok row
    pub valid : validate_challenge_for_verify row now ≡ ok tt
    pub purposed : purpose_eq row.purpose purpose ≡ true
    pub prepared : A
    pub before_ok : (before row (locked s w)).0 ≡ ok prepared
    pub code_ok : verify_code s cid code now (before row (locked s w)).1.db ≡ ok tt
    pub after_ok : (after prepared (before row (locked s w)).1).0 ≡ ok tt
    pub last : Db
    pub consumed :
        consume_challenge cid now (after prepared (before row (locked s w)).1).1.db ≡ ok last
    pub left :
        w' ≡ record (after prepared (before row (locked s w)).1).1 { committed = last; db = last }

  -- A closure of which the outcome is no error inside.
  abbrev Succeeds : Result (Result Challenge) → Type 0
  Succeeds r = (c : Challenge) × (r ≡ ok (ok c))

  consume-ok :
      (c : Challenge) (w : World)
      → Succeeds (consume s cid purpose code now before after c w).0
      → (d : Db) × (consume_challenge cid now w.db ≡ ok d)
        × ((consume s cid purpose code now before after c w).1 ≡ record w { db = d })
  unfolding consume
  consume-ok c w (x, h) = elim (Result-cases (consume_challenge cid now w.db)) [
    | inl (d, done) ↦ (d, done, rw done refl)
    | inr (e, refused) ↦ ground (arith, h, refused)
  ]

  refuse-not_ok :
      (e : Error) (w : World) → Succeeds (refuse_code s cid purpose code now before after e w).0 → ⊥
  unfolding refuse_code
  refuse-not_ok e w (x, h) = ground (arith, h)

  -- The part of it behind the checks on the row.
  record Tried (c : Challenge) (w w' : World) : Type 0 where
    prepared : A
    before_ok : (before c w).0 ≡ ok prepared
    code_ok : verify_code s cid code now (before c w).1.db ≡ ok tt
    after_ok : (after prepared (before c w).1).0 ≡ ok tt
    last : Db
    consumed : consume_challenge cid now (after prepared (before c w).1).1.db ≡ ok last
    left : w' ≡ record (after prepared (before c w).1).1 { db = last }

  try-ok :
      (c : Challenge) (w : World)
      → Succeeds (try_code s cid purpose code now before after c w).0
      → Tried c w (try_code s cid purpose code now before after c w).1
  unfolding try_code
  try-ok c w (x, h) =
      let (a, e₁, h₁) = >>=-eq-ok (before c) _ w h in
      let w₁ = (before c w).1 in
      elim (Result-cases (verify_code s cid code now w₁.db)) [
        | inr (e, wrong) ↦ absurd (
            refuse-not_ok e w₁ (
              x,
              ap
                    (λ (r : Result (Unit {0})).
                      (branch r (λ _. do after a; consume s cid purpose code now before after c)
                        (λ e. refuse_code s cid purpose code now before after e) w₁).0)
                    (sym wrong)
                  ∙ h₁,
            ))
        | inl (_, right) ↦
            let h₂ =
              ap
                (λ (r : Result (Unit {0})).
                  (branch r (λ _. do after a; consume s cid purpose code now before after c)
                    (λ e. refuse_code s cid purpose code now before after e) w₁).0)
                (sym right)
              ∙ h₁ in
            let (u, e₃, h₃) = >>=-eq-ok (after a) _ w₁ h₂ in
            let (d, done, world) = consume-ok c (after a w₁).1 (x, h₃) in
            record {
              prepared = a;
              before_ok = e₁;
              code_ok = right;
              after_ok = e₃;
              last = d;
              consumed = done;
              left =
                  ap (λ (y : Result (Result Challenge) × World). y.1)
                    (>>=-eq-both (before c) _ w a e₁)
                  ∙ ap
                      (λ (r : Result (Unit {0})).
                        (branch r (λ _. do after a; consume s cid purpose code now before after c)
                          (λ e. refuse_code s cid purpose code now before after e) w₁).1)
                      right
                  ∙ ap (λ (y : Result (Result Challenge) × World). y.1)
                      (>>=-eq-both (after a) _ w₁ tt e₃)
                  ∙ world;
            }
      ]

  body-ok :
      (w : World)
      → Succeeds (verify_body s cid purpose code now before after w).0
      → let w' = (verify_body s cid purpose code now before after w).1 in
        Accepted w (record w' { committed = w'.db })
  unfolding verify_body
  body-ok w (x, h) = by_row (get_challenge_by_id cid (s.others w.committed)) refl
    where
      by_validation :
          (c : Challenge) (r : Result (Unit {0}))
          → get_challenge_by_id cid (s.others w.committed) ≡ ok c
          → validate_challenge_for_verify c now ≡ r
          → verify_body s cid purpose code now before after w
            ≡ validated s cid purpose code now before after c r (locked s w)
          → let w' = (verify_body s cid purpose code now before after w).1 in
            Accepted w (record w' { committed = w'.db })
      by_validation c (err e) mine v eq = cc (h, eq)
      by_validation c (ok _) mine v eq = elim (Bool-cases (purpose_eq c.purpose purpose)) [
        | inr other ↦ ground (arith, h, eq, other)
        | inl same ↦
            let tried_eq : verify_body s cid purpose code now before after w
                ≡ try_code s cid purpose code now before after c (locked s w) =
              rw same at eq in
            let t = try-ok c (locked s w) (x, cc (h, tried_eq)) in
            record {
              row = c;
              found = mine;
              valid = v;
              purposed = same;
              prepared = t.prepared;
              before_ok = t.before_ok;
              code_ok = t.code_ok;
              after_ok = t.after_ok;
              last = t.last;
              consumed = t.consumed;
              left =
                  ap (λ (y : Result (Result Challenge) × World). record y.1 { committed = y.1.db })
                    tried_eq
                  ∙ ap (λ (y : World). record y { committed = y.db }) t.left;
            }
      ]

      by_row :
          (r : Result Challenge)
          → get_challenge_by_id cid (s.others w.committed) ≡ r
          → let w' = (verify_body s cid purpose code now before after w).1 in
            Accepted w (record w' { committed = w'.db })
      by_row (err e) missing = cc (h, body-missing s cid purpose code now before after e w missing)
      by_row (ok c) mine =
          by_validation c (validate_challenge_for_verify c now) mine refl
            (body-found s cid purpose code now before after c w mine)

  -- Whoever gets through gave a code that is accepted.
  pub verify-Accepted :
      (c : Challenge) (w : World)
      → (verify_challenge s cid purpose code now before after w).0 ≡ ok c
      → Accepted w (verify_challenge s cid purpose code now before after w).1
  unfolding verify_challenge with_transaction returning
  verify-Accepted c w h = by_result (verify_body s cid purpose code now before after w).0 refl h
    where
      by_result :
          (r : Result (Result Challenge))
          → (verify_body s cid purpose code now before after w).0 ≡ r
          → flattened (settle r (verify_body s cid purpose code now before after w).1).0 ≡ ok c
          → Accepted w (settle r (verify_body s cid purpose code now before after w).1).1
      by_result (ok (ok x)) e q = body-ok w (x, e)
      by_result (ok (err x)) e q = cc
      by_result (err x) e q = cc

-- ===== src/Challenge/Verifications.antt =====
-- internal/challenge/email_verification.go: a required verification that succeeds.
use authara.Prelude.{
  ℕ, ◌==◌, ◌≡◌, refl, sym, subst, ap, ◌∙◌, Option, none, some, true, false, ◌&&◌, is_some, arith,
  any, if◌then◌else◌, Bool-cases, inl, inr,
}
use authara.Prelude.Text.{Text}
use authara.Store.Rows.{User}
use authara.Store.Pending.{
  email_verification, Challenge, EmailVerificationTransaction, is_active_transaction,
}
use authara.Store.Exec.{
  Db, World, Exec, Result, Error, ok, err, email_verification_invalid, or_else, pure, raise, reads,
  waits, >>=-eq-ok,
}
use authara.Store.Users.{get_user_by_id}
use authara.Store.Challenges.{consume_challenge, get_email_verification_transaction_by_challenge_id}
use authara.Store.Verifications.{is_open}
use authara.Challenge.Services.{ChallengeServices}
use authara.Challenge.Steps.{locked}
use authara.Challenge.Verify.{as_lock}
use authara.Challenge.Verified.{verify-Accepted}
use authara.Challenge.EmailVerification.{
  with_target, execute_verification, authorize_verification, complete_required_email_verification,
}
use authara.Challenge.Addressed.{is_verified, is_consumed_at, execute-verified}
use authara.Challenge.Rows.{found-id}

-- What was found when the code was given: `d` is the database behind the transaction's lock, and
-- `d'` behind the user's.
pub record Authorized (transaction_id cid now : ℕ) (d d' : Db) (t : EmailVerificationTransaction)
    (target : Text) (user : User) : Type 0 where
  pub found : get_email_verification_transaction_by_challenge_id cid d ≡ ok t
  pub asked : t.id ≡ transaction_id
  pub active : is_active_transaction t now ≡ true
  pub targeted : t.target_email ≡ some target
  pub owner : get_user_by_id t.user_id d' ≡ ok user
  pub unverified : is_some user.email_verified_at ≡ false

or_else-ok : {A : Type 0} (r : Result A) (e : Error) (a : A) → or_else r e ≡ ok a → r ≡ ok a
or_else-ok (ok x) e a h = h
or_else-ok (err x) e a h = cc

target-some :
    (t : EmailVerificationTransaction) (o : Option Text) (s : ChallengeServices) (w : World)
    (x : Text)
    → (with_target s t o w).0 ≡ ok x
    → o ≡ some x
target-some t none s w x h = cc
target-some t (some y) s w x h = ap some (cc h)

-- These change nothing.
target-world :
    (t : EmailVerificationTransaction) (o : Option Text) (s : ChallengeServices) (w : World)
    → (with_target s t o w).1 ≡ w
target-world t none s w = refl
target-world t (some y) s w = refl

module _ (s : ChallengeServices) (transaction_id now : ℕ) where
  abbrev check : EmailVerificationTransaction → Exec (Unit {0})
  check t =
      if t.id == transaction_id && is_active_transaction t now
      then pure tt
      else raise email_verification_invalid

  check-world : (t : EmailVerificationTransaction) (w : World) → (check t w).1 ≡ w
  check-world t w = ground arith

  answer-fresh :
      (t : EmailVerificationTransaction) (x : Text) (u : User)
      (a : EmailVerificationTransaction × Text × User) (w : World)
      → ((if is_some u.email_verified_at then raise email_verification_invalid else pure (t, x, u))
          w).0
        ≡ ok a
      → ((t, x, u) ≡ a) × (is_some u.email_verified_at ≡ false)
  answer-fresh t x u a w h = elim (Bool-cases (is_some u.email_verified_at)) [
    | inl verified ↦ ground (arith, h, verified)
    | inr fresh ↦ (ground (arith, h, fresh), fresh)
  ]

  -- What the transaction sees behind the second lock, and behind the third.
  abbrev pub held : ℕ → World → Db
  held cid w = s.others_holding cid w.committed

  abbrev pub held_twice : ℕ → World → Db
  held_twice cid w = s.others_holding cid (held cid w)

  authorize-Authorized :
      (c : Challenge) (w : World) (t : EmailVerificationTransaction) (target : Text) (user : User)
      → (authorize_verification s transaction_id now c w).0 ≡ ok (t, target, user)
      → Authorized transaction_id c.id now (held c.id w) (held_twice c.id w) t target user
  unfolding authorize_verification
  authorize-Authorized c w t target user h =
      let holding = s.others_holding c.id in
      let lock = waits holding (λ d.
        or_else (as_lock (get_email_verification_transaction_by_challenge_id c.id d))
          email_verification_invalid) in
      let (_, _, h₁) = >>=-eq-ok lock _ w h in
      let w₁ = (lock w).1 in
      let read = reads (λ d.
        or_else (get_email_verification_transaction_by_challenge_id c.id d)
          email_verification_invalid) in
      let (t₁, read_ok, h₂) = >>=-eq-ok read _ w₁ h₁ in
      let (_, checked, h₃) = >>=-eq-ok (check t₁) _ w₁ h₂ in
      let w₂ = (check t₁ w₁).1 in
      let (x, aimed, h₄) = >>=-eq-ok (with_target s t₁ t₁.target_email) _ w₂ h₃ in
      let w₃ = (with_target s t₁ t₁.target_email w₂).1 in
      let same₃ : w₃ ≡ w₁ = target-world t₁ t₁.target_email s w₂ ∙ check-world t₁ w₁ in
      let lock_user =
        waits holding
          (λ d. or_else (as_lock (get_user_by_id t₁.user_id d)) email_verification_invalid) in
      let (_, _, h₅) = >>=-eq-ok lock_user _ w₃ h₄ in
      let read_user =
        reads (λ d. or_else (get_user_by_id t₁.user_id d) email_verification_invalid) in
      let (u₁, user_ok, h₆) = >>=-eq-ok read_user _ (lock_user w₃).1 h₅ in
      let (same, fresh) = answer-fresh t₁ x u₁ (t, target, user) (lock_user w₃).1 h₆ in
      subst
        (λ (y : EmailVerificationTransaction × Text × User).
          Authorized transaction_id c.id now (held c.id w) (held_twice c.id w) y.0 y.1 y.2)
        same
        (record {
          found = or_else-ok _ _ t₁ read_ok;
          asked = ground (arith, checked);
          active = ground (arith, checked);
          targeted = target-some t₁ t₁.target_email s w₂ x aimed;
          owner =
              subst (λ (y : World). get_user_by_id t₁.user_id (holding y.committed) ≡ ok u₁) same₃
                (or_else-ok _ _ u₁ user_ok);
          unverified = fresh;
        })

-- What a verification leaves of the user and of the transaction.
pub record Served (s : ChallengeServices) (transaction_id now : ℕ) (target : Text) (user : User)
    (d : Db) : Type 0 where
  pub verified : any (is_verified s user target now) d.users ≡ true
  pub closed : any (is_open transaction_id) d.email_verification_transactions ≡ false
  pub consumed : any (is_consumed_at transaction_id now) d.email_verification_transactions ≡ true

consume-Served :
    (s : ChallengeServices) (i cid now : ℕ) (target : Text) (user : User) (d d' : Db)
    → consume_challenge cid now d ≡ ok d'
    → Served s i now target user d
    → Served s i now target user d'
unfolding consume_challenge
consume-Served s i cid now target user d d' e h = record {
  verified = ground (arith, e, h.verified);
  closed = ground (arith, e, h.closed);
  consumed = ground (arith, e, h.consumed);
}

-- A required verification that succeeds was asked for by the transaction that the database has for
-- the challenge: it has the given identifier, is active and has a target, and the user that the
-- database has for it, whom it names, has not verified an address yet. In what is committed then,
-- there is a row of that user that is verified at the time of the call and has the target as its
-- address, or its own where that differs from the target in upper and lower case only; and the
-- transaction is there, consumed at that time, and no longer open.
pub complete_required_email_verification-Authorized :
    (s : ChallengeServices) (transaction_id cid now : ℕ) (code : Text) (c : Challenge) (w : World)
    → (complete_required_email_verification s transaction_id cid code now w).0 ≡ ok c
    → let d = (complete_required_email_verification s transaction_id cid code now w).1.committed in
      let w₁ = locked s w in
      (t : EmailVerificationTransaction) × (target : Text) × (user : User) × Authorized
        transaction_id cid now
        (held s transaction_id now cid w₁)
        (held_twice s transaction_id now cid w₁)
        t
        target
        user
      × Served s transaction_id now target user d
unfolding complete_required_email_verification
complete_required_email_verification-Authorized s transaction_id cid now code c w h =
    let w₁ = locked s w in
    let a =
      verify-Accepted s cid email_verification code now
        (authorize_verification s transaction_id now) (λ x. execute_verification s x now) c w h in
    let (t, target, user) = a.prepared in
    let found = authorize-Authorized s transaction_id now a.row w₁ t target user a.before_ok in
    let own : a.row.id ≡ cid = found-id cid (s.others w.committed) a.row a.found in
    let before = (authorize_verification s transaction_id now a.row w₁).1 in
    let done = execute-verified s t target user now before a.after_ok in
    let served : Served s t.id now target user a.last =
      consume-Served s t.id cid now target user _ a.last a.consumed
        (record { verified = done.0; closed = done.1; consumed = done.2 }) in
    (
      t,
      target,
      user,
      subst
          (λ i.
            Authorized transaction_id i now (held s transaction_id now i w₁)
              (held_twice s transaction_id now i w₁) t target user)
          own found,
      subst (λ (y : World). Served s transaction_id now target user y.committed) (sym a.left)
          (subst (λ i. Served s i now target user a.last) found.asked served),
    )

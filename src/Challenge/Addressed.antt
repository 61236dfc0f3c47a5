-- ===== src/Challenge/Addressed.antt =====
-- internal/challenge/email_verification.go: what a verification of an address leaves.
use authara.Prelude.{
  ℕ, ◌==◌, ◌≡◌, refl, ap, Option, none, some, Bool, true, false, ◌&&◌, ◌||◌, List, [], ◌∷◌, arith,
  any, count_if, Bool-cases, inl, inr,
}
use authara.Prelude.Text.{Text, text_eq, text_eq_refl}
use authara.Store.Rows.{User, user_updated}
use authara.Store.Pending.{EmailVerificationTransaction}
use authara.Store.Exec.{
  Db, World, Exec, Result, ok, Result-cases, updates, >>=-eq-ok, >>=-eq-both, ◌>>◌,
}
use authara.Store.Sessions.{update_where}
use authara.Store.Challenges.{
  canonical_email, update_user_email_verified_if_current, delete_allowed_email,
  ensure_allowed_email,
}
use authara.Store.Verifications.{
  is_open, consume_email_verification_transaction, mark_user_email_verified,
}
use authara.Store.Outbox.{publish}
use authara.Challenge.Services.{ChallengeServices, equal_fold}
use authara.Challenge.EmailVerification.{set_address, move_listed, execute_verification}

abbrev is_at : ℕ → Option ℕ → Bool
is_at now none = false
is_at now (some t) = t == now

-- The row of a user who has verified the target now.
abbrev pub is_verified : ChallengeServices → User → Text → ℕ → User → Bool
is_verified s user target now u =
    u.id == user.id
    && is_at now u.email_verified_at
    && (text_eq u.email (canonical_email s.lower target)
        || (equal_fold s user.email target && text_eq u.email (canonical_email s.lower user.email)))

any-updated :
    (p q : User → Bool) (f : User → User) (us : List User)
    → ((u : User) → p u ≡ true → q (f u) ≡ true)
    → any p us ≡ true
    → any q (update_where p f us) ≡ true
unfolding any
any-updated p q f [] h there = there
any-updated p q f (u ∷ us) h there = ground (arith, there, h u, any-updated p q f us h)

any-counted : (p : User → Bool) (us : List User) → count_if p us ≡ 1 → any p us ≡ true
unfolding any count_if
any-counted p [] h = ground (arith, h)
any-counted p (u ∷ us) h = ground (arith, h, any-counted p us)

-- The transaction was consumed then.
abbrev pub is_consumed_at : ℕ → ℕ → EmailVerificationTransaction → Bool
is_consumed_at id now t = t.id == id && is_at now t.consumed_at

any-consumed :
    (id now : ℕ) (ts : List EmailVerificationTransaction)
    → count_if (is_open id) ts ≡ 1
    → any
        (is_consumed_at id now)
        (update_where (is_open id) (λ t. record t { consumed_at = some now }) ts)
      ≡ true
unfolding any count_if
any-consumed id now [] one = ground (arith, one)
any-consumed id now (t ∷ ts) one = ground (arith, one, any-consumed id now ts)

none_open :
    (id at : ℕ) (ts : List EmailVerificationTransaction)
    → any (is_open id) (update_where (is_open id) (λ t. record t { consumed_at = some at }) ts)
      ≡ false
unfolding any
none_open id at [] = refl
none_open id at (t ∷ ts) = ground (arith, none_open id at ts)

abbrev owns : ChallengeServices → User → User → Bool
owns s user u = u.id == user.id && text_eq u.email (canonical_email s.lower user.email)

module _ (s : ChallengeServices) where
  mark-verified :
      (user : User) (target : Text) (now : ℕ) (d : Db)
      → equal_fold s user.email target ≡ true
      → (mark_user_email_verified s.lower user.id user.email now d).0 ≡ true
      → any
          (is_verified s user target now)
          (mark_user_email_verified s.lower user.id user.email now d).1.users
        ≡ true
  unfolding mark_user_email_verified
  mark-verified user target now d same marked =
      any-updated (owns s user) (is_verified s user target now)
        (λ u. record u { email_verified_at = some now }) d.users
        (λ u own. ground (arith, own, same))
        (any-counted (owns s user) d.users (ground (arith, marked)))

  change-verified :
      (user : User) (target : Text) (now : ℕ) (d d' : Db)
      → update_user_email_verified_if_current s.lower user.id user.email target now d
        ≡ ok (true, d')
      → any (is_verified s user target now) d'.users ≡ true
  unfolding update_user_email_verified_if_current
  change-verified user target now d d' changed = elim (Bool-cases (any (owns s user) d.users)) [
    | inl there ↦
        let f = λ (u : User). record u {
          email = canonical_email s.lower target;
          email_verified_at = some now;
        } in
        let after : any (is_verified s user target now) (update_where (owns s user) f d.users)
            ≡ true =
          any-updated (owns s user) (is_verified s user target now) f d.users
            (λ u own. ground (arith, own, text_eq_refl (canonical_email s.lower target))) there in
        ground (arith, there, changed, after)
    | inr missing ↦ ground (arith, missing, changed)
  ]

  -- The list of addresses is another table.
  listed-users :
      (old_email new_email : Text) (w : World)
      → (move_listed s old_email new_email w).1.db.users ≡ w.db.users
  unfolding delete_allowed_email ensure_allowed_email
  listed-users old_email new_email w = ground arith

  set-verified :
      (user : User) (target : Text) (now : ℕ) (w : World)
      → (set_address s user target now w).0 ≡ ok tt
      → any (is_verified s user target now) (set_address s user target now w).1.db.users ≡ true
  set-verified user target now w h = elim (Bool-cases (equal_fold s user.email target)) [
    | inl same ↦
        elim (Bool-cases (mark_user_email_verified s.lower user.id user.email now w.db).0) [
          | inl marked ↦
              ground (arith, same, marked, mark-verified user target now w.db same marked)
          | inr unmarked ↦ ground (arith, same, unmarked, h)
        ]
    | inr other ↦
        elim (Result-cases
          (update_user_email_verified_if_current s.lower user.id user.email target now w.db)) [
            | inr (e, failed) ↦ ground (arith, other, failed, h)
            | inl ((changed, d'), done) ↦ by_change changed d' other done
          ]
  ]
    where
      by_change :
          (changed : Bool) (d' : Db)
          → equal_fold s user.email target ≡ false
          → update_user_email_verified_if_current s.lower user.id user.email target now w.db
            ≡ ok (changed, d')
          → any (is_verified s user target now) (set_address s user target now w).1.db.users ≡ true
      by_change false d' other done = ground (arith, other, done, h)
      by_change true d' other done =
          let moved = listed-users user.email target (record w { db = d' }) in
          let there = change-verified user target now w.db d' done in
          ground (arith, other, done, moved, there)

  -- What follows the change of the address.
  abbrev closing : EmailVerificationTransaction → User → ℕ → Exec (Unit {0})
  closing t user now = do
    updates (consume_email_verification_transaction t.id now)
    publish (user_updated user.id)

  pub execute-verified :
      (t : EmailVerificationTransaction) (target : Text) (user : User) (now : ℕ) (w : World)
      → (execute_verification s (t, target, user) now w).0 ≡ ok tt
      → let d = (execute_verification s (t, target, user) now w).1.db in
        (any (is_verified s user target now) d.users ≡ true)
        × (any (is_open t.id) d.email_verification_transactions ≡ false)
        × (any (is_consumed_at t.id now) d.email_verification_transactions ≡ true)
  unfolding execute_verification consume_email_verification_transaction
  execute-verified t target user now w h =
      let set = set_address s user target now in
      let (_, e, h₀) = >>=-eq-ok set _ w h in
      let w₁ = (set w).1 in
      let there = set-verified user target now w e in
      let left : (execute_verification s (t, target, user) now w).1.db
          ≡ (closing t user now w₁).1.db =
        ap (λ (y : Result (Unit {0}) × World). y.1.db)
          (>>=-eq-both set (λ _. closing t user now) w tt e) in
      elim (Bool-cases (count_if (is_open t.id) w₁.db.email_verification_transactions == 1)) [
        | inl one ↦ (
          ground (arith, left, one, there),
          ground (arith, left, one, none_open t.id now w₁.db.email_verification_transactions),
          ground (
            arith,
            left,
            one,
            any-consumed t.id now w₁.db.email_verification_transactions (ground (arith, one)),
          ),
        )
        | inr refused ↦ ground (arith, h₀, refused)
      ]

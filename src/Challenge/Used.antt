-- ===== src/Challenge/Used.antt =====
-- internal/challenge/service.go: a challenge that is used up.
use authara.Prelude.{
  ℕ, ◌==◌, ◌≡◌, inl, inr, some, true, false, List, [], ◌∷◌, arith, find?, any, Bool-cases,
  if◌then◌else◌,
}
use authara.Store.Pending.{Challenge, is_consumed}
use authara.Store.Exec.{Db, ok}
use authara.Store.Sessions.{update_where}
use authara.Store.Challenges.{get_challenge_by_id, consume_challenge, to_consume}
use authara.Challenge.Services.{validate_challenge_for_verify}

-- The challenge was used up.
abbrev pub IsUsed : ℕ → Db → Type 0
IsUsed cid d = (c : Challenge) × (get_challenge_by_id cid d ≡ ok c) × (is_consumed c ≡ true)

any-consumed :
    (cid now : ℕ) (cs : List Challenge)
    → any (to_consume cid) cs ≡ true
    → (c : Challenge) × (find?
          (λ (x : Challenge). x.id == cid)
          (update_where
            (to_consume cid)
            (λ (x : Challenge). record x { consumed_at = some now })
            cs)
        ≡ some c)
      × (is_consumed c ≡ true)
unfolding find? any
any-consumed cid now [] h = cc
any-consumed cid now (x ∷ xs) h = elim (Bool-cases (x.id == cid)) [
  | inl own ↦ (
    if to_consume cid x then record x { consumed_at = some now } else x,
    ground (arith, own),
    ground (arith, own),
  )
  | inr other ↦
      let (c, found, used) = any-consumed cid now xs (ground (arith, h, other)) in
      (c, ground (arith, found, other), used)
]

pub consume-IsUsed : (cid now : ℕ) (d d' : Db) → consume_challenge cid now d ≡ ok d' → IsUsed cid d'
unfolding consume_challenge get_challenge_by_id
consume-IsUsed cid now d d' h = elim (Bool-cases (any (to_consume cid) d.challenges)) [
  | inr none_left ↦ ground (arith, h, none_left)
  | inl some_left ↦
      let (c, found, used) = any-consumed cid now d.challenges some_left in
      (c, ground (arith, h, found, some_left), used)
]

-- A row that passes was not used.
pub valid-unused :
    (c : Challenge) (now : ℕ) → validate_challenge_for_verify c now ≡ ok tt → is_consumed c ≡ false
unfolding validate_challenge_for_verify
valid-unused c now v = ground (arith, v)

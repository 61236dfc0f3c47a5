-- ===== src/Challenge/Rows.antt =====
-- internal/store/challange.go: the row of a challenge under the statements.
use authara.Prelude.{
  ℕ, ◌+◌, ◌==◌, ◌≤◌, ◌≡◌, refl, subst, some, Bool, true, List, [], ◌∷◌, ◌++◌, arith, find?,
  find?-holds, inl, inr, Option-cases, if◌then◌else◌,
}
use authara.Store.Pending.{Challenge, has_attempts_remaining}
use authara.Store.Exec.{Db, ok}
use authara.Store.Sessions.{update_where}
use authara.Store.Challenges.{
  create_challenge, get_challenge_by_id, consume_challenge, increment_challenge_attempt_count,
  increment_challenge_resend_count, to_consume, to_resend,
}

-- The row of the id is there, allows so many attempts, of which at least so many were made.
pub record Holds (id made allowed : ℕ) (d : Db) : Type 0 where
  pub row : Challenge
  pub found : get_challenge_by_id id d ≡ ok row
  pub counted : made ≤ row.attempt_count
  pub within : row.attempt_count ≤ row.max_attempts
  pub allowance : row.max_attempts ≡ allowed

pub find?-update :
    (id : ℕ) (p : Challenge → Bool) (f : Challenge → Challenge) (cs : List Challenge)
    (c : Challenge)
    → ((x : Challenge) → (f x).id ≡ x.id)
    → find? (λ (x : Challenge). x.id == id) cs ≡ some c
    → find? (λ (x : Challenge). x.id == id) (update_where p f cs) ≡ some (if p c then f c else c)
unfolding find?
find?-update id p f [] c same found = cc
find?-update id p f (x ∷ xs) c same found =
    ground (arith, same x, found, find?-update id p f xs c same)

find?-append :
    (id : ℕ) (cs ds : List Challenge) (c : Challenge)
    → find? (λ (x : Challenge). x.id == id) cs ≡ some c
    → find? (λ (x : Challenge). x.id == id) (cs ++ ds) ≡ some c
unfolding find?
find?-append id [] ds c found = cc
find?-append id (x ∷ xs) ds c found = ground (arith, find?-append id xs ds c)

pub found-id : (id : ℕ) (d : Db) (c : Challenge) → get_challenge_by_id id d ≡ ok c → c.id ≡ id
unfolding get_challenge_by_id
found-id id d c found = elim (Option-cases (find? (λ (x : Challenge). x.id == id) d.challenges)) [
  | inl missing ↦ ground (arith, found, missing)
  | inr (x, there) ↦
      ground (
        arith,
        found,
        there,
        find?-holds (λ (x : Challenge). x.id == id) d.challenges {a = x} there,
      )
]

get-appended :
    (id n : ℕ) (d : Db) (cs : List Challenge) (c : Challenge)
    → get_challenge_by_id id d ≡ ok c
    → get_challenge_by_id id (record d { challenges = d.challenges ++ cs; next_challenge_id = n })
      ≡ ok c
unfolding get_challenge_by_id
get-appended id n d cs c h = ground (arith, h, find?-append id d.challenges cs c)

-- A statement that leaves the table alone.
pub leaves_challenges :
    {id made allowed : ℕ} (d d' : Db)
    → d'.challenges ≡ d.challenges
    → Holds id made allowed d
    → Holds id made allowed d'
unfolding get_challenge_by_id
leaves_challenges d d' e h = record {
  row = h.row;
  found = ground (arith, e, h.found);
  counted = h.counted;
  within = h.within;
  allowance = h.allowance;
}

module _ {id made allowed : ℕ} where
  pub create-Holds :
      (lower : ℕ → ℕ) (c : Challenge) (d : Db)
      → Holds id made allowed d
      → Holds id made allowed (create_challenge lower c d).1
  unfolding create_challenge
  create-Holds lower c d h = record {
    row = h.row;
    found = get-appended id _ d _ h.row h.found;
    counted = h.counted;
    within = h.within;
    allowance = h.allowance;
  }

  pub consume-Holds :
      (i now : ℕ) (d d' : Db)
      → consume_challenge i now d ≡ ok d'
      → Holds id made allowed d
      → Holds id made allowed d'
  unfolding consume_challenge get_challenge_by_id
  consume-Holds i now d d' e h =
      let f = λ (c : Challenge). record c { consumed_at = some now } in
      record {
        row = if to_consume i h.row then f h.row else h.row;
        found =
            ground
              (arith, e, h.found, find?-update id (to_consume i) f d.challenges h.row (λ x. refl));
        counted = ground (arith, h.counted);
        within = ground (arith, h.within);
        allowance = ground (arith, h.allowance);
      }

  pub resend-Holds :
      (i now : ℕ) (d : Db)
      → Holds id made allowed d
      → Holds id made allowed (increment_challenge_resend_count i now d).1
  unfolding increment_challenge_resend_count get_challenge_by_id
  resend-Holds i now d h =
      let f = λ (c : Challenge). record c {
        resend_count = c.resend_count + 1;
        last_sent_at = some now;
      } in
      record {
        row = if to_resend i h.row then f h.row else h.row;
        found =
            ground (arith, h.found, find?-update id (to_resend i) f d.challenges h.row (λ x. refl));
        counted = ground (arith, h.counted);
        within = ground (arith, h.within);
        allowance = ground (arith, h.allowance);
      }

  -- Where the row has an attempt left, that attempt is made.
  pub increment-Holds :
      (i : ℕ) (c : Challenge) (d : Db)
      → get_challenge_by_id i d ≡ ok c
      → has_attempts_remaining c ≡ true
      → Holds id made allowed d
      → Holds id (made + (if i == id then 1 else 0)) allowed (increment_challenge_attempt_count i d)
  unfolding increment_challenge_attempt_count get_challenge_by_id
  increment-Holds i c d mine left h =
      let f = λ (x : Challenge). record x { attempt_count = x.attempt_count + 1 } in
      let p = λ (x : Challenge). x.id == i in
      let own = found-id id d h.row h.found in
      let same : i ≡ id → c ≡ h.row = λ e. ground (arith, mine, h.found, e) in
      record {
        row = if p h.row then f h.row else h.row;
        found = ground (arith, h.found, find?-update id p f d.challenges h.row (λ x. refl));
        counted = ground (arith, h.counted, own);
        within = ground (arith, h.within, own, left, mine, h.found);
        allowance = ground (arith, h.allowance);
      }

  pub increment-own :
      (c : Challenge) (d : Db)
      → get_challenge_by_id id d ≡ ok c
      → has_attempts_remaining c ≡ true
      → Holds id made allowed d
      → Holds id (made + 1) allowed (increment_challenge_attempt_count id d)
  increment-own c d mine left h =
      let here : made + (if id == id then 1 else 0) ≡ made + 1 = ground arith in
      subst (λ n. Holds id n allowed (increment_challenge_attempt_count id d)) here
        (increment-Holds id c d mine left h)

  pub no_more : (d : Db) → Holds id made allowed d → Holds id (made + 0) allowed d
  no_more d h = let same : made ≡ made + 0 = omega arith in subst (λ n. Holds id n allowed d) same h

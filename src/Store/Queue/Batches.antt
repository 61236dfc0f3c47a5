-- ===== src/Store/Queue/Batches.antt =====
-- Batches of the rows of a queue that pass a test, as they are taken one after the other.
use authara.Prelude.{
  ℕ, ◌+◌, ◌≤◌, ◌≡◌, refl, subst, Bool, true, false, ◌&&◌, not, List, [], ◌∷◌, arith, length, any,
  count_if, ◌==◌, if◌then◌else◌, Bool-cases, inl, inr, ltb,
}
use authara.Store.Queue.{first, is_among}
use authara.Store.Sessions.{update_where}
use authara.Store.Queue.Counts.{count_if-first, length-first}

module _ {A : Type 0} (id : A → ℕ) where
  -- A primary key.
  abbrev pub IsKey : List A → Type 0
  IsKey rows = (i : ℕ) → count_if (λ (x : A). id x == i) rows ≤ 1

  -- No row of the batch is there twice.
  count_if-split :
      (p q : A → Bool) (xs : List A)
      → count_if (λ x. p x && q x) xs + count_if (λ x. not (p x) && q x) xs ≡ count_if q xs
  unfolding count_if
  count_if-split p q [] = refl
  count_if-split p q (x ∷ xs) = ground (arith, count_if-split p q xs)

  among_once :
      (b : A) (batch rows : List A)
      → is_among id batch b ≡ false
      → count_if (is_among id (b ∷ batch)) rows
        ≡ count_if (λ (x : A). id x == id b) rows + count_if (is_among id batch) rows
  unfolding count_if any
  among_once b batch [] h = refl
  among_once b batch (x ∷ xs) h = elim (Bool-cases (id b == id x)) [
    | inl same ↦
        let other : is_among id batch x ≡ false =
          subst (λ i. any (λ (c : A). id c == i) batch ≡ false) (ground (arith, same)) h in
        ground (arith, other, same, among_once b batch xs h)
    | inr different ↦ ground (arith, different, among_once b batch xs h)
  ]

  none_counted : (p : A → Bool) (xs : List A) → count_if p xs ≡ 0 → any p xs ≡ false
  unfolding any count_if
  none_counted p [] h = refl
  none_counted p (x ∷ xs) h = ground (arith, none_counted p xs)

  among_tail :
      (b : A) (batch : List A)
      → count_if (λ (x : A). id x == id b) (b ∷ batch) ≤ 1
      → is_among id batch b ≡ false
  unfolding count_if
  among_tail b batch h = none_counted (λ (x : A). id x == id b) batch (ground arith)

  found_here :
      (b : A) (batch rows : List A)
      → count_if (λ (x : A). id x == id b) (b ∷ batch) ≤ count_if (λ (x : A). id x == id b) rows
      → 1 ≤ count_if (λ (x : A). id x == id b) rows
  unfolding count_if
  found_here b batch rows h = ground (arith, h)

  -- Of a batch of rows that are there, each is found once.
  count_if-among :
      (batch rows : List A)
      → IsKey rows
      → ((i : ℕ) → count_if (λ (x : A). id x == i) batch ≤ count_if (λ (x : A). id x == i) rows)
      → count_if (is_among id batch) rows ≡ length batch
  unfolding any count_if
  count_if-among [] [] key there = refl
  count_if-among [] (x ∷ xs) key there =
      count_if-among [] xs (λ i. ground (arith, key i)) (λ i. omega arith)
  count_if-among (b ∷ batch) rows key there =
      let here = there (id b) in
      let apart = among_tail b batch (omega (arith, here, key (id b))) in
      let rest = count_if-among batch rows key (λ i. ground (arith, there i)) in
      omega (arith, among_once b batch rows apart, rest, found_here b batch rows here, key (id b))

  any_counted : (p : A → Bool) (xs : List A) → any p xs ≡ true → 1 ≤ count_if p xs
  unfolding any count_if
  any_counted p [] h = cc
  any_counted p (x ∷ xs) h = ground (arith, any_counted p xs)

  none_fails :
      (p : A → Bool) (batch xs : List A)
      → ((i : ℕ)
          → any (λ (b : A). id b == i) batch ≡ true
          → count_if (λ (x : A). not (p x) && (id x == i)) xs ≡ 0)
      → count_if (λ x. not (p x) && is_among id batch x) xs ≡ 0
  unfolding count_if
  none_fails p batch [] h = refl
  none_fails p batch (x ∷ xs) h =
      let rest = none_fails p batch xs (λ i there. ground (arith, h i there)) in
      elim (Bool-cases (is_among id batch x)) [
        | inl there ↦ ground (arith, h (id x) there, rest, there)
        | inr other ↦ ground (arith, rest, other)
      ]

  -- What is found by the keys of a batch passes the test that the batch was taken with.
  first-passes :
      (before : A → A → Bool) (n : ℕ) (p : A → Bool) (rows : List A)
      → IsKey rows
      → count_if (λ x. not (p x) && is_among id (first before n p rows) x) rows ≡ 0
  first-passes before n p rows key = none_fails p (first before n p rows) rows (λ i there.
      let found = any_counted (λ (b : A). id b == i) (first before n p rows) there in
      omega (
        arith,
        key i,
        found,
        count_if-first before n p (λ (x : A). id x == i) rows,
        count_if-split p (λ (x : A). id x == i) rows,
      ))

  count_if-updated :
      (p q : A → Bool) (f : A → A) (xs : List A)
      → ((x : A) → p (f x) ≡ false)
      → count_if p (update_where q f xs) ≡ count_if (λ x. not (q x) && p x) xs
  unfolding count_if
  count_if-updated p q f [] h = refl
  count_if-updated p q f (x ∷ xs) h = ground (arith, h x, count_if-updated p q f xs h)

  count_if-swapped :
      (p q : A → Bool) (xs : List A) → count_if (λ x. p x && q x) xs ≡ count_if (λ x. q x && p x) xs
  unfolding count_if
  count_if-swapped p q [] = refl
  count_if-swapped p q (x ∷ xs) = ground (arith, count_if-swapped p q xs)

  -- A batch that is changed no longer passes, and it is as long as what is found by its keys.
  pub first-leaves :
      (before : A → A → Bool) (n : ℕ) (p : A → Bool) (f : A → A) (rows : List A)
      → IsKey rows
      → ((x : A) → p (f x) ≡ false)
      → let found = is_among id (first before n p rows) in
        let passing = count_if p rows in
        (count_if found rows ≡ (if ltb n passing then n else passing))
        × (count_if p (update_where found f rows) + count_if found rows ≡ passing)
  first-leaves before n p f rows key h =
      let batch = first before n p rows in
      let within : (i : ℕ)
          → count_if (λ (x : A). id x == i) batch ≤ count_if (λ (x : A). id x == i) rows =
        λ i. omega (
          arith,
          count_if-first before n p (λ (x : A). id x == i) rows,
          count_if-split p (λ (x : A). id x == i) rows,
        ) in
      let size = count_if-among batch rows key within in
      (
        omega (arith, size, length-first before n p rows),
        omega (
          arith,
          count_if-updated p (is_among id batch) f rows h,
          first-passes before n p rows key,
          count_if-split (is_among id batch) p rows,
          count_if-split p (is_among id batch) rows,
          count_if-swapped p (is_among id batch) rows,
        ),
      )

  same_keys :
      (q : A → Bool) (f : A → A) (rows : List A)
      → ((x : A) → id (f x) ≡ id x)
      → (i : ℕ)
      → count_if (λ (x : A). id x == i) (update_where q f rows)
        ≡ count_if (λ (x : A). id x == i) rows
  unfolding count_if
  same_keys q f [] h i = refl
  same_keys q f (x ∷ xs) h i = ground (arith, h x, same_keys q f xs h i)

  -- Changes that leave the keys alone leave them keys.
  pub update-IsKey :
      (q : A → Bool) (f : A → A) (rows : List A)
      → ((x : A) → id (f x) ≡ id x)
      → IsKey rows
      → IsKey (update_where q f rows)
  update-IsKey q f rows h key i = omega (arith, key i, same_keys q f rows h i)

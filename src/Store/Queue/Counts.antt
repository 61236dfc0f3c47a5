-- ===== src/Store/Queue/Counts.antt =====
-- How many rows of a batch pass a test.
use authara.Prelude.{
  ℕ, ◌-◌, ◌≤◌, ◌≡◌, refl, subst, Bool, true, ◌&&◌, List, [], ◌∷◌, arith, length, filter, count_if,
  if◌then◌else◌, ltb,
}
use authara.Keyset.{take}
use authara.Store.Queue.{insert_by, sort_by, first}

module _ {A : Type 0} where
  count_if-insert :
      (before : A → A → Bool) (p : A → Bool) (x : A) (xs : List A)
      → count_if p (insert_by before x xs) ≡ count_if p (x ∷ xs)
  unfolding insert_by count_if
  count_if-insert before p x [] = refl
  count_if-insert before p x (y ∷ ys) = ground (arith, count_if-insert before p x ys)

  count_if-sort :
      (before : A → A → Bool) (p : A → Bool) (xs : List A)
      → count_if p (sort_by before xs) ≡ count_if p xs
  unfolding sort_by count_if
  count_if-sort before p [] = refl
  count_if-sort before p (x ∷ xs) =
      ground (arith, count_if-insert before p x (sort_by before xs), count_if-sort before p xs)

  count_if-take : (n : ℕ) (p : A → Bool) (xs : List A) → count_if p (take n xs) ≤ count_if p xs
  unfolding take count_if
  count_if-take n p [] = omega arith
  count_if-take n p (x ∷ xs) = ground (arith, count_if-take (n - 1) p xs)

  count_if-true : (xs : List A) → count_if (λ x. true) xs ≡ length xs
  unfolding count_if
  count_if-true [] = refl
  count_if-true (x ∷ xs) = ground (arith, count_if-true xs)

  count_if-filter :
      (p q : A → Bool) (xs : List A) → count_if q (filter p xs) ≡ count_if (λ x. p x && q x) xs
  unfolding filter count_if
  count_if-filter p q [] = refl
  count_if-filter p q (x ∷ xs) = ground (arith, count_if-filter p q xs)

  length-filter : (p : A → Bool) (xs : List A) → length (filter p xs) ≡ count_if p xs
  unfolding filter count_if
  length-filter p [] = refl
  length-filter p (x ∷ xs) = ground (arith, length-filter p xs)

  length-take :
      (n : ℕ) (xs : List A) → (if ltb n (length xs) then n else length xs) ≡ length (take n xs)
  unfolding take
  length-take n [] = ground arith
  length-take n (x ∷ xs) = ground (arith, length-take (n - 1) xs)

  pub count_if-first :
      (before : A → A → Bool) (n : ℕ) (p q : A → Bool) (rows : List A)
      → count_if q (first before n p rows) ≤ count_if (λ x. p x && q x) rows
  count_if-first before n p q rows = omega (
    arith,
    count_if-take n q (sort_by before (filter p rows)),
    count_if-sort before q (filter p rows),
    count_if-filter p q rows,
  )

  -- A batch has as many rows as there are, up to its limit.
  pub length-first :
      (before : A → A → Bool) (n : ℕ) (p : A → Bool) (rows : List A)
      → (if ltb n (count_if p rows) then n else count_if p rows) ≡ length (first before n p rows)
  length-first before n p rows =
      let sorted = sort_by before (filter p rows) in
      let all : length sorted ≡ count_if p rows = omega (
        arith,
        count_if-true sorted,
        count_if-sort before (λ x. true) (filter p rows),
        count_if-true (filter p rows),
        length-filter p rows,
      ) in
      subst (λ (m : ℕ). (if ltb n m then n else m) ≡ length (take n sorted)) all
        (length-take n sorted)

-- ===== src/Store/Queue/Selected.antt =====
-- What holds of the rows that a batch is taken from holds of the batch, whose rows pass.
use authara.Prelude.{
  ℕ, ◌-◌, Bool, true, false, ◌≡◌, List, [], ◌∷◌, filter, All, All-filter, if◌then◌else◌, ◌==◌,
}
use authara.Keyset.{take}
use authara.Store.Queue.{insert_by, sort_by, first}

module _ {A : Type 0} (P : A → Type 0) where
  All-insert :
      (before : A → A → Bool) (x : A) (xs : List A) → P x → All P xs → All P (insert_by before x xs)
  unfolding insert_by
  All-insert before x [] hx h = (hx, h)
  All-insert before x (y ∷ ys) hx (hy, h) =
      placed (before x y) _ _ (hx, (hy, h)) (hy, All-insert before x ys hx h)
    where
      placed : (b : Bool) (us vs : List A) → All P us → All P vs → All P (if b then us else vs)
      placed true us vs ha hb = ha
      placed false us vs ha hb = hb

  All-sort : (before : A → A → Bool) (xs : List A) → All P xs → All P (sort_by before xs)
  unfolding sort_by
  All-sort before [] h = h
  All-sort before (x ∷ xs) (hx, h) =
      All-insert before x (sort_by before xs) hx (All-sort before xs h)

  All-take : (n : ℕ) (xs : List A) → All P xs → All P (take n xs)
  unfolding take
  All-take n [] h = h
  All-take n (x ∷ xs) (hx, h) = taken (n == 0) _ (hx, All-take (n - 1) xs h)
    where
      taken : (b : Bool) (us : List A) → All P us → All P (if b then [] else us)
      taken true us h = tt
      taken false us h = h

module _ {A : Type 0} where
  pub All-first :
      (P Q : A → Type 0) (before : A → A → Bool) (n : ℕ) (p : A → Bool) (rows : List A)
      → ((x : A) → p x ≡ true → P x → Q x)
      → All P rows
      → All Q (first before n p rows)
  All-first P Q before n p rows f h =
      All-take Q n (sort_by before (filter p rows))
        (All-sort Q before (filter p rows) (All-filter P Q p rows f h))

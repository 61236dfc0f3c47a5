-- ===== src/Store/Queue.antt =====
-- What the queues of internal/store share: rows in an order, a batch of them, and statements on it.
pub mod Counts
pub mod Batches
pub mod Selected
use authara.Prelude.{ℕ, Bool, List, [], ◌∷◌, any, filter, count_if, ◌==◌, if◌then◌else◌}
use authara.Keyset.{take}
use authara.Store.Exec.{Result, ok, err, Error}
use authara.Store.Sessions.{update_where}

-- `ReapResult`.
pub record ReapResult : Type 0 where
  pub retried : ℕ
  pub failed : ℕ

module _ {A : Type 0} where
  -- ORDER BY
  unfoldable pub insert_by : (A → A → Bool) → A → List A → List A
  insert_by before x [] = x ∷ []
  insert_by before x (y ∷ ys) =
      let rest = insert_by before x ys in if before x y then x ∷ y ∷ ys else y ∷ rest

  unfoldable pub sort_by : (A → A → Bool) → List A → List A
  unfolding insert_by
  sort_by before [] = []
  sort_by before (x ∷ xs) = insert_by before x (sort_by before xs)

  -- WHERE … ORDER BY … LIMIT
  abbrev pub first : (A → A → Bool) → ℕ → (A → Bool) → List A → List A
  first before limit p rows = take limit (sort_by before (filter p rows))

  -- USING batch WHERE row.id = batch.id
  abbrev pub is_among : (A → ℕ) → List A → A → Bool
  is_among id batch row = any (λ b. id b == id row) batch

  -- UPDATE … WHERE, with an error unless one row was affected.
  abbrev pub transition : Error → (A → Bool) → (A → A) → List A → Result (Unit {0}) × List A
  transition lost p f rows =
      (if count_if p rows == 1 then ok tt else err lost, update_where p f rows)

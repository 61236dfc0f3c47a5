-- ===== src/Challenge/Delays.antt =====
-- internal/challenge/worker.go: how long an e-mail waits for its next attempt.
use authara.Prelude.{ℕ, zero, suc, ◌+◌, ◌-◌, ◌*◌, ◌/◌, ◌^◌, ◌≤◌, ◌≡◌, arith, ltb, if◌then◌else◌}
use native.Mathlib.Numerals.{unary_clauses}
use authara.Challenge.Worker.{doubled, email_retry_delay}

abbrev min : ℕ → ℕ → ℕ
min a b = if ltb a b then a else b

shift : (k a : ℕ) → a * 2 ^ (suc k) ≡ (a * 2) * 2 ^ k
shift k a = simp unary_clauses (omega arith)

grows : (k a : ℕ) → a ≤ a * 2 ^ k
grows zero a = omega arith
grows (suc k) a = omega (arith, shift k a, grows k (a * 2))

min-doubled : (max k a : ℕ) → min max (doubled max k a) ≡ min max (a * 2 ^ k)
unfolding doubled
min-doubled max zero a = ground arith
min-doubled max (suc k) a = ground (arith, shift k a, grows k (a * 2), min-doubled max k (a * 2))

half_and_part :
    (m n : ℕ) (part : ℕ → ℕ)
    → ((k : ℕ) → part k ≤ k)
    → m ≡ n
    → (n / 2 ≤ m / 2 + part (m - m / 2)) × (m / 2 + part (m - m / 2) ≤ n)
half_and_part m n part within same =
    let taken = within (m - m / 2) in (omega (arith, same), omega (arith, same, taken))

-- The wait before another attempt of an e-mail is at least half of, and at most, the base delay
-- doubled for each attempt after the first one, or the longest delay if that is less: for a
-- random part that takes no more than it is given.
pub email_retry_delay_bounds :
    (attempt base_delay max_delay : ℕ) (part : ℕ → ℕ)
    → ((n : ℕ) → part n ≤ n)
    → let doubling = base_delay * 2 ^ (attempt - 1) in
      let nominal = if ltb max_delay doubling then max_delay else doubling in
      (nominal / 2 ≤ email_retry_delay attempt base_delay max_delay part)
      × (email_retry_delay attempt base_delay max_delay part ≤ nominal)
unfolding email_retry_delay
email_retry_delay_bounds attempt base_delay max_delay part within =
    half_and_part _ _ part within (min-doubled max_delay (attempt - 1) base_delay)

-- ===== src/RateLimiter/Memory/Budget.antt =====
-- internal/ratelimiter/memory.go: within one window, the attempts that are let through.
use authara.Prelude.{
  ℕ, ◌+◌, ◌*◌, ◌≤◌, ◌<◌, ◌≡◌, inl, inr, some, ◌&&◌, List, [], ◌∷◌, arith, length, if◌then◌else◌,
  Bool-cases,
}
use authara.Prelude.Text.{Text}
use authara.RateLimiter.Config.{LimiterConfig}
use authara.RateLimiter.Table.{Counter}
use authara.RateLimiter.Memory.{InMemoryLimiter}
use authara.RateLimiter.Memory.Maps.{Slot, total_entries}
use authara.RateLimiter.Memory.Access.{held, bump}
use authara.RateLimiter.Memory.Charges.{is_allowed}
use authara.RateLimiter.Memory.Attempts.{Attempt, attempt, touches, limit_of, attempt-Step}

-- A history of attempts with their times, and how many of them a key of a table was charged for.
module _ (lower : ℕ → ℕ) (cfg : LimiterConfig ℕ) where
  pub run : List (ℕ × Attempt) → InMemoryLimiter → InMemoryLimiter
  run [] l = l
  run ((now, a) ∷ rest) l = run rest (attempt lower cfg a now l).0

  pub admitted : Slot → Text → List (ℕ × Attempt) → InMemoryLimiter → ℕ
  admitted s j [] l = 0
  admitted s j ((now, a) ∷ rest) l =
      let r = attempt lower cfg a now l in
      let n = admitted s j rest r.0 in if is_allowed r.1 && touches lower s j a then n + 1 else n

-- All attempts come before a time.
abbrev pub AllBefore : ℕ → List (ℕ × Attempt) → Type 0
AllBefore t [] = Unit
AllBefore t ((now, a) ∷ rest) = (now < t) × AllBefore t rest

module _ (lower : ℕ → ℕ) (cfg : LimiterConfig ℕ) (s : Slot) (j : Text) where
  -- Over any history of attempts within the window of a counter, where there is room for the
  -- entries that the attempts may add, the counter grows by exactly the number of attempts under
  -- its key that are let through, and stays within the limit if it was.
  pub budget_exact :
      (calls : List (ℕ × Attempt)) (l : InMemoryLimiter) (c : Counter)
      → held s j l ≡ some c
      → AllBefore c.reset calls
      → total_entries l.tables + 2 * length calls ≤ cfg.max_entries
      → c.count ≤ limit_of cfg s
      → (held s j (run lower cfg calls l)
          ≡ some (record c { count = c.count + admitted lower cfg s j calls l }))
        × (c.count + admitted lower cfg s j calls l ≤ limit_of cfg s)
  unfolding run admitted
  budget_exact [] l c e before room bound = (ground arith, omega arith)
  budget_exact ((now, a) ∷ rest) l c e before room bound =
      let r = attempt lower cfg a now l in
      let st = attempt-Step lower cfg s j c now l a e before.0 (omega arith) in
      elim (Bool-cases (is_allowed r.1 && touches lower s j a)) [
        | inl charged ↦
            let (p, q) =
              budget_exact rest r.0 (bump c) (rw charged at st.kept) before.1
                (omega (arith, st.growth)) (ground (arith, st.within)) in
            rw charged (ground (arith, p), omega (arith, q))
        | inr free ↦
            let (p, q) =
              budget_exact rest r.0 c (rw free at st.kept) before.1 (omega (arith, st.growth))
                bound in
            rw free (p, q)
      ]

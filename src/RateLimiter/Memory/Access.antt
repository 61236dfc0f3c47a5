-- ===== src/RateLimiter/Memory/Access.antt =====
-- internal/ratelimiter/memory.go: what one access of the limiter does to a counter that is within
-- its window.
use authara.Prelude.{
  ℕ, ◌+◌, ◌≤◌, ◌<◌, ◌≡◌, refl, sym, ap, ◌≢◌, Option, some, Bool, false, arith, if◌then◌else◌,
}
use authara.Prelude.Text.{Text, text_eq, text_eq_iff, text_eq_refl}
use authara.RateLimiter.Table.{Counter, Table, lookup, sweep, get_counter, increment}
use authara.RateLimiter.Table.Laws.{
  lookup-sweep, length-sweep-le, get_counter_live, lookup-get_counter, lookup-increment,
  length-increment, length-get_counter,
}
use authara.RateLimiter.Memory.{InMemoryLimiter, tidy, get_slot_counter, charge}
use authara.RateLimiter.Memory.Maps.{
  Slot, Tables, get, put, sweep_expired, total_entries, enforce_max_entries,
}
use authara.RateLimiter.Memory.Eviction.{get-put_self, total-put}
use authara.RateLimiter.Memory.Apart.{get-put_ne}

pub Slot-discrete : Discrete Slot
Slot-discrete = hlevel

-- The counter that a table holds under a key.
abbrev pub held : Slot → Text → InMemoryLimiter → Option Counter
held s k l = lookup k (get s l.tables)

get-sweep_expired :
    (s : Slot) (now : ℕ) (t : Tables) → get s (sweep_expired now t) ≡ sweep now (get s t)
unfolding get sweep_expired
get-sweep_expired s now t = ground arith

total-sweep_expired-le :
    (now : ℕ) (t : Tables) → total_entries (sweep_expired now t) ≤ total_entries t
unfolding total_entries sweep_expired
total-sweep_expired-le now t = omega (arith, length-sweep-le now)

enforce_within :
    (max_entries : ℕ) (t : Tables)
    → total_entries t ≤ max_entries
    → enforce_max_entries max_entries t ≡ t
unfolding enforce_max_entries
enforce_within max_entries t h = ground arith

module _ (now cleanup_every max_entries : ℕ) (l : InMemoryLimiter) where
  -- With room for its entries the limiter forgets no counter that is within its window.
  pub held-tidy :
      (s : Slot) (k : Text) (c : Counter)
      → held s k l ≡ some c
      → now < c.reset
      → total_entries l.tables ≤ max_entries
      → held s k (tidy now cleanup_every max_entries l) ≡ some c
  unfolding tidy
  held-tidy s k c e h room = ground (
    arith,
    enforce_within max_entries (sweep_expired now l.tables),
    total-sweep_expired-le now l.tables,
    get-sweep_expired s now l.tables,
    lookup-sweep k now c (get s l.tables),
  )

  pub total-tidy-le :
      total_entries l.tables ≤ max_entries
      → total_entries (tidy now cleanup_every max_entries l).tables ≤ total_entries l.tables
  unfolding tidy
  total-tidy-le room = ground (
    arith,
    enforce_within max_entries (sweep_expired now l.tables),
    total-sweep_expired-le now l.tables,
  )

-- A write through one reference, as a lookup through another sees it.
lookup-put :
    (s s' : Slot) (m : Table) (t : Tables) (j : Text) {o : Option Counter}
    → (s ≡ s' → lookup j m ≡ o)
    → (s ≢ s' → lookup j (get s t) ≡ o)
    → lookup j (get s (put s' m t)) ≡ o
lookup-put s s' m t j same other = elim (Slot-discrete s s') [
  | yes e ↦ rw e (rw get-put_self (same e))
  | no n ↦ rw (get-put_ne s s' m t n) (other n)
]

module _ (s s' : Slot) (k j : Text) (now window : ℕ) (l : InMemoryLimiter) where
  -- Reading a counter, whichever it is, leaves those within their windows.
  pub held-get_slot_counter_live :
      (c : Counter)
      → held s j l ≡ some c
      → now < c.reset
      → held s j (get_slot_counter s' k now window l).0 ≡ some c
  unfolding get_slot_counter
  held-get_slot_counter_live c e h =
      lookup-put s s' _ l.tables j
        (λ p. ground (
          arith,
          lookup-get_counter (get s' l.tables) k j now window,
          text_eq_iff k j,
          get_counter_live (get s' l.tables) k now window c,
          ap (λ (x : Slot). lookup j (get x l.tables)) p,
        ))
        (λ _. e)

module _ (s : Slot) (k : Text) (now window : ℕ) (l : InMemoryLimiter) where
  -- The counter that is read is the one that the table then holds.
  pub held-get_slot_counter :
      held s k (get_slot_counter s k now window l).0 ≡ some (get_slot_counter s k now window l).1
  unfolding get_slot_counter
  held-get_slot_counter =
      rw get-put_self
        (rw (lookup-get_counter (get s l.tables) k k now window) (rw text_eq_refl refl))

  pub get_slot_counter_live :
      (c : Counter)
      → held s k l ≡ some c
      → now < c.reset
      → (get_slot_counter s k now window l).1 ≡ c
  unfolding get_slot_counter
  get_slot_counter_live c e h =
      ap (λ (r : Table × Counter). r.1) (get_counter_live _ k now window c e h)

  pub total-get_slot_counter-le :
      total_entries (get_slot_counter s k now window l).0.tables ≤ total_entries l.tables + 1
  unfolding get_slot_counter
  total-get_slot_counter-le = omega (
    arith,
    total-put s (get_counter (get s l.tables) k now window).0 l.tables,
    length-get_counter (get s l.tables) k now window,
  )

abbrev pub bump : Counter → Counter
bump c = record c { count = c.count + 1 }

-- Whether two accesses are to the same entry of the same table.
abbrev pub same_entry : Slot → Text → Slot → Text → Bool
same_entry s k s' k' = elim (Slot-discrete s s') [ yes _ ↦ text_eq k k' | no _ ↦ false ]

pub held-charge :
    (s s' : Slot) (k j : Text) (c : Counter) (l : InMemoryLimiter)
    → held s j (charge s' k c l) ≡ (if same_entry s' k s j then some (bump c) else held s j l)
unfolding charge
held-charge s s' k j c l = by_slot (Slot-discrete s' s)
  where
    by_slot :
        (d : Dec (s' ≡ s))
        → held s j (charge s' k c l)
          ≡ (if elim d [ yes _ ↦ text_eq k j | no _ ↦ false ] then some (bump c) else held s j l)
    by_slot (yes e) = rw (← e) (rw get-put_self (lookup-increment k j c (get s' l.tables)))
    by_slot (no n) = ap (lookup j) (get-put_ne s s' _ l.tables (λ e. n (sym e)))

pub total-charge :
    (s : Slot) (k : Text) (c d : Counter) (l : InMemoryLimiter)
    → held s k l ≡ some d
    → total_entries (charge s k c l).tables ≡ total_entries l.tables
unfolding charge
total-charge s k c d l e = omega (
  arith,
  total-put s (increment k c (get s l.tables)) l.tables,
  length-increment k c d (get s l.tables) e,
)

-- Accesses through one reference do not show through another.
pub held-get_slot_counter_ne :
    (s s' : Slot) (k j : Text) (now window : ℕ) (l : InMemoryLimiter)
    → s ≢ s'
    → held s j (get_slot_counter s' k now window l).0 ≡ held s j l
unfolding get_slot_counter
held-get_slot_counter_ne s s' k j now window l n = ap (lookup j) (get-put_ne s s' _ l.tables n)

pub held-charge_ne :
    (s s' : Slot) (k j : Text) (c : Counter) (l : InMemoryLimiter)
    → s ≢ s'
    → held s j (charge s' k c l) ≡ held s j l
unfolding charge
held-charge_ne s s' k j c l n = ap (lookup j) (get-put_ne s s' _ l.tables n)

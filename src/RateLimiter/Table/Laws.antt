-- ===== src/RateLimiter/Table/Laws.antt =====
-- internal/ratelimiter/memory.go: lemmas on one table of counters.
use authara.Prelude.{
  ℕ, ◌+◌, ◌-◌, ◌≤◌, ◌<◌, ◌≡◌, refl, ◌⊎◌, some, [], ◌∷◌, arith, length, if◌then◌else◌,
}
use authara.Prelude.Text.{Text, text_eq, text_eq_iff}
use authara.RateLimiter.Table.{
  Counter, Table, lookup, insert, get_counter, increment, sweep, clear_map,
}

pub lookup-insert :
    (k j : Text) (c : Counter) (m : Table)
    → lookup j (insert k c m) ≡ (if text_eq k j then some c else lookup j m)
unfolding lookup insert
lookup-insert k j c [] = refl
lookup-insert k j c ((i, d) ∷ m) =
    ground (arith, text_eq_iff k j, text_eq_iff i k, text_eq_iff i j, lookup-insert k j c m)

pub length-insert : (k : Text) (c : Counter) (m : Table) → length (insert k c m) ≤ length m + 1
unfolding insert
length-insert k c [] = omega arith
length-insert k c ((i, d) ∷ m) = ground (arith, length-insert k c m)

pub length-insert_held :
    (k : Text) (c d : Counter) (m : Table) → lookup k m ≡ some d → length (insert k c m) ≡ length m
unfolding lookup insert
length-insert_held k c d [] e = cc
length-insert_held k c d ((i, x) ∷ m) e = ground (arith, length-insert_held k c d m)

pub length-increment :
    (k : Text) (c d : Counter) (m : Table)
    → lookup k m ≡ some d
    → length (increment k c m) ≡ length m
unfolding increment
length-increment k c d m e = length-insert_held k (record c { count = c.count + 1 }) d m e

pub length-get_counter :
    (m : Table) (k : Text) (now window : ℕ) → length (get_counter m k now window).0 ≤ length m + 1
unfolding get_counter
length-get_counter m k now window =
    ground (arith, length-insert k (record { count = 0; reset = now + window }) m)

-- The counter that `getCounterLocked` returns is the one that the table then holds.
pub lookup-get_counter :
    (m : Table) (k j : Text) (now window : ℕ)
    → lookup j (get_counter m k now window).0
      ≡ (if text_eq k j then some (get_counter m k now window).1 else lookup j m)
unfolding get_counter
lookup-get_counter m k j now window =
    ground
      (arith, text_eq_iff k j, lookup-insert k j (record { count = 0; reset = now + window }) m)

pub lookup-increment :
    (k j : Text) (c : Counter) (m : Table)
    → lookup j (increment k c m)
      ≡ (if text_eq k j then some (record c { count = c.count + 1 }) else lookup j m)
unfolding increment
lookup-increment k j c m = lookup-insert k j (record c { count = c.count + 1 }) m

-- A counter within its window is left as it is.
pub get_counter_live :
    (m : Table) (k : Text) (now window : ℕ) (c : Counter)
    → lookup k m ≡ some c
    → now < c.reset
    → get_counter m k now window ≡ (m, c)
unfolding get_counter
get_counter_live m k now window c e h = ground arith

-- Sweeping leaves every counter that is within its window.
pub lookup-sweep :
    (k : Text) (now : ℕ) (c : Counter) (m : Table)
    → lookup k m ≡ some c
    → now < c.reset
    → lookup k (sweep now m) ≡ some c
unfolding lookup sweep
lookup-sweep k now c [] e h = e
lookup-sweep k now c ((i, d) ∷ m) e h = ground (arith, lookup-sweep k now c m)

pub length-sweep-le : (now : ℕ) (m : Table) → length (sweep now m) ≤ length m
unfolding sweep
length-sweep-le now [] = omega arith
length-sweep-le now ((i, d) ∷ m) = ground (arith, length-sweep-le now m)

-- What `clearMap` leaves, in terms of the running total.
pub record Cleared (max_entries total : ℕ) (m : Table) (r : Table × ℕ) : Type 0 where
  pub balanced : r.1 + length m ≡ total + length r.0
  pub shorter : length r.0 ≤ length m
  pub ended : (r.1 ≤ max_entries) ⊎ (r.0 ≡ [])

pub clear_map-Cleared :
    (max_entries total : ℕ) (m : Table)
    → length m ≤ total
    → Cleared max_entries total m (clear_map max_entries total m)
unfolding clear_map
clear_map-Cleared max_entries total [] h = ground arith
clear_map-Cleared max_entries total ((k, c) ∷ m) h =
    ground (arith, clear_map-Cleared max_entries (total - 1) m)

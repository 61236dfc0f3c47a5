-- ===== src/RateLimiter/Table.antt =====
-- internal/ratelimiter/memory.go: one table of counters, `map[string]*counter`.
-- The entries stand in the order in which Go ranges over the map, which the language leaves open.
pub mod Laws
use authara.Prelude.{ℕ, ◌+◌, ◌-◌, Option, none, some, List, [], ◌∷◌, Bool, ltb, leb, if◌then◌else◌}
use authara.Prelude.Text.{Text, text_eq}

pub record Counter : Type 0 where
  pub count : ℕ
  pub reset : ℕ

abbrev pub Table : Type 0
Table = List (Text × Counter)

unfoldable pub lookup : Text → Table → Option Counter
lookup k [] = none
lookup k ((j, c) ∷ m) = if text_eq j k then some c else lookup k m

-- `m[k] = c`.
unfoldable pub insert : Text → Counter → Table → Table
insert k c [] = (k, c) ∷ []
insert k c ((j, d) ∷ m) = if text_eq j k then (j, c) ∷ m else (j, d) ∷ insert k c m

-- The window of a counter is over: `!now.Before(c.reset)`.
abbrev pub is_over : ℕ → Counter → Bool
is_over now c = leb c.reset now

-- The table after `getCounterLocked`, and the counter that it returns.
unfoldable pub get_counter : Table → Text → ℕ → ℕ → Table × Counter
unfolding lookup insert
get_counter m key now window =
    let fresh : Counter = record { count = 0; reset = now + window } in
    elim (lookup key m) [
      | none ↦ (insert key fresh m, fresh)
      | some c ↦ if is_over now c then (insert key fresh m, fresh) else (m, c)
    ]

-- `c.count++` through the pointer that the table holds under `key`.
unfoldable pub increment : Text → Counter → Table → Table
unfolding insert
increment key c m = insert key (record c { count = c.count + 1 }) m

-- `retryAfter`: how long the window still lasts.
unfoldable pub retry_after : ℕ → ℕ → ℕ
retry_after now reset = if ltb now reset then reset - now else 0

-- `sweep`: the entries whose window is over are deleted.
unfoldable pub sweep : ℕ → Table → Table
sweep now [] = []
sweep now ((k, c) ∷ m) = let rest = sweep now m in if is_over now c then rest else (k, c) ∷ rest

-- `clearMap`: entries are deleted until the running total, also returned, is within the bound.
-- The test stands behind the deletion.
unfoldable pub clear_map : ℕ → ℕ → Table → Table × ℕ
clear_map max_entries total [] = ([], total)
clear_map max_entries total ((k, c) ∷ m) =
    let rest = clear_map max_entries (total - 1) m in
    if leb (total - 1) max_entries then (m, total - 1) else rest

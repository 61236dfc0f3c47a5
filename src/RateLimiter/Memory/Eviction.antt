-- ===== src/RateLimiter/Memory/Eviction.antt =====
-- internal/ratelimiter/memory.go: the bound that `enforceMaxEntriesLocked` keeps.
use authara.Prelude.{ℕ, ◌+◌, ◌≤◌, ◌≡◌, refl, ◌⊎◌, inr, List, [], ◌∷◌, arith, length}
use authara.RateLimiter.Table.{Table, clear_map}
use authara.RateLimiter.Table.Laws.{clear_map-Cleared}
use authara.RateLimiter.Memory.Maps.{
  Slot, Tables, get, put, total_entries, clear_slot, clear_slots, clear_order, enforce_max_entries,
}

pub get-put_self : (s : Slot) (m : Table) (t : Tables) → get s (put s m t) ≡ m
unfolding get put
get-put_self s m t = ground arith

length-get-put-le :
    (s s' : Slot) (m : Table) (t : Tables)
    → length m ≤ length (get s' t)
    → length (get s (put s' m t)) ≤ length (get s t)
unfolding get put
length-get-put-le s s' m t h = ground arith

pub total-put :
    (s : Slot) (m : Table) (t : Tables)
    → total_entries (put s m t) + length (get s t) ≡ total_entries t + length m
unfolding get put total_entries
total-put s m t = ground arith

pub length-get-le-total : (s : Slot) (t : Tables) → length (get s t) ≤ total_entries t
unfolding get total_entries
length-get-le-total s t = ground arith

-- The running total is the number of entries, before a call of `clearMap` and after it.
abbrev pub Tallied : Tables × ℕ → Type 0
Tallied st = st.1 ≡ total_entries st.0

pub record ClearedSlot (max_entries : ℕ) (s : Slot) (st r : Tables × ℕ) : Type 0 where
  pub tallied : Tallied r
  pub fewer : r.1 ≤ st.1
  pub shorter : (s' : Slot) → length (get s' r.0) ≤ length (get s' st.0)
  pub ended : (r.1 ≤ max_entries) ⊎ (length (get s r.0) ≡ 0)

pub clear_slot-ClearedSlot :
    (max_entries : ℕ) (s : Slot) (st : Tables × ℕ)
    → Tallied st
    → ClearedSlot max_entries s st (clear_slot max_entries s st)
unfolding clear_slot
clear_slot-ClearedSlot max_entries s (t, total) h =
    let r = clear_map max_entries total (get s t) in
    let c =
      clear_map-Cleared max_entries total (get s t) (omega (arith, length-get-le-total s t)) in
    record {
      tallied = omega (arith, c, total-put s r.0 t, length-get-le-total s t);
      fewer = omega (arith, c);
      shorter = λ s'. length-get-put-le s' s r.0 t c.shorter;
      ended = ground (arith, c, get-put_self s r.0 t);
    }

abbrev pub AllEmpty : Tables → List Slot → Type 0
AllEmpty t [] = Unit
AllEmpty t (s ∷ ss) = (length (get s t) ≡ 0) × AllEmpty t ss

-- What the calls leave: either the bound is kept, or each table they were called on is empty.
pub record ClearedSlots (max_entries : ℕ) (ss : List Slot) (st r : Tables × ℕ) : Type 0 where
  pub tallied : Tallied r
  pub fewer : r.1 ≤ st.1
  pub shorter : (s' : Slot) → length (get s' r.0) ≤ length (get s' st.0)
  pub ended : (r.1 ≤ max_entries) ⊎ AllEmpty r.0 ss

pub clear_slots-ClearedSlots :
    (max_entries : ℕ) (ss : List Slot) (st : Tables × ℕ)
    → Tallied st
    → ClearedSlots max_entries ss st (clear_slots max_entries ss st)
unfolding clear_slots
clear_slots-ClearedSlots max_entries [] st h = record {
  tallied = h;
  fewer = omega arith;
  shorter = λ s'. omega arith;
  ended = inr tt;
}
clear_slots-ClearedSlots max_entries (s ∷ ss) st h =
    let one = clear_slot-ClearedSlot max_entries s st h in
    let rest = clear_slots-ClearedSlots max_entries ss (clear_slot max_entries s st) one.tallied in
    record {
      tallied = rest.tallied;
      fewer = omega (arith, one.fewer, rest.fewer);
      shorter = λ s'. omega (arith, one.shorter s', rest.shorter s');
      ended = ground (arith, one.fewer, one.ended, rest.fewer, rest.ended, rest.shorter s);
    }

AllEmpty-total : (t : Tables) → AllEmpty t clear_order → total_entries t ≡ 0
unfolding get total_entries
AllEmpty-total t h = omega arith

-- After the upkeep no more than the configured number of entries is left.
pub enforce_max_entries_bound :
    (max_entries : ℕ) (t : Tables) → total_entries (enforce_max_entries max_entries t) ≤ max_entries
unfolding enforce_max_entries
enforce_max_entries_bound max_entries t =
    let r = clear_slots max_entries clear_order (t, total_entries t) in
    let c = clear_slots-ClearedSlots max_entries clear_order (t, total_entries t) refl in
    ground (arith, c.tallied, c.ended, AllEmpty-total r.0)

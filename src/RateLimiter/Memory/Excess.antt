-- ===== src/RateLimiter/Memory/Excess.antt =====
-- internal/ratelimiter/memory.go: the entries that `enforceMaxEntriesLocked` deletes beyond need.
use authara.Prelude.{
  ℕ, ◌+◌, ◌-◌, ◌≤◌, ◌<◌, ◌≡◌, refl, ap, ◌∙◌, sym, false, leb, List, [], ◌∷◌, arith, length,
}
use authara.RateLimiter.Table.{Table, clear_map}
use authara.RateLimiter.Memory.Maps.{
  Slot, Tables, get, put, total_entries, clear_slot, clear_slots, clear_order, enforce_max_entries,
}
use authara.RateLimiter.Memory.Apart.{
  other_slots, IsFresh, IsDistinct, get-put_ne, Each, Shortened, Each-imp, clear_slot_apart,
  clear_slots-Each, clear_order-IsDistinct,
}
use authara.RateLimiter.Memory.Eviction.{
  clear_slot-ClearedSlot, clear_slots-ClearedSlots, length-get-le-total,
}

-- How many of the tables hold an entry.
pub nonempty : List Slot → Tables → ℕ
nonempty [] t = 0
nonempty (s ∷ ss) t = let rest = nonempty ss t in elim (get s t) [ [] ↦ rest | _ ∷ _ ↦ rest + 1 ]

nonempty-put :
    (ss : List Slot) (s : Slot) (m : Table) (t : Tables)
    → IsFresh s ss
    → nonempty ss (put s m t) ≡ nonempty ss t
unfolding nonempty
nonempty-put [] s m t h = refl
nonempty-put (x ∷ xs) s m t h = ground (arith, get-put_ne x s m t, nonempty-put xs s m t)

clear_map_one :
    (max_entries total : ℕ) (m : Table)
    → total ≤ max_entries
    → (clear_map max_entries total m).1 ≡ elim m [ [] ↦ total | _ ∷ _ ↦ total - 1 ]
unfolding clear_map
clear_map_one max_entries total [] h = refl
clear_map_one max_entries total (_ ∷ m) h = ground arith

-- One such call, with the tables that it does not touch.
clear_slot_one :
    (max_entries : ℕ) (s : Slot) (ss : List Slot) (t : Tables) (total : ℕ)
    → IsFresh s ss
    → total ≤ max_entries
    → let r = clear_slot max_entries s (t, total) in
      (r.1 ≡ elim (get s t) [ [] ↦ total | _ ∷ _ ↦ total - 1 ]) × (nonempty ss r.0 ≡ nonempty ss t)
unfolding clear_slot
clear_slot_one max_entries s ss t total f h = (
  clear_map_one max_entries total (get s t) h,
  nonempty-put ss s (clear_map max_entries total (get s t)).0 t f,
)

-- Once the bound is kept, each further call still deletes an entry of its table.
clear_slots_excess :
    (max_entries : ℕ) (ss : List Slot) (t : Tables) (total : ℕ)
    → IsDistinct ss
    → total ≤ max_entries
    → total_entries t ≡ total
    → (clear_slots max_entries ss (t, total)).1 + nonempty ss t ≡ total
unfolding clear_slots nonempty
clear_slots_excess max_entries [] t total d h e = omega arith
clear_slots_excess max_entries (s ∷ ss) t total d h e =
    let r = clear_slot max_entries s (t, total) in
    let c = clear_slot-ClearedSlot max_entries s (t, total) (sym e) in
    ground (
      arith,
      clear_slot_one max_entries s ss t total d.0 h,
      length-get-le-total s t,
      clear_slots_excess max_entries ss r.0 r.1 d.1 (omega (arith, c.fewer)) (sym c.tallied),
    )

clear_map_stops :
    (max_entries total : ℕ) (m : Table)
    → max_entries < total
    → total ≤ max_entries + length m
    → (clear_map max_entries total m).1 ≡ max_entries
unfolding clear_map
clear_map_stops max_entries total [] h k = omega arith
clear_map_stops max_entries total ((j, c) ∷ m) h k =
    ground (arith, clear_map_stops max_entries (total - 1) m)

clear_login :
    (max_entries : ℕ) (t : Tables)
    → max_entries < total_entries t
    → total_entries t ≤ max_entries + length t.login_by_ip
    → let r = clear_slot max_entries Slot.login_by_ip (t, total_entries t) in
      (r.1 ≡ max_entries) × (nonempty other_slots r.0 ≡ nonempty other_slots t)
unfolding clear_slot get
clear_login max_entries t h k = (
  clear_map_stops max_entries (total_entries t) t.login_by_ip h k,
  nonempty-put other_slots Slot.login_by_ip _ t clear_order-IsDistinct.0,
)

clear_all_excess :
    (max_entries : ℕ) (t : Tables)
    → max_entries < total_entries t
    → total_entries t ≤ max_entries + length t.login_by_ip
    → (clear_slots max_entries clear_order (t, total_entries t)).1 + nonempty other_slots t
      ≡ max_entries
unfolding clear_slots
clear_all_excess max_entries t h k =
    let st : Tables × ℕ = (t, total_entries t) in
    let r = clear_slot max_entries Slot.login_by_ip st in
    let c = clear_slot-ClearedSlot max_entries Slot.login_by_ip st refl in
    let one = clear_login max_entries t h k in
    omega (
      arith,
      one,
      clear_slots_excess max_entries other_slots r.0 r.1 clear_order-IsDistinct.1
          (omega (arith, one.0)) (sym c.tallied),
    )

clear_all-Each :
    (max_entries : ℕ) (t : Tables)
    → max_entries < total_entries t
    → total_entries t ≤ max_entries + length t.login_by_ip
    → Each (Shortened t (clear_slots max_entries clear_order (t, total_entries t)).0) other_slots
unfolding clear_slots
clear_all-Each max_entries t h k =
    let st : Tables × ℕ = (t, total_entries t) in
    let r = clear_slot max_entries Slot.login_by_ip st in
    let c = clear_slot-ClearedSlot max_entries Slot.login_by_ip st refl in
    let one = clear_login max_entries t h k in
    let last = (clear_slots max_entries other_slots r).0 in
    Each-imp (Shortened r.0 last) (Shortened t last) Slot.login_by_ip other_slots
      clear_order-IsDistinct.0
      (λ x other p.
        p
        ∙ ap (λ y. length y - 1)
            (clear_slot_apart max_entries x Slot.login_by_ip t (total_entries t) other))
      (clear_slots-Each max_entries other_slots r.0 r.1 clear_order-IsDistinct.1
        (omega (arith, one.0)) (sym c.tallied))

-- Where there are more entries than the bound and the table of login addresses alone holds enough to
-- be deleted, each of the other nine tables that holds an entry loses exactly one as well; what is
-- left is the bound, less one for each of those tables.
pub enforce_max_entries_excess :
    (max_entries : ℕ) (t : Tables)
    → max_entries < total_entries t
    → total_entries t ≤ max_entries + length t.login_by_ip
    → Each
        (λ s. length (get s (enforce_max_entries max_entries t)) ≡ length (get s t) - 1)
        other_slots
      × (total_entries (enforce_max_entries max_entries t) + nonempty other_slots t ≡ max_entries)
unfolding enforce_max_entries
enforce_max_entries_excess max_entries t h k =
    let r = clear_slots max_entries clear_order (t, total_entries t) in
    let c = clear_slots-ClearedSlots max_entries clear_order (t, total_entries t) refl in
    let over : leb (total_entries t) max_entries ≡ false = ground (arith, h) in
    (
      rw over (clear_all-Each max_entries t h k),
      ground (arith, c.tallied, clear_all_excess max_entries t h k),
    )

-- ===== src/RateLimiter/Memory/Apart.antt =====
-- internal/ratelimiter/memory.go: what each call of `clearMap` leaves of the tables.
use authara.Prelude.{ℕ, ◌-◌, ◌≤◌, ◌≡◌, refl, ap, ◌∙◌, ◌≢◌, sym, List, [], ◌∷◌, arith, length}
use authara.RateLimiter.Table.{Table, clear_map}
use authara.RateLimiter.Memory.Maps.{
  Slot, Tables, get, put, total_entries, clear_slot, clear_slots, clear_order,
}
use authara.RateLimiter.Memory.Eviction.{clear_slot-ClearedSlot, get-put_self}

-- The tables that are cleared after the first.
abbrev pub other_slots : List Slot
other_slots =
    Slot.signup_by_ip ∷ Slot.password_reset_by_ip ∷ Slot.passkey_login_by_ip
    ∷ Slot.passkey_login_finish_by_ip ∷ Slot.challenge_verify_by_ip ∷ Slot.challenge_resend_by_ip
    ∷ Slot.login_by_email ∷ Slot.signup_by_email ∷ Slot.password_reset_by_email ∷ []

abbrev pub IsFresh : Slot → List Slot → Type 0
IsFresh s [] = Unit
IsFresh s (x ∷ xs) = (x ≢ s) × IsFresh s xs

abbrev pub IsDistinct : List Slot → Type 0
IsDistinct [] = Unit
IsDistinct (s ∷ ss) = IsFresh s ss × IsDistinct ss

pub get-put_ne : (s s' : Slot) (m : Table) (t : Tables) → s ≢ s' → get s (put s' m t) ≡ get s t
unfolding get put
get-put_ne s s' m t h = ground arith

clear_map_tail :
    (max_entries total : ℕ) (m : Table)
    → total ≤ max_entries
    → length (clear_map max_entries total m).0 ≡ length m - 1
unfolding clear_map
clear_map_tail max_entries total [] h = refl
clear_map_tail max_entries total (_ ∷ m) h = ground arith

-- What the calls leave of each table on a list.
abbrev pub Each : (Slot → Type 0) → List Slot → Type 0
Each P [] = Unit
Each P (s ∷ ss) = P s × Each P ss

abbrev pub Shortened : Tables → Tables → Slot → Type 0
Shortened t r s = length (get s r) ≡ length (get s t) - 1

pub Each-imp :
    (P Q : Slot → Type 0) (s : Slot) (ss : List Slot)
    → IsFresh s ss
    → ((x : Slot) → x ≢ s → P x → Q x)
    → Each P ss
    → Each Q ss
Each-imp P Q s [] f h all = tt
Each-imp P Q s (x ∷ xs) (other, f) h (p, all) = (h x other p, Each-imp P Q s xs f h all)

pub clear_slot_apart :
    (max_entries : ℕ) (s x : Slot) (t : Tables) (total : ℕ)
    → s ≢ x
    → get s (clear_slot max_entries x (t, total)).0 ≡ get s t
unfolding clear_slot
clear_slot_apart max_entries s x t total other =
    get-put_ne s x (clear_map max_entries total (get x t)).0 t other

-- A table that is not on the list is left alone.
clear_slots_apart :
    (max_entries : ℕ) (s : Slot) (ss : List Slot) (t : Tables) (total : ℕ)
    → IsFresh s ss
    → get s (clear_slots max_entries ss (t, total)).0 ≡ get s t
unfolding clear_slots
clear_slots_apart max_entries s [] t total f = refl
clear_slots_apart max_entries s (x ∷ xs) t total (other, f) =
    let r = clear_slot max_entries x (t, total) in
    clear_slots_apart max_entries s xs r.0 r.1 f
    ∙ clear_slot_apart max_entries s x t total (λ e. other (sym e))

-- Once the bound is kept, each table loses an entry.
pub clear_slots-Each :
    (max_entries : ℕ) (ss : List Slot) (t : Tables) (total : ℕ)
    → IsDistinct ss
    → total ≤ max_entries
    → total_entries t ≡ total
    → Each (Shortened t (clear_slots max_entries ss (t, total)).0) ss
unfolding clear_slots clear_slot
clear_slots-Each max_entries [] t total d h e = tt
clear_slots-Each max_entries (s ∷ ss) t total d h e =
    let m = clear_map max_entries total (get s t) in
    let r = clear_slot max_entries s (t, total) in
    let c = clear_slot-ClearedSlot max_entries s (t, total) (sym e) in
    let last = (clear_slots max_entries ss r).0 in
    let own : length (get s last) ≡ length (get s t) - 1 =
      ap length (clear_slots_apart max_entries s ss r.0 r.1 d.0)
      ∙ ap length (get-put_self s m.0 t)
      ∙ clear_map_tail max_entries total (get s t) h in
    let later =
      clear_slots-Each max_entries ss r.0 r.1 d.1 (omega (arith, c.fewer, h)) (sym c.tallied) in
    (
      own,
      Each-imp (Shortened r.0 last) (Shortened t last) s ss d.0
          (λ x other p. p ∙ ap (λ y. length y - 1) (get-put_ne x s m.0 t other)) later,
    )

pub clear_order-IsDistinct : IsDistinct clear_order
clear_order-IsDistinct = grind arith

-- ===== src/RateLimiter/Memory/Charges.antt =====
-- internal/ratelimiter/memory.go: how one attempt is charged to the counters within their windows.
use authara.Prelude.{
  ℕ, ◌+◌, ◌≤◌, ◌<◌, ◌≡◌, refl, sym, ◌∙◌, ◌≢◌, Option, some, Bool, true, false, ◌&&◌, ◌||◌, arith,
  if◌then◌else◌,
}
use authara.Prelude.Text.{Text, text_eq, text_eq_iff}
use authara.RateLimiter.Keys.{normalize_key, normalize_ip}
use authara.RateLimiter.Table.{Counter}
use authara.RateLimiter.Outcome.{Outcome, allowed, rate_limited, failed}
use authara.RateLimiter.Memory.{InMemoryLimiter, tidy, get_slot_counter, charge, allow_ip, allow}
use authara.RateLimiter.Memory.Maps.{Slot, total_entries}
use authara.RateLimiter.Memory.Access.{
  Slot-discrete, held, bump, same_entry, held-tidy, total-tidy-le, held-get_slot_counter_live,
  held-get_slot_counter, get_slot_counter_live, total-get_slot_counter-le, held-charge,
  total-charge, held-get_slot_counter_ne, held-charge_ne,
}

abbrev pub is_allowed : Outcome → Bool
is_allowed allowed = true
is_allowed (rate_limited e) = false
is_allowed (failed e) = false

-- What one attempt does to a counter that is within its window: it is charged, by one and at most
-- up to its limit, exactly if the attempt touches it and is let through.
pub record Step (s : Slot) (j : Text) (c : Counter) (touches : Bool) (limit room : ℕ)
    (l : InMemoryLimiter) (r : InMemoryLimiter × Outcome) : Type 0 where
  pub kept : held s j r.0 ≡ some (if is_allowed r.1 && touches then bump c else c)
  pub within : touches ≡ true → is_allowed r.1 ≡ true → c.count < limit
  pub growth : total_entries r.0.tables ≤ total_entries l.tables + room

same_entry-live :
    (s s' : Slot) (k j : Text) (now window : ℕ) (l : InMemoryLimiter) (c : Counter)
    → same_entry s k s' j ≡ true
    → held s' j l ≡ some c
    → now < c.reset
    → (get_slot_counter s k now window l).1 ≡ c
same_entry-live s s' k j now window l c same e h = by_slot (Slot-discrete s s') same
  where
    by_slot :
        (d : Dec (s ≡ s'))
        → elim d [ yes _ ↦ text_eq k j | no _ ↦ false ] ≡ true
        → (get_slot_counter s k now window l).1 ≡ c
    by_slot (yes p) q = get_slot_counter_live s k now window l c (rw (p, (text_eq_iff k j).0 q) e) h
    by_slot (no n) q = cc

module _ (ip : Option Text) (s : Slot) (limit window cleanup_every max_entries : ℕ) (kind : Text)
    (now : ℕ) (l : InMemoryLimiter) where
  pub allow_ip-Step :
      (s' : Slot) (j : Text) (c : Counter)
      → held s' j l ≡ some c
      → now < c.reset
      → total_entries l.tables ≤ max_entries
      → Step s' j c
          (same_entry s (normalize_ip ip) s' j)
          limit
          1
          l
          (allow_ip ip s limit window cleanup_every max_entries kind now l)
  unfolding allow_ip
  allow_ip-Step s' j c e h room =
      let k = normalize_ip ip in
      let l₁ = tidy now cleanup_every max_entries l in
      let e₁ = held-tidy now cleanup_every max_entries l s' j c e h room in
      let (l₂, ic) = get_slot_counter s k now window l₁ in
      let e₂ = held-get_slot_counter_live s' s k j now window l₁ c e₁ h in
      let facts = same_entry-live s s' k j now window l₁ c in
      record {
        kept = ground (arith, e₁, e₂, facts, held-charge s' s k j ic l₂);
        within = ground (arith, e₁, facts);
        growth = ground (
          arith,
          total-tidy-le now cleanup_every max_entries l room,
          total-get_slot_counter-le s k now window l₁,
          total-charge s k ic ic l₂ (held-get_slot_counter s k now window l₁),
        );
      }

not-same_entry :
    (s s' t : Slot) (k k' j : Text)
    → s ≢ s'
    → same_entry s k t j ≡ true
    → same_entry s' k' t j ≡ false
not-same_entry s s' t k k' j n = by_slots (Slot-discrete s t) (Slot-discrete s' t)
  where
    by_slots :
        (d : Dec (s ≡ t)) (d' : Dec (s' ≡ t))
        → elim d [ yes _ ↦ text_eq k j | no _ ↦ false ] ≡ true
        → elim d' [ yes _ ↦ text_eq k' j | no _ ↦ false ] ≡ false
    by_slots (yes p) (yes q) h = absurd (n (p ∙ sym q))
    by_slots (yes p) (no m) h = refl
    by_slots (no m) d' h = cc

module _ (lower : ℕ → ℕ) (ip : Option Text) (key : Text) (by_ip by_key : Slot)
    (ip_limit ip_window key_limit key_window cleanup_every max_entries : ℕ) (kind key_scope : Text)
    (now : ℕ) (l : InMemoryLimiter) where
  pub allow-Step :
      (s' : Slot) (j : Text) (c : Counter)
      → by_ip ≢ by_key
      → held s' j l ≡ some c
      → now < c.reset
      → total_entries l.tables ≤ max_entries
      → let by_address = same_entry by_ip (normalize_ip ip) s' j in
        let by_email = same_entry by_key (normalize_key lower key) s' j in
        Step s' j c (by_address || by_email) (if by_address then ip_limit else key_limit) 2 l (
          allow lower ip key by_ip by_key ip_limit ip_window key_limit key_window cleanup_every
            max_entries kind key_scope now l)
  unfolding allow
  allow-Step s' j c n e h room =
      let ik = normalize_ip ip in
      let kk = normalize_key lower key in
      let l₁ = tidy now cleanup_every max_entries l in
      let e₁ = held-tidy now cleanup_every max_entries l s' j c e h room in
      let (l₂, ic) = get_slot_counter by_ip ik now ip_window l₁ in
      let e₂ = held-get_slot_counter_live s' by_ip ik j now ip_window l₁ c e₁ h in
      let (l₃, kc) = get_slot_counter by_key kk now key_window l₂ in
      let e₃ = held-get_slot_counter_live s' by_key kk j now key_window l₂ c e₂ h in
      let ip_facts = same_entry-live by_ip s' ik j now ip_window l₁ c in
      let key_facts = same_entry-live by_key s' kk j now key_window l₂ c in
      let apart = not-same_entry by_ip by_key s' ik kk j n in
      let held_ip =
        held-get_slot_counter_ne by_ip by_key kk ik now key_window l₂ n
        ∙ held-get_slot_counter by_ip ik now ip_window l₁ in
      let held_key =
        held-charge_ne by_key by_ip ik kk ic l₃ (λ q. n (sym q))
        ∙ held-get_slot_counter by_key kk now key_window l₂ in
      record {
        kept = ground (
          arith,
          e₁,
          e₂,
          e₃,
          ip_facts,
          key_facts,
          apart,
          held-charge s' by_ip ik j ic l₃,
          held-charge s' by_key kk j kc (charge by_ip ik ic l₃),
        );
        within = ground (arith, e₁, e₂, ip_facts, key_facts, apart);
        growth = ground (
          arith,
          total-tidy-le now cleanup_every max_entries l room,
          total-get_slot_counter-le by_ip ik now ip_window l₁,
          total-get_slot_counter-le by_key kk now key_window l₂,
          total-charge by_ip ik ic ic l₃ held_ip,
          total-charge by_key kk kc kc (charge by_ip ik ic l₃) held_key,
        );
      }

-- ===== src/RateLimiter/Agreement.antt =====
-- internal/ratelimiter/memory.go, internal/ratelimiter/cache.go and internal/cache/redis.go: the
-- two limiters beside one another.
use authara.Prelude.{ℕ, ◌+◌, ◌≤◌, ◌<◌, ◌≡◌, refl, Option, none, some, List, [], ◌∷◌, arith, ltb}
use authara.Prelude.Text.{Text, codes, text_eq_refl}
use authara.RateLimiter.Keys.{normalize_ip}
use authara.RateLimiter.Table.{Counter}
use authara.RateLimiter.Memory.{InMemoryLimiter, tidy, allow_ip}
use authara.RateLimiter.Memory.Maps.{Slot, total_entries}
use authara.RateLimiter.Memory.Access.{held, held-tidy, get_slot_counter_live}
use authara.RateLimiter.Memory.Charges.{is_allowed}
use authara.RateLimiter.Cache
use authara.RateLimiter.Cache.{CounterCache, rate_limit_key}
use authara.RateLimiter.Cache.Redis
use authara.RateLimiter.Cache.Redis.{Entry, Server}

-- The Redis script as the limiter's cache.
abbrev pub redis : CounterCache
redis = record { State = Server; increment = Redis.increment }

find-store :
    (k : Text) (e : Entry) (m : List (Text × Entry)) → Redis.find k (Redis.store k e m) ≡ some e
unfolding Redis.find Redis.store
find-store k e [] = rw text_eq_refl refl
find-store k e ((j, d) ∷ m) = ground (arith, find-store k e m)

-- The memory counts the attempts that were let through, the cache all of them.
abbrev pub Agrees : ℕ → Option Counter → Option Entry → Type 0
Agrees limit none o = ⊥
Agrees limit (some c) none = ⊥
Agrees limit (some c) (some e) =
    (c.count ≤ limit) × (c.count ≤ e.value) × (c.count < limit → c.count ≡ e.value)

module _ (ip : Option Text) (s : Slot) (limit window : ℕ) (kind : Text) where
  -- The memory limiter's answer about a counter within its window.
  pub allow_ip_decides :
      (cleanup_every max_entries now : ℕ) (l : InMemoryLimiter) (c : Counter)
      → held s (normalize_ip ip) l ≡ some c
      → now < c.reset
      → total_entries l.tables ≤ max_entries
      → is_allowed (allow_ip ip s limit window cleanup_every max_entries kind now l).1
        ≡ ltb c.count limit
  unfolding allow_ip
  allow_ip_decides cleanup_every max_entries now l c e h room =
      let k = normalize_ip ip in
      let l₁ = tidy now cleanup_every max_entries l in
      let e₁ = held-tidy now cleanup_every max_entries l s k c e h room in
      ground (arith, get_slot_counter_live s k now window l₁ c e₁ h)

  -- The cache limiter's answer, and the entry that it leaves.
  pub redis_decides :
      (r : Server) (d : Entry)
      → Redis.find (rate_limit_key kind (codes "ip") (normalize_ip ip)) r.keys ≡ some d
      → r.now < d.expires_at
      → let (r', o) = Cache.allow_ip redis ip limit window kind r in
        (is_allowed o ≡ ltb d.value limit)
        × (Redis.find (rate_limit_key kind (codes "ip") (normalize_ip ip)) r'.keys
            ≡ some (record d { value = d.value + 1 }))
  unfolding Cache.allow_ip Redis.increment
  redis_decides r d e h =
      let k = rate_limit_key kind (codes "ip") (normalize_ip ip) in
      (ground (arith, e), ground (arith, e, find-store k (record d { value = d.value + 1 }) r.keys))

-- ===== src/RateLimiter/Cache.antt =====
-- internal/ratelimiter/cache.go: the limiter whose counters stand in a shared cache.
pub mod Redis
pub mod Attempts
use authara.Prelude.{ℕ, Option, none, some, ◌++◌, ltb, if◌then◌else◌}
use authara.Prelude.Text.{Text, codes}
use authara.RateLimiter.Keys.{normalize_key, normalize_ip}
use authara.RateLimiter.Outcome.{Outcome, allowed, rate_limited, failed}

-- internal/cache/cache.go: `Counter`. The result of `increment` is the count and the time that the
-- counter has left, or `none` for an error.
pub record CounterCache : Type 1 where
  pub State : Type 0
  pub increment : Text → ℕ → State → State × Option (ℕ × ℕ)

-- internal/cache/keys.go
unfoldable pub rate_limit_key : Text → Text → Text → Text
rate_limit_key kind scope value =
    codes "authara:ratelimit:" ++ (kind ++ (codes ":" ++ (scope ++ (codes ":" ++ value))))

-- The error that the limiters wrap an error of the cache in.
abbrev pub cache_failure : Text → Text → Outcome
cache_failure kind scope = failed (codes "rate limit " ++ (kind ++ (codes " " ++ scope)))

module _ (cache : CounterCache) where
  open cache use {State, increment}

  -- One counter: the continuation runs if the count is within the limit.
  abbrev pub counted :
      Text → Text → Text → ℕ → ℕ → (State → State × Outcome) → State → State × Outcome
  counted kind scope value limit window next st =
      let (st', answer) = increment (rate_limit_key kind scope value) window st in
      elim answer [
        | none ↦ (st', cache_failure kind scope)
        | some (count, ttl) ↦
            if ltb limit count
            then (
              st',
              rate_limited (record { retry_after = ttl; scope = kind ++ codes ":" ++ scope }),
            )
            else next st'
      ]

  unfoldable pub allow_ip : Option Text → ℕ → ℕ → Text → State → State × Outcome
  unfolding rate_limit_key
  allow_ip ip ip_limit ip_window kind =
      counted kind (codes "ip") (normalize_ip ip) ip_limit ip_window (λ st. (st, allowed))

  module _ (lower : ℕ → ℕ) where
    unfoldable pub allow :
        Option Text → Text → ℕ → ℕ → ℕ → ℕ → Text → Text → State → State × Outcome
    unfolding rate_limit_key
    allow ip key ip_limit ip_window key_limit key_window kind key_scope =
        counted kind (codes "ip") (normalize_ip ip) ip_limit ip_window (
          counted kind key_scope (normalize_key lower key) key_limit key_window
            (λ st. (st, allowed)))

-- ===== src/RateLimiter/Cache/Redis.antt =====
-- internal/cache/redis.go: the script behind `Increment`, over the state of the Redis server.
use authara.Prelude.{ℕ, ◌+◌, ◌-◌, ◌*◌, ◌/◌, Option, none, some, List, [], ◌∷◌, leb, if◌then◌else◌}
use authara.Prelude.Text.{Text, text_eq}

-- A key's value and the time, in milliseconds, at which it expires.
pub record Entry : Type 0 where
  pub value : ℕ
  pub expires_at : ℕ

pub record Server : Type 0 where
  pub keys : List (Text × Entry)
  pub now : ℕ

abbrev pub millisecond : ℕ
millisecond = 1000000

unfoldable pub find : Text → List (Text × Entry) → Option Entry
find k [] = none
find k ((j, e) ∷ m) = if text_eq j k then some e else find k m

unfoldable pub store : Text → Entry → List (Text × Entry) → List (Text × Entry)
store k e [] = (k, e) ∷ []
store k e ((j, d) ∷ m) = if text_eq j k then (j, e) ∷ m else (j, d) ∷ store k e m

-- INCR; PEXPIRE at the first count; PTTL. A key that has expired is not there. Its answer is
-- given in nanoseconds, as `time.Duration` counts.
unfoldable pub increment : Text → ℕ → Server → Server × Option (ℕ × ℕ)
unfolding find store
increment key ttl r =
    let first : Entry = record { value = 1; expires_at = r.now + ttl / millisecond } in
    let fresh : Server × Option (ℕ × ℕ) = (
      record r { keys = store key first r.keys },
      some (1, (first.expires_at - r.now) * millisecond),
    ) in
    elim (find key r.keys) [
      | none ↦ fresh
      | some e ↦ if leb e.expires_at r.now then fresh else (
        record r { keys = store key (record e { value = e.value + 1 }) r.keys },
        some (e.value + 1, (e.expires_at - r.now) * millisecond),
      )
    ]

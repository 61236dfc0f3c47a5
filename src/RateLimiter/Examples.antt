-- ===== src/RateLimiter/Examples.antt =====
-- internal/ratelimiter: the limiters run on a small history of log-ins.
use authara.Prelude.{ℕ, ◌+◌, ◌-◌, ◌≤◌, ◌≡◌, length, refl, none, some, List, [], ◌∷◌, arith}
use authara.Prelude.Int.{negsuc}
use authara.Prelude.Text.{Text, codes, text_eq}
use authara.RateLimiter.Config.{
  LimiterConfig, zero_config, default_limiter_config, set_int_default, normalized_config_provider,
}
use authara.RateLimiter.Keys.{normalize_ip}
use authara.RateLimiter.Table.{Counter, lookup}
use authara.RateLimiter.Memory.{InMemoryLimiter}
use authara.RateLimiter.Memory.Maps.{Slot, Tables, get, total_entries, enforce_max_entries}
use authara.RateLimiter.Memory.Eviction.{enforce_max_entries_bound}
use authara.RateLimiter.Memory.Apart.{other_slots, Each}
use authara.RateLimiter.Memory.Excess.{enforce_max_entries_excess, nonempty}
use authara.RateLimiter.Memory.Access.{held}
use authara.RateLimiter.Memory.Charges.{Step, is_allowed}
use authara.RateLimiter.Memory.Attempts.{Attempt, attempt, touches, limit_of, attempt-Step}
use authara.RateLimiter.Memory.Budget.{run, admitted, budget_exact}
use authara.RateLimiter.Memory.Windows.{
  IsPositive, Waits, normalized_config_provider-IsPositive, attempt-Waits,
}
use authara.RateLimiter.Cache
use authara.RateLimiter.Cache.{rate_limit_key}
use authara.RateLimiter.Cache.Redis
use authara.RateLimiter.Cache.Attempts
use authara.RateLimiter.Cache.Redis.{Server}
use authara.RateLimiter.Agreement.{redis}

abbrev same : ℕ → ℕ
same c = c

abbrev config : LimiterConfig ℕ
config = normalized_config_provider none

abbrev empty_tables : Tables
empty_tables = record {
  login_by_ip = [];
  login_by_email = [];
  signup_by_ip = [];
  signup_by_email = [];
  password_reset_by_ip = [];
  password_reset_by_email = [];
  passkey_login_by_ip = [];
  passkey_login_finish_by_ip = [];
  challenge_verify_by_ip = [];
  challenge_resend_by_ip = [];
}

abbrev home : Text
home = codes "10.0.0.1"

abbrev ada : Text
ada = codes "ada@example.org"

-- Four of the five log-ins of an address are used up.
abbrev four : Counter
four = record { count = 4; reset = 1000 }

abbrev busy : InMemoryLimiter
busy = record { tables = record empty_tables { login_by_ip = (home, four) ∷ [] }; call_count = 4 }

abbrev calls : List (ℕ × Attempt)
calls =
    (10, Attempt.login (some home) ada)
    ∷ (20, Attempt.login (some home) ada)
    ∷ (30, Attempt.oauth (some home))
    ∷ []

attempt-Step_example :
    Step Slot.login_by_ip home four
      (touches same Slot.login_by_ip home (Attempt.login (some home) ada))
      (limit_of config Slot.login_by_ip)
      2
      busy
      (attempt same config (Attempt.login (some home) ada) 10 busy)
unfolding total_entries lookup get text_eq normalized_config_provider default_limiter_config
    set_int_default
attempt-Step_example =
    attempt-Step same config Slot.login_by_ip home four 10 busy (Attempt.login (some home) ada) refl
      (omega arith) (omega arith)

-- One of the two log-ins and the OAuth attempt is let through.
budget_exact_example :
    (held Slot.login_by_ip home (run same config calls busy)
      ≡ some (record four { count = 4 + admitted same config Slot.login_by_ip home calls busy }))
    × (4 + admitted same config Slot.login_by_ip home calls busy ≤ limit_of config Slot.login_by_ip)
unfolding total_entries lookup get text_eq normalized_config_provider default_limiter_config
    set_int_default
budget_exact_example =
    budget_exact same config Slot.login_by_ip home calls busy four refl
      (omega arith, (omega arith, (omega arith, tt))) (omega arith) (omega arith)

abbrev spread : Tables
spread = record empty_tables {
  login_by_ip = (home, four) ∷ (codes "10.0.0.2", four) ∷ [];
  signup_by_ip = (home, four) ∷ [];
  login_by_email = (ada, four) ∷ [];
}

enforce_max_entries_bound_example : total_entries (enforce_max_entries 3 spread) ≤ 3
enforce_max_entries_bound_example = enforce_max_entries_bound 3 spread

-- Of four entries, where three are allowed, one is left.
enforce_max_entries_excess_example :
    Each
      (λ s. length (get s (enforce_max_entries 3 spread)) ≡ length (get s spread) - 1)
      other_slots
    × (total_entries (enforce_max_entries 3 spread) + nonempty other_slots spread ≡ 3)
unfolding total_entries
enforce_max_entries_excess_example = enforce_max_entries_excess 3 spread (omega arith) (omega arith)

normalized_config_provider-IsPositive_example :
    IsPositive
      (normalized_config_provider (some (record zero_config { login_ip_limit = negsuc 2 })))
normalized_config_provider-IsPositive_example =
    normalized_config_provider-IsPositive (some (record zero_config { login_ip_limit = negsuc 2 }))

attempt-Waits_example : Waits 10 (attempt same config (Attempt.signup none ada) 10 busy).1
attempt-Waits_example =
    attempt-Waits same config 10 busy (Attempt.signup none ada)
      (normalized_config_provider-IsPositive none)

abbrev login : Text
login = codes "login"

abbrev server : Server
server = record {
  keys =
      (
        rate_limit_key login (codes "ip") (normalize_ip (some home)),
        record { value = 4; expires_at = 900 },
      )
      ∷ [];
  now = 10;
}

attempt-consult_example :
    let a = Attempt.login (some home) ada in
    ((Attempts.attempt redis same config a server).0
      ≡ (Attempts.consult redis same config (Attempts.budgets redis same config a) server).0)
    × (is_allowed (Attempts.attempt redis same config a server).1
        ≡ (Attempts.consult redis same config (Attempts.budgets redis same config a) server).1)
attempt-consult_example =
    Attempts.attempt-consult redis same config (Attempt.login (some home) ada) server

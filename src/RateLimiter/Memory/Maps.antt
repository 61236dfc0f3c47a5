-- ===== src/RateLimiter/Memory/Maps.antt =====
-- internal/ratelimiter/memory.go: the tables of the limiter together, and their upkeep.
use authara.Prelude.{ℕ, ◌+◌, List, [], ◌∷◌, leb, length, if◌then◌else◌}
use authara.RateLimiter.Table.{Table, sweep, clear_map}

pub record Tables : Type 0 where
  pub login_by_ip : Table
  pub login_by_email : Table
  pub signup_by_ip : Table
  pub signup_by_email : Table
  pub password_reset_by_ip : Table
  pub password_reset_by_email : Table
  pub passkey_login_by_ip : Table
  pub passkey_login_finish_by_ip : Table
  pub challenge_verify_by_ip : Table
  pub challenge_resend_by_ip : Table

-- A reference to one of the maps, as `allow` and `clearMap` take it.
pub data Slot : Type 0 where
  login_by_ip login_by_email signup_by_ip signup_by_email password_reset_by_ip : Slot
  password_reset_by_email passkey_login_by_ip passkey_login_finish_by_ip : Slot
  challenge_verify_by_ip challenge_resend_by_ip : Slot

-- The map behind a reference.
unfoldable pub get : Slot → Tables → Table
get login_by_ip t = t.login_by_ip
get login_by_email t = t.login_by_email
get signup_by_ip t = t.signup_by_ip
get signup_by_email t = t.signup_by_email
get password_reset_by_ip t = t.password_reset_by_ip
get password_reset_by_email t = t.password_reset_by_email
get passkey_login_by_ip t = t.passkey_login_by_ip
get passkey_login_finish_by_ip t = t.passkey_login_finish_by_ip
get challenge_verify_by_ip t = t.challenge_verify_by_ip
get challenge_resend_by_ip t = t.challenge_resend_by_ip

-- The tables after a write through a reference.
unfoldable pub put : Slot → Table → Tables → Tables
put login_by_ip m t = record t { login_by_ip = m }
put login_by_email m t = record t { login_by_email = m }
put signup_by_ip m t = record t { signup_by_ip = m }
put signup_by_email m t = record t { signup_by_email = m }
put password_reset_by_ip m t = record t { password_reset_by_ip = m }
put password_reset_by_email m t = record t { password_reset_by_email = m }
put passkey_login_by_ip m t = record t { passkey_login_by_ip = m }
put passkey_login_finish_by_ip m t = record t { passkey_login_finish_by_ip = m }
put challenge_verify_by_ip m t = record t { challenge_verify_by_ip = m }
put challenge_resend_by_ip m t = record t { challenge_resend_by_ip = m }

-- `sweepExpiredLocked`.
unfoldable pub sweep_expired : ℕ → Tables → Tables
sweep_expired now t = record {
  login_by_ip = sweep now t.login_by_ip;
  login_by_email = sweep now t.login_by_email;
  signup_by_ip = sweep now t.signup_by_ip;
  signup_by_email = sweep now t.signup_by_email;
  password_reset_by_ip = sweep now t.password_reset_by_ip;
  password_reset_by_email = sweep now t.password_reset_by_email;
  passkey_login_by_ip = sweep now t.passkey_login_by_ip;
  passkey_login_finish_by_ip = sweep now t.passkey_login_finish_by_ip;
  challenge_verify_by_ip = sweep now t.challenge_verify_by_ip;
  challenge_resend_by_ip = sweep now t.challenge_resend_by_ip;
}

-- `total`, as `enforceMaxEntriesLocked` adds it up.
unfoldable pub total_entries : Tables → ℕ
total_entries t =
    length t.login_by_ip
    + length t.login_by_email
    + length t.signup_by_ip
    + length t.signup_by_email
    + length t.password_reset_by_ip
    + length t.password_reset_by_email
    + length t.passkey_login_by_ip
    + length t.passkey_login_finish_by_ip
    + length t.challenge_verify_by_ip
    + length t.challenge_resend_by_ip

-- One call of `clearMap`; the running total is the variable that the closure shares.
unfoldable pub clear_slot : ℕ → Slot → Tables × ℕ → Tables × ℕ
unfolding get put
clear_slot max_entries s (t, total) =
    let (m, total') = clear_map max_entries total (get s t) in (put s m t, total')

unfoldable pub clear_slots : ℕ → List Slot → Tables × ℕ → Tables × ℕ
unfolding clear_slot
clear_slots max_entries [] st = st
clear_slots max_entries (s ∷ ss) st = clear_slots max_entries ss (clear_slot max_entries s st)

-- The order of the ten calls.
abbrev pub clear_order : List Slot
clear_order =
    Slot.login_by_ip ∷ Slot.signup_by_ip ∷ Slot.password_reset_by_ip ∷ Slot.passkey_login_by_ip
    ∷ Slot.passkey_login_finish_by_ip ∷ Slot.challenge_verify_by_ip ∷ Slot.challenge_resend_by_ip
    ∷ Slot.login_by_email ∷ Slot.signup_by_email ∷ Slot.password_reset_by_email ∷ []

unfoldable pub enforce_max_entries : ℕ → Tables → Tables
enforce_max_entries max_entries t =
    let total = total_entries t in
    if leb total max_entries then t else (clear_slots max_entries clear_order (t, total)).0

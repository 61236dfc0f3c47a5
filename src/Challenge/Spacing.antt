-- ===== src/Challenge/Spacing.antt =====
-- internal/challenge/service.go: how often and how soon a code is sent again.
use authara.Prelude.{
  ℕ, ◌+◌, ◌≤◌, ◌≡◌, refl, sym, subst, ap, ◌∙◌, some, false, arith, leb, if◌then◌else◌,
}
use authara.Store.Pending.{Challenge}
use authara.Store.Exec.{
  Db, World, Result, ok, err, pure, raise, reads, waits, branch, with_transaction, settle, Error,
  >>=-eq-both,
}
use authara.Store.Challenges.{get_challenge_by_id}
use authara.Challenge.Rows.{found-id}
use authara.Challenge.Services.{
  ChallengeServices, validate_challenge_for_resend, flattened, returning,
}
use authara.Challenge.Resend.{
  lock_pending_action_for_resend, send_again, resend_body, resend_challenge, resendable,
  is_challenge_consumed,
}
use authara.Challenge.Steps.{locked}
use authara.Challenge.Verify.{as_lock}
use authara.Challenge.Sent.{IsSent, Row, resendable-left, lock-Row, send-IsSent}

module _ (s : ChallengeServices) (id now : ℕ)
    (locks : (d : Db)
      → get_challenge_by_id id (s.others_holding id d) ≡ get_challenge_by_id id d) where
  body-resendable :
      (c : Challenge) (w : World)
      → get_challenge_by_id id (s.others w.committed) ≡ ok c
      → resend_body s id now w
        ≡ resendable s c now
            (validate_challenge_for_resend c now s.policy.minimum_resend_interval)
            (locked s w)
  unfolding resend_body
  body-resendable c w mine =
      >>=-eq-both (waits s.others (λ d. as_lock (get_challenge_by_id id d))) _ w tt
        (ap as_lock mine)
      ∙ >>=-eq-both (reads (get_challenge_by_id id)) _ (locked s w) c mine

  -- What a call that sends a code again found, and leaves.
  record Resent (w : World) (d : Db) : Type 0 where
    row : Challenge
    found : get_challenge_by_id id (s.others w.committed) ≡ ok row
    valid : validate_challenge_for_resend row now s.policy.minimum_resend_interval ≡ ok tt
    sent : (interval : ℕ) → row.minimum_resend_interval ≡ some interval → IsSent id now interval d

  abbrev answered : Challenge → Result (Unit {0}) → World → Result (Result (Unit {0})) × World
  answered c r =
      branch r (λ _. send_again s c now)
        (λ e. if is_challenge_consumed e then pure (err e) else raise e)

  answered-IsSent :
      (c : Challenge) (r : Result (Unit {0})) (w : World) (interval : ℕ)
      → Row s id now locks c w.db
      → leb c.max_resends c.resend_count ≡ false
      → c.minimum_resend_interval ≡ some interval
      → (answered c r w).0 ≡ ok (ok tt)
      → IsSent id now interval (answered c r w).1.db
  answered-IsSent c (ok _) w interval found left spaced q =
      send-IsSent s id now locks interval c w found spaced left q
  answered-IsSent c (err e) w interval found left spaced q = ground (arith, q)

  body-missing :
      (e : Error) (w : World)
      → get_challenge_by_id id (s.others w.committed) ≡ err e
      → (resend_body s id now w).0 ≡ err e
  unfolding resend_body
  body-missing e w missing = ground (arith, missing)

  body-Resent :
      (w : World) → (resend_body s id now w).0 ≡ ok (ok tt) → Resent w (resend_body s id now w).1.db
  body-Resent w h = by_row (get_challenge_by_id id (s.others w.committed)) refl
    where
      by_validation :
          (c : Challenge) (r : Result (Unit {0}))
          → get_challenge_by_id id (s.others w.committed) ≡ ok c
          → validate_challenge_for_resend c now s.policy.minimum_resend_interval ≡ r
          → resend_body s id now w ≡ resendable s c now r (locked s w)
          → Resent w (resend_body s id now w).1.db
      by_validation c (err e) found v eq =
          let refused : ok (err e) ≡ ok (ok tt) =
            sym (ap (λ (y : Result (Result (Unit {0})) × World). y.0) eq) ∙ h in
          ground (arith, refused)
      by_validation c (ok _) found v eq =
          let lock = lock_pending_action_for_resend s c (locked s w) in
          let held =
            (lock-Row s id now locks c (found-id id (s.others w.committed) c found)).at (locked s w)
              (found, found) in
          let result : (answered c lock.0 lock.1).0 ≡ ok (ok tt) =
            sym (ap (λ (y : Result (Result (Unit {0})) × World). y.0) eq) ∙ h in
          record {
            row = c;
            found = found;
            valid = v;
            sent = λ interval spaced.
                subst (λ (y : Result (Result (Unit {0})) × World). IsSent id now interval y.1.db)
                  (sym eq)
                  (answered-IsSent c lock.0 lock.1 interval held.1
                    (resendable-left c now s.policy.minimum_resend_interval v).0 spaced result);
          }

      by_row :
          (r : Result Challenge)
          → get_challenge_by_id id (s.others w.committed) ≡ r
          → Resent w (resend_body s id now w).1.db
      by_row (err e) missing = ground (arith, h, body-missing e w missing)
      by_row (ok c) found =
          by_validation c (validate_challenge_for_resend c now s.policy.minimum_resend_interval)
            found refl (body-resendable c w found)

  resend-Resent :
      (w : World)
      → (resend_challenge s id now w).0 ≡ ok tt
      → Resent w (resend_challenge s id now w).1.committed
  unfolding resend_challenge returning with_transaction
  resend-Resent w h = by_result (resend_body s id now w).0 refl h
    where
      by_result :
          (r : Result (Result (Unit {0})))
          → (resend_body s id now w).0 ≡ r
          → flattened (settle r (resend_body s id now w).1).0 ≡ ok tt
          → Resent w (settle r (resend_body s id now w).1).1.committed
      by_result (ok (ok _)) e q = body-Resent w e
      by_result (ok (err x)) e q = cc
      by_result (err x) e q = cc

-- When a call sends a code again at a time, and a later call sends one once more, then the time of
-- the later call is at least the challenge's interval later. This is about the two calls, not about
-- the first e-mail or the times of delivery. The challenge has an interval of its own, nothing else
-- touches the challenge while its row is locked, and what other transactions commit before the later
-- call leaves the challenge there, with its interval and with no earlier time of sending: so it is
-- also asked that no worker meanwhile notes the sending of an e-mail at a time before the first call.
pub resend_challenge-spaced :
    (s s' : ChallengeServices) (id now now' interval : ℕ) (c : Challenge) (w : World)
    → ((d : Db) → get_challenge_by_id id (s.others_holding id d) ≡ get_challenge_by_id id d)
    → ((d : Db) → get_challenge_by_id id (s'.others_holding id d) ≡ get_challenge_by_id id d)
    → ((d : Db) → IsSent id now interval d → IsSent id now interval (s'.others d))
    → get_challenge_by_id id (s.others w.committed) ≡ ok c
    → c.minimum_resend_interval ≡ some interval
    → (resend_challenge s id now w).0 ≡ ok tt
    → (resend_challenge s' id now' (resend_challenge s id now w).1).0 ≡ ok tt
    → now + interval ≤ now'
resend_challenge-spaced s s' id now now' interval c w locks locks' rely found spaced h h' =
    let first = resend-Resent s id now locks w h in
    let again = resend-Resent s' id now' locks' (resend_challenge s id now w).1 h' in
    let same : first.row.minimum_resend_interval ≡ some interval =
      ground (arith, first.found, found, spaced) in
    let kept = rely (resend_challenge s id now w).1.committed (first.sent interval same) in
    let free = (resendable-left again.row now' s'.policy.minimum_resend_interval again.valid).1 in
    ground (arith, kept.found, kept.spaced, kept.last, kept.later, again.found, free)

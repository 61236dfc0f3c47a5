-- ===== src/Webhook/Steps.antt =====
-- internal/webhook, internal/store/webhook.go: what can happen to the queue, by any number of workers.
use authara.Prelude.{
  ℕ, ◌+◌, ◌≤◌, ◌≡◌, some, Bool, false, ◌&&◌, List, [], ◌∷◌, ◌++◌, any, ◌==◌, if◌then◌else◌,
}
use authara.Prelude.Text.{Text}
use authara.Store.Webhooks.{
  WebhookEventRow, claim_next_webhook_event, create_webhook_event, reap_stale_webhook_events,
  delete_expired_webhook_events,
}
use authara.Webhook.Sender.{Answer, send_once}
use authara.Webhook.Worker.{WorkerPolicy, lease, settle}

-- The table, and the copies of the events that workers are sending.
pub record Queue : Type 0 where
  pub rows : List WebhookEventRow
  pub held : List WebhookEventRow
  -- the identifiers from here on were not given yet
  pub next_id : ℕ

-- A worker holds the event, with that time as its lease.
abbrev pub is_held : ℕ → ℕ → List WebhookEventRow → Bool
is_held id now held = any (λ (h : WebhookEventRow). h.id == id && lease h == now) held

-- The policy is read again for each step.
pub data Step : Queue → Queue → Type 0 where
  publish :
      (q : Queue) (event_type payload : Text) (db_now : ℕ)
      → Step q (record q {
        rows = create_webhook_event q.next_id event_type payload db_now q.rows;
        next_id = q.next_id + 1;
      })
  claim :
      (q : Queue) (locked : ℕ → Bool) (now db_now : ℕ) (e : WebhookEventRow)
      (rows : List WebhookEventRow)
      → claim_next_webhook_event locked now db_now q.rows ≡ some (e, rows)
      → Step q (record q { rows = rows; held = e ∷ q.held })
  finish :
      (rows before after : List WebhookEventRow) (next_id : ℕ) (e : WebhookEventRow)
      (policy : WorkerPolicy) (now db_now : ℕ) (answer : Answer)
      → Step
          (record { rows = rows; held = before ++ e ∷ after; next_id = next_id })
          (record {
            rows = (settle policy now db_now e (send_once answer) rows).1;
            held = before ++ after;
            next_id = next_id;
          })
  -- the worker ends without a word
  crash :
      (rows before after : List WebhookEventRow) (next_id : ℕ) (e : WebhookEventRow)
      → Step
          (record { rows = rows; held = before ++ e ∷ after; next_id = next_id })
          (record { rows = rows; held = before ++ after; next_id = next_id })
  reap :
      (q : Queue) (locked : ℕ → Bool) (stale_before next_attempt_at max batch_size db_now : ℕ)
      → Step q (record q {
        rows =
            (reap_stale_webhook_events locked stale_before next_attempt_at max batch_size db_now
              q.rows).1;
      })
  cleanup :
      (q : Queue) (locked : ℕ → Bool) (delivered_before failed_before batch_size : ℕ)
      → Step q (record q {
        rows =
            (delete_expired_webhook_events locked delivered_before failed_before batch_size
              q.rows).1;
      })

pub data Run (q : Queue) : Queue → Type 0 where
  here : Run q q
  next : {r s : Queue} → Run q r → Step r s → Run q s

-- Whether the event was claimed for a delivery.
unfoldable pub is_claim : (id : ℕ) {q r : Queue} → Step q r → ℕ
is_claim id (claim q locked now db_now e rows h) = if e.id == id then 1 else 0
is_claim id (publish q event_type payload db_now) = 0
is_claim id (finish rows before after next_id e policy now db_now answer) = 0
is_claim id (crash rows before after next_id e) = 0
is_claim id (reap q locked stale_before next_attempt_at max batch_size db_now) = 0
is_claim id (cleanup q locked delivered_before failed_before batch_size) = 0

-- How often an event was claimed in a run.
unfoldable pub claims : (id : ℕ) {q r : Queue} → Run q r → ℕ
unfolding is_claim
claims id here = 0
claims id (next run step) = claims id run + is_claim id step

-- The policy of the step allows no more attempts than that.
unfoldable pub IsWithin : (max : ℕ) {q r : Queue} → Step q r → Type 0
IsWithin max (finish rows before after next_id e policy now db_now answer) =
    policy.max_delivery_attempts ≤ max
IsWithin max (reap q locked stale_before next_attempt_at allowed batch_size db_now) = allowed ≤ max
IsWithin max (publish q event_type payload db_now) = Unit {0}
IsWithin max (claim q locked now db_now e rows h) = Unit {0}
IsWithin max (crash rows before after next_id e) = Unit {0}
IsWithin max (cleanup q locked delivered_before failed_before batch_size) = Unit {0}

-- No worker that still holds the event claimed it at the same time.
unfoldable pub IsNewLease : {q r : Queue} → Step q r → Type 0
IsNewLease (claim q locked now db_now e rows h) = is_held e.id now q.held ≡ false
IsNewLease (publish q event_type payload db_now) = Unit {0}
IsNewLease (finish rows before after next_id e policy now db_now answer) = Unit {0}
IsNewLease (crash rows before after next_id e) = Unit {0}
IsNewLease (reap q locked stale_before next_attempt_at max batch_size db_now) = Unit {0}
IsNewLease (cleanup q locked delivered_before failed_before batch_size) = Unit {0}

unfoldable pub AllWithin : (max : ℕ) {q r : Queue} → Run q r → Type 0
AllWithin max here = Unit {0}
AllWithin max (next run step) = AllWithin max run × IsWithin max step

unfoldable pub AllNewLeases : {q r : Queue} → Run q r → Type 0
AllNewLeases here = Unit {0}
AllNewLeases (next run step) = AllNewLeases run × IsNewLease step

abbrev pub empty_queue : Queue
empty_queue = record { rows = []; held = []; next_id = 0 }

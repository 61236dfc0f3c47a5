-- ===== src/Webhook/Worker.antt =====
-- internal/webhook/worker.go: a worker that delivers the events of the queue, and the upkeep.
use authara.Prelude.{
  ℕ, zero, suc, ◌+◌, ◌-◌, ◌*◌, Option, none, some, Bool, true, false, ◌&&◌, List, count_if, ◌==◌,
  ltb, if◌then◌else◌,
}
use authara.Store.Exec.{Result, ok}
use authara.Store.Queue.{ReapResult}
use authara.Store.Webhooks.{
  WebhookEventRow, Statement, claim_next_webhook_event, mark_webhook_event_delivered,
  mark_webhook_event_failed, requeue_webhook_event, is_stale, reap_stale_webhook_events,
  delete_expired_webhook_events,
}
use authara.Webhook.Sender.{Answer, Delivery, sent, unsent, send_once}

pub record WorkerPolicy : Type 0 where
  pub max_delivery_attempts : ℕ
  pub processing_stale_after : ℕ
  pub delivered_retention : ℕ
  pub failed_retention : ℕ
  pub maintenance_batch_size : ℕ

abbrev pub seconds : ℕ → ℕ
seconds n = n * 1000000000

unfoldable pub delivery_retry_delay : ℕ → ℕ
delivery_retry_delay attempt = if attempt == 1 then seconds 30 else seconds 120

-- A claimed event's lease; the code reads it through a pointer that the claim has set.
abbrev pub lease : WebhookEventRow → ℕ
lease e = elim e.processing_started_at [ none ↦ 0 | some s ↦ s ]

module _ (policy : WorkerPolicy) where
  -- What runOnce does with the event that it has claimed, once it was sent.
  unfoldable pub settle : ℕ → ℕ → WebhookEventRow → Delivery → Statement
  settle now db_now e sent = mark_webhook_event_delivered e.id (lease e) now db_now
  settle now db_now e (unsent retryable error) =
      if retryable && ltb e.attempt_count policy.max_delivery_attempts
      then requeue_webhook_event e.id (lease e) error (now + delivery_retry_delay e.attempt_count)
          db_now
      else mark_webhook_event_failed e.id (lease e) error db_now

  -- `others` is what else happens to the queue while the event is sent. The first result says
  -- whether an event was claimed.
  unfoldable pub run_once :
      (ℕ → Bool)
      → (WebhookEventRow → Answer)
      → (List WebhookEventRow → List WebhookEventRow)
      → ℕ
      → ℕ
      → List WebhookEventRow
      → (Bool × Result (Unit {0})) × List WebhookEventRow
  unfolding settle
  run_once locked answer others now db_now rows =
      elim (claim_next_webhook_event locked now db_now rows) [
        | none ↦ ((false, ok tt), rows)
        | some (e, rows') ↦
            let (result, rows'') = settle now db_now e (send_once (answer e)) (others rows') in
            ((true, result), rows'')
      ]

  abbrev pub add : ReapResult → ReapResult → ReapResult
  add a b = record { retried = a.retried + b.retried; failed = a.failed + b.failed }

  abbrev pub total : ReapResult → ℕ
  total r = r.retried + r.failed

  -- One batch after the other, until one is not full.
  unfoldable pub reap_batches :
      (ℕ → Bool)
      → ℕ
      → ℕ
      → ℕ
      → ReapResult
      → List WebhookEventRow
      → Option (ReapResult × List WebhookEventRow)
  reap_batches locked now db_now zero so_far rows = none
  reap_batches locked now db_now (suc fuel) so_far rows =
      let (result, rows') =
        reap_stale_webhook_events locked (now - policy.processing_stale_after) now
          policy.max_delivery_attempts policy.maintenance_batch_size db_now rows in
      let rest = reap_batches locked now db_now fuel (add so_far result) rows' in
      if ltb (total result) policy.maintenance_batch_size
      then some (add so_far result, rows')
      else rest

  abbrev pub nothing_reaped : ReapResult
  nothing_reaped = record { retried = 0; failed = 0 }

  -- More batches than there are stale events.
  unfoldable pub reap_stale :
      (ℕ → Bool) → ℕ → ℕ → List WebhookEventRow → Option (ReapResult × List WebhookEventRow)
  unfolding reap_batches
  reap_stale locked now db_now rows =
      reap_batches locked now db_now
        (suc (count_if (is_stale locked (now - policy.processing_stale_after)) rows)) nothing_reaped
        rows

  -- How many were deleted, and whether there may be more.
  unfoldable pub cleanup_expired_events_batch :
      (ℕ → Bool) → ℕ → List WebhookEventRow → (ℕ × Bool) × List WebhookEventRow
  cleanup_expired_events_batch locked now rows =
      let (deleted, rows') =
        delete_expired_webhook_events locked (now - policy.delivered_retention)
          (now - policy.failed_retention) policy.maintenance_batch_size rows in
      ((deleted, deleted == policy.maintenance_batch_size), rows')

-- ===== src/Webhook/Late.antt =====
-- internal/webhook/worker.go, sender.go: a worker whose lease is stale.
use authara.Prelude.{
  ℕ, ◌+◌, ◌-◌, ◌≤◌, ◌≡◌, refl, subst, some, Bool, true, false, ◌&&◌, List, [], ◌∷◌, arith, any,
  count_if, ◌==◌, ltb, if◌then◌else◌, Bool-cases, inl, inr,
}
use authara.Store.Exec.{err, webhook_event_lease_lost}
use authara.Store.Queue.{ReapResult, transition}
use authara.Store.Sessions.{update_where}
use authara.Store.Webhooks.{
  WebhookEventRow, holds_lease, is_stale, mark_webhook_event_delivered, mark_webhook_event_failed,
  requeue_webhook_event,
}
use authara.Webhook.Sender.{Answer, Delivery, sent, unsent, send_once}
use authara.Webhook.Worker.{WorkerPolicy, lease, settle, delivery_retry_delay, reap_stale}
use authara.Webhook.Upkeep.{reap_stale_terminates}

none_affected :
    (p : WebhookEventRow → Bool) (f : WebhookEventRow → WebhookEventRow)
    (rows : List WebhookEventRow)
    → any p rows ≡ false
    → (count_if p rows ≡ 0) × (update_where p f rows ≡ rows)
unfolding any count_if
none_affected p f [] h = (refl, refl)
none_affected p f (e ∷ rows) h =
    let (counted, same) = none_affected p f rows (ground (arith, h)) in
    (ground (arith, h, counted), ground (arith, h, same))

late_transition :
    (p : WebhookEventRow → Bool) (f : WebhookEventRow → WebhookEventRow)
    (rows : List WebhookEventRow)
    → any p rows ≡ false
    → transition webhook_event_lease_lost p f rows ≡ (err webhook_event_lease_lost, rows)
late_transition p f rows h =
    let (counted, same) = none_affected p f rows h in ground (arith, counted, same)

settle_late :
    (policy : WorkerPolicy) (now db_now : ℕ) (e : WebhookEventRow) (d : Delivery)
    (rows : List WebhookEventRow)
    → any (holds_lease e.id (lease e)) rows ≡ false
    → settle policy now db_now e d rows ≡ (err webhook_event_lease_lost, rows)
unfolding settle mark_webhook_event_delivered mark_webhook_event_failed requeue_webhook_event
settle_late policy now db_now e sent rows h = late_transition (holds_lease e.id (lease e)) _ rows h
settle_late policy now db_now e (unsent retryable error) rows h =
    by_test (retryable && ltb e.attempt_count policy.max_delivery_attempts)
  where
    by_test :
        (b : Bool)
        → (if b
              then requeue_webhook_event e.id
                  (lease e)
                  error
                  (now + delivery_retry_delay e.attempt_count)
                  db_now
              else mark_webhook_event_failed e.id (lease e) error db_now)
            rows
          ≡ (err webhook_event_lease_lost, rows)
    by_test true = late_transition (holds_lease e.id (lease e)) _ rows h
    by_test false = late_transition (holds_lease e.id (lease e)) _ rows h

none_stale :
    (locked : ℕ → Bool) (before id at : ℕ) (rows : List WebhookEventRow)
    → count_if (is_stale locked before) rows ≡ 0
    → at ≤ before
    → locked id ≡ false
    → any (holds_lease id at) rows ≡ false
unfolding any count_if
none_stale locked before id at [] h old free = refl
none_stale locked before id at (e ∷ rows) h old free = elim (Bool-cases (e.id == id)) [
  | inl own ↦
      let unlocked : locked e.id ≡ false =
        subst (λ i. locked i ≡ false) (ground (arith, own)) free in
      ground (arith, h, old, unlocked, none_stale locked before id at rows)
  | inr other ↦ ground (arith, h, other, none_stale locked before id at rows)
]

-- A worker that is late changes nothing: when the upkeep runs, with batches that are not empty, at a
-- time by which the worker's lease is stale, and the event is not locked then, whatever the worker
-- reports afterwards is refused as a lost lease and leaves the queue as it is.
pub reap_stale-late :
    (policy : WorkerPolicy) (locked : ℕ → Bool) (now now' db_now db_now' : ℕ) (e : WebhookEventRow)
    (answer : Answer) (rows : List WebhookEventRow)
    → ((i : ℕ) → count_if (λ (r : WebhookEventRow). r.id == i) rows ≤ 1)
    → 1 ≤ policy.maintenance_batch_size
    → lease e ≤ now - policy.processing_stale_after
    → locked e.id ≡ false
    → (done : ReapResult) × (rows' : List WebhookEventRow) × (reap_stale policy locked now db_now
          rows
        ≡ some (done, rows'))
      × (settle policy now' db_now' e (send_once answer) rows'
          ≡ (err webhook_event_lease_lost, rows'))
reap_stale-late policy locked now now' db_now db_now' e answer rows keys size old free =
    let (done, rows', reaped, none_left, _) =
      reap_stale_terminates policy locked now db_now rows keys size in
    (
      done,
      rows',
      reaped,
      settle_late policy now' db_now' e (send_once answer) rows' (
          none_stale locked (now - policy.processing_stale_after) e.id (lease e) rows' none_left old
            free),
    )

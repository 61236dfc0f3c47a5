-- ===== src/Webhook/Histories.antt =====
-- internal/webhook: what holds however many workers and upkeeps take turns on the queue.
use authara.Prelude.{ℕ, ◌+◌, ◌≤◌, refl, subst, arith}
use authara.Store.Queue.{first, is_among}
use authara.Store.Webhooks.{
  WebhookEventRow, is_stale, is_staler, reaped, reap_stale_webhook_events,
  delete_expired_webhook_events,
}
use authara.Webhook.Sender.{send_once}
use authara.Webhook.Steps.{
  Queue, Step, publish, claim, finish, crash, reap, cleanup, Run, here, next, is_claim, claims,
  empty_queue, IsWithin, IsNewLease, AllWithin, AllNewLeases,
}
use authara.Webhook.Attempts.{
  Counted, update-Counted, filter-Counted, released-Counted, settle-Counted,
}
use authara.Webhook.Claims.{publish-Counted, claim-Counted}

module _ (max id : ℕ) (allowed : 1 ≤ max) where
  no_claim : (n : ℕ) (q : Queue) → Counted max id n q → Counted max id (n + 0) q
  no_claim n q c = subst (λ k. Counted max id k q) (omega arith) c

  step-Counted :
      (n : ℕ) {q r : Queue} (step : Step q r)
      → IsWithin max step
      → IsNewLease step
      → Counted max id n q
      → Counted max id (n + is_claim id step) r
  unfolding is_claim IsWithin IsNewLease reap_stale_webhook_events delete_expired_webhook_events
  step-Counted n (publish q event_type payload db_now) _ _ c =
      no_claim n _ (publish-Counted max id n allowed q event_type payload db_now c)
  step-Counted n (claim q locked now db_now e rows h) _ fresh c =
      claim-Counted max id n allowed q locked now db_now e rows h fresh c
  step-Counted n (finish rows before after next_id e policy now db_now answer) within _ c =
      no_claim n _ (
        settle-Counted max id n rows before after next_id e policy now db_now (send_once answer)
          within c)
  step-Counted n (crash rows before after next_id e) _ _ c =
      no_claim n _ ((released-Counted max id n rows before after next_id e c).1)
  step-Counted n (reap q locked stale_before next_attempt_at most batch_size db_now) within _ c =
      no_claim n _ (
        update-Counted max id n q.rows q.held q.next_id
          (is_among (λ (e : WebhookEventRow). e.id)
            (first is_staler batch_size (is_stale locked stale_before) q.rows))
          (reaped next_attempt_at most db_now) (λ e. ground arith)
          (λ e _ _ ok own. let h = ok own in (h.0, h.1, h.2, λ p. ground (arith, h.0, p, within)))
          c)
  step-Counted n (cleanup q locked delivered_before failed_before batch_size) _ _ c =
      no_claim n _ (filter-Counted max id n q _ c)

  run-Counted :
      {q r : Queue} (run : Run q r)
      → AllWithin max run
      → AllNewLeases run
      → Counted max id 0 q
      → Counted max id (claims id run) r
  unfolding claims AllWithin AllNewLeases
  run-Counted here _ _ c = c
  run-Counted (next run step) (within, within_now) (fresh, fresh_now) c =
      step-Counted (claims id run) step within_now fresh_now (run-Counted run within fresh c)

-- In whatever order the workers and the upkeep take turns, and even when workers end in the middle
-- or lose their leases, an event is claimed for a delivery no more often than any number, at least
-- one, that bounds the attempts which the policies in force in the run allow. The policy may change
-- within the run. No claim of an event is made at the very time at which a worker that still holds
-- it claimed it, since a lease is told by its time.
pub claims_bound :
    (max id : ℕ) (q : Queue) (run : Run empty_queue q)
    → 1 ≤ max
    → AllWithin max run
    → AllNewLeases run
    → claims id run ≤ max
claims_bound max id q run allowed within fresh =
    (run-Counted max id allowed run within fresh
      (record { within = omega arith; unmade = λ _. refl; rows_ok = tt; held_ok = tt })).within

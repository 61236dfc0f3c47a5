-- ===== src/Webhook/Examples.antt =====
-- internal/webhook: a queue with one event.
use authara.Prelude.{
  ℕ, ◌+◌, ◌-◌, ◌≤◌, ◌≡◌, refl, none, some, List, [], ◌∷◌, arith, false, true, any, filter, count_if,
  ◌==◌, Bool,
}
use authara.Prelude.Text.{codes}
use authara.Keyset.{take}
use authara.Store.Exec.{ok, err, webhook_event_lease_lost}
use authara.Store.Queue.{ReapResult, sort_by, insert_by}
use authara.Store.Sessions.{update_where}
use authara.Store.Webhooks.{
  WebhookEventRow, pending, delivered, claimed, claim_next_webhook_event, create_webhook_event,
  is_stale,
}
use authara.Webhook.Sender.{answered, send_once}
use authara.Webhook.Worker.{WorkerPolicy, settle, run_once, reap_stale}
use authara.Webhook.Upkeep.{reap_stale_terminates}
use authara.Webhook.Late.{reap_stale-late}
use authara.Webhook.Steps.{
  Queue, Run, here, next, publish, claim, finish, crash, claims, empty_queue, AllWithin,
  AllNewLeases, IsWithin, IsNewLease,
}
use authara.Webhook.Histories.{claims_bound}
use authara.Webhook.Delivered.{Delivered, Delivered-for_good}
use authara.Webhook.Runs.{Settled, run_once-Settled}

abbrev policy : WorkerPolicy
policy = record {
  max_delivery_attempts = 3;
  processing_stale_after = 100;
  delivered_retention = 1000;
  failed_retention = 2000;
  maintenance_batch_size = 10;
}

abbrev unlocked : ℕ → Bool
unlocked i = false

abbrev event : WebhookEventRow
event = record {
  id = 0;
  created_at = 5;
  updated_at = 5;
  event_type = codes "user.updated";
  payload = codes "{}";
  status = pending;
  attempt_count = 0;
  next_attempt_at = 5;
  processing_started_at = none;
  last_error = none;
  delivered_at = none;
}

-- The event while it is sent.
abbrev sending : WebhookEventRow
sending = claimed 7 7 event

abbrev copied : WebhookEventRow
copied = record sending { updated_at = 5 }

keys : (i : ℕ) → count_if (λ (e : WebhookEventRow). e.id == i) (event ∷ []) ≤ 1
unfolding count_if
keys i = ground arith

keys_sending : (i : ℕ) → count_if (λ (e : WebhookEventRow). e.id == i) (sending ∷ []) ≤ 1
unfolding count_if
keys_sending i = ground arith

claims_event : claim_next_webhook_event unlocked 7 7 (event ∷ []) ≡ some (copied, sending ∷ [])
unfolding claim_next_webhook_event filter sort_by insert_by take
claims_event = refl

run_once-Settled_example :
    (f : WebhookEventRow → WebhookEventRow) × (run_once policy unlocked
        (λ e. answered 503)
        (λ d. d)
        7
        7
        (event ∷ [])
      ≡ ((true, ok tt), update_where (λ (r : WebhookEventRow). r.id == 0) f (event ∷ [])))
    × Settled policy 7 7 copied (answered 503) f
run_once-Settled_example =
    run_once-Settled policy unlocked (λ e. answered 503) 7 7 copied (event ∷ []) (sending ∷ []) keys
      claims_event

reap_stale_terminates_example :
    (done : ReapResult) × (rows : List WebhookEventRow) × (reap_stale policy unlocked 200 200
        (sending ∷ [])
      ≡ some (done, rows))
    × (count_if (is_stale unlocked (200 - 100)) rows ≡ 0)
    × (done.retried + done.failed ≡ count_if (is_stale unlocked (200 - 100)) (sending ∷ []))
reap_stale_terminates_example =
    reap_stale_terminates policy unlocked 200 200 (sending ∷ []) keys_sending (omega arith)

reap_stale-late_example :
    (done : ReapResult) × (rows : List WebhookEventRow) × (reap_stale policy unlocked 200 200
        (sending ∷ [])
      ≡ some (done, rows))
    × (settle policy 201 201 copied (send_once (answered 200)) rows
        ≡ (err webhook_event_lease_lost, rows))
reap_stale-late_example =
    reap_stale-late policy unlocked 200 201 200 201 copied (answered 200) (sending ∷ [])
      keys_sending (omega arith) (omega arith) refl

-- The event is made, and a worker claims it and ends.
abbrev made : Queue
made = record { rows = event ∷ []; held = []; next_id = 1 }

abbrev taken : Queue
taken = record { rows = sending ∷ []; held = copied ∷ []; next_id = 1 }

abbrev left : Queue
left = record { rows = sending ∷ []; held = []; next_id = 1 }

unfoldable history : Run empty_queue left
unfolding create_webhook_event
history =
    next
      (next (next here (publish empty_queue (codes "user.updated") (codes "{}") 5))
        (claim made unlocked 7 7 copied (sending ∷ []) claims_event))
      (crash (sending ∷ []) [] [] 1 copied)

claims_bound_example : claims 0 history ≤ 3
unfolding history AllWithin AllNewLeases IsWithin IsNewLease any
claims_bound_example =
    claims_bound 3 0 left history (omega arith) (((tt, tt), tt), tt) (((tt, tt), refl), tt)

-- A delivered event, and a worker that comes late.
abbrev served : Queue
served = record {
  rows = record event { status = delivered; delivered_at = some 9 } ∷ [];
  held = copied ∷ [];
  next_id = 1;
}

late : Run served (record {
  rows = (settle policy 12 12 copied (send_once (answered 500)) served.rows).1;
  held = [];
  next_id = 1;
})
late = next here (finish served.rows [] [] 1 copied policy 12 12 (answered 500))

Delivered-for_good_example :
    (claims 0 late ≡ 0)
    × Delivered 0 (record {
      rows = (settle policy 12 12 copied (send_once (answered 500)) served.rows).1;
      held = [];
      next_id = 1;
    })
Delivered-for_good_example = Delivered-for_good 0 late (omega arith, (λ own. refl, tt))

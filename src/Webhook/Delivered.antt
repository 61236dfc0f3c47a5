-- ===== src/Webhook/Delivered.antt =====
-- internal/webhook: an event that was delivered is left alone.
use authara.Prelude.{
  ℕ, ◌+◌, ◌<◌, ◌≡◌, refl, subst, some, List, [], ◌∷◌, arith, false, true, any, All, All-update,
  All-filter, All-append, ◌==◌, if◌then◌else◌, ◌&&◌, ◌≢◌, Bool, ltb,
}
use authara.Store.Queue.{first, is_among}
use authara.Store.Queue.Selected.{All-first}
use authara.Store.Sessions.{update_where}
use authara.Store.Webhooks.{
  WebhookEventRow, status_eq, delivered, claimed, holds_lease, is_due, is_due_before, claim_first,
  claim_next_webhook_event, create_webhook_event, is_stale, is_staler, reaped,
  reap_stale_webhook_events, delete_expired_webhook_events, mark_webhook_event_delivered,
  mark_webhook_event_failed, requeue_webhook_event,
}
use authara.Webhook.Sender.{Delivery, sent, unsent, send_once}
use authara.Webhook.Worker.{WorkerPolicy, lease, settle, delivery_retry_delay}
use authara.Webhook.Steps.{
  Queue, Step, publish, claim, finish, crash, reap, cleanup, Run, here, next, is_claim, claims,
}

module _ (id : ℕ) where
  abbrev IsDone : WebhookEventRow → Type 0
  IsDone e = e.id ≡ id → status_eq e.status delivered ≡ true

  -- The event was made, and each row of it is delivered.
  abbrev pub Delivered : Queue → Type 0
  Delivered q = (id < q.next_id) × All IsDone q.rows

  -- A change of other rows.
  other-rows :
      (p : WebhookEventRow → Bool) (f : WebhookEventRow → WebhookEventRow)
      (rows : List WebhookEventRow)
      → ((e : WebhookEventRow) → p e ≡ true → IsDone e → (f e).id ≢ id)
      → All IsDone rows
      → All IsDone (update_where p f rows)
  other-rows p f rows apart done =
      All-update IsDone IsDone p f rows (λ e hit d own. absurd (apart e hit d own)) (λ e _ d. d)
        done

  leased-rows :
      (i at : ℕ) (f : WebhookEventRow → WebhookEventRow) (rows : List WebhookEventRow)
      → ((e : WebhookEventRow) → (f e).id ≡ e.id)
      → All IsDone rows
      → All IsDone (update_where (holds_lease i at) f rows)
  leased-rows i at f rows same =
      other-rows (holds_lease i at) f rows (λ e hit d own. ground (arith, hit, d, own, same e))

  settle-IsDone :
      (policy : WorkerPolicy) (now db_now : ℕ) (e : WebhookEventRow) (d : Delivery)
      (rows : List WebhookEventRow)
      → All IsDone rows
      → All IsDone (settle policy now db_now e d rows).1
  unfolding settle mark_webhook_event_delivered mark_webhook_event_failed requeue_webhook_event
  settle-IsDone policy now db_now e sent rows done =
      leased-rows e.id (lease e) _ rows (λ r. refl) done
  settle-IsDone policy now db_now e (unsent retryable error) rows done =
      by_test (retryable && ltb e.attempt_count policy.max_delivery_attempts)
    where
      by_test :
          (b : Bool)
          → All IsDone
              ((if b
                  then requeue_webhook_event e.id
                      (lease e)
                      error
                      (now + delivery_retry_delay e.attempt_count)
                      db_now
                  else mark_webhook_event_failed e.id (lease e) error db_now)
                rows).1
      by_test true = leased-rows e.id (lease e) _ rows (λ r. refl) done
      by_test false = leased-rows e.id (lease e) _ rows (λ r. refl) done

  -- A batch of rows that are not delivered has other keys.
  apart-batch :
      (batch : List WebhookEventRow)
      → All (λ e. e.id ≢ id) batch
      → (e : WebhookEventRow) → is_among (λ (e : WebhookEventRow). e.id) batch e ≡ true
      → e.id ≢ id
  unfolding any
  apart-batch [] h e hit own = cc
  apart-batch (b ∷ batch) (h, hs) e hit own = ground (arith, hit, own, h, apart-batch batch hs e)

  reap-IsDone :
      (locked : ℕ → Bool) (stale_before next_at max batch_size db_now : ℕ)
      (rows : List WebhookEventRow)
      → All IsDone rows
      → All IsDone
          (reap_stale_webhook_events locked stale_before next_at max batch_size db_now rows).1
  unfolding reap_stale_webhook_events
  reap-IsDone locked stale_before next_at max batch_size db_now rows done =
      let batch = first is_staler batch_size (is_stale locked stale_before) rows in
      let others =
        All-first IsDone (λ e. e.id ≢ id) is_staler batch_size (is_stale locked stale_before) rows
          (λ e stale d own. ground (arith, stale, d own)) done in
      other-rows (is_among (λ (e : WebhookEventRow). e.id) batch) (reaped next_at max db_now) rows
        (λ e hit _. apart-batch batch others e hit) done

  claim-IsDone :
      (locked : ℕ → Bool) (now db_now : ℕ) (e : WebhookEventRow) (rows rows' : List WebhookEventRow)
      → claim_next_webhook_event locked now db_now rows ≡ some (e, rows')
      → All IsDone rows
      → (e.id ≢ id) × All IsDone rows'
  unfolding claim_next_webhook_event
  claim-IsDone locked now db_now e rows rows' taken done =
      by_batch (first is_due_before 1 (is_due locked now) rows) taken (
        All-first IsDone (λ e. e.id ≢ id) is_due_before 1 (is_due locked now) rows
          (λ e due d own. ground (arith, due, d own)) done)
    where
      by_batch :
          (batch : List WebhookEventRow)
          → claim_first now db_now batch rows ≡ some (e, rows')
          → All (λ e. e.id ≢ id) batch
          → (e.id ≢ id) × All IsDone rows'
      by_batch [] taken others = cc
      by_batch (x ∷ _) taken (other, _) =
          let same : (
            record (claimed now db_now x) { updated_at = x.updated_at },
            update_where (λ (r : WebhookEventRow). r.id == x.id) (claimed now db_now) rows,
          )
              ≡ (e, rows') =
            cc taken in
          subst (λ (y : WebhookEventRow × List WebhookEventRow). (y.0.id ≢ id) × All IsDone y.1)
            same
            (
              other,
              other-rows (λ (r : WebhookEventRow). r.id == x.id) (claimed now db_now) rows
                  (λ r hit _ own. ground (arith, hit, own, other)) done,
            )

module _ (id : ℕ) where
  step-Delivered :
      {q r : Queue} (step : Step q r) → Delivered id q → (is_claim id step ≡ 0) × Delivered id r
  unfolding is_claim create_webhook_event delete_expired_webhook_events
  step-Delivered (publish q event_type payload db_now) (made, done) = (
    refl,
    (
      omega (arith, made),
      All-append (IsDone id) q.rows _ done (λ own. absurd (omega (arith, own, made)), tt),
    ),
  )
  step-Delivered (claim q locked now db_now e rows h) (made, done) =
      let (other, done') = claim-IsDone id locked now db_now e q.rows rows h done in
      (ground (arith, other), (made, done'))
  step-Delivered (finish rows before after next_id e policy now db_now answer) (made, done) =
      (refl, (made, settle-IsDone id policy now db_now e (send_once answer) rows done))
  step-Delivered (crash rows before after next_id e) d = (refl, d)
  step-Delivered (reap q locked stale_before next_at max batch_size db_now) (made, done) =
      (refl, (made, reap-IsDone id locked stale_before next_at max batch_size db_now q.rows done))
  step-Delivered (cleanup q locked delivered_before failed_before batch_size) (made, done) =
      (refl, (made, All-filter (IsDone id) (IsDone id) _ q.rows (λ e _ d. d) done))

-- Once an event that was made is delivered, no worker claims it again, and its row is delivered for
-- as long as it is there: in whatever order the workers and the upkeep take turns, and even where a
-- worker that claimed the event before comes late with another outcome. Such a worker may still
-- send its copy of the event.
pub Delivered-for_good :
    (id : ℕ) {q r : Queue} (run : Run q r) → Delivered id q → (claims id run ≡ 0) × Delivered id r
unfolding claims
Delivered-for_good id here d = (refl, d)
Delivered-for_good id (next run step) d =
    let (none_before, d') = Delivered-for_good id run d in
    let (none_now, d'') = step-Delivered id step d' in (omega (arith, none_before, none_now), d'')

-- ===== src/Webhook/Runs.antt =====
-- internal/webhook/worker.go: RunOnce, with nothing else in between.
use authara.Prelude.{
  ℕ, ◌+◌, ◌≤◌, ◌≡◌, refl, ap, ap₂, subst, ◌∙◌, none, some, Bool, true, ◌&&◌, List, [], ◌∷◌, arith,
  count_if, ◌==◌, ltb, if◌then◌else◌, All, Bool-cases, inl, inr,
}
use authara.Store.Exec.{ok, webhook_event_lease_lost}
use authara.Store.Queue.{first, transition}
use authara.Store.Queue.Selected.{All-first}
use authara.Store.Sessions.{update_where}
use authara.Store.Webhooks.{
  WebhookEventRow, pending, delivered, claimed, claim_first, is_due, is_due_before, holds_lease,
  claim_next_webhook_event, as_delivered, as_failed, as_requeued, mark_webhook_event_delivered,
  mark_webhook_event_failed, requeue_webhook_event,
}
use authara.Webhook.Sender.{Answer, send_once}
use authara.Webhook.Worker.{WorkerPolicy, lease, settle, delivery_retry_delay, run_once, seconds}
use authara.Webhook.Answers.{
  is_success, is_temporary, outcome, send_once-sent, send_once-unsent, All-present, settled-rows,
}

module _ (policy : WorkerPolicy) (now db_now : ℕ) (e : WebhookEventRow) (a : Answer) where
  -- What becomes of the row.
  pub record Settled (f : WebhookEventRow → WebhookEventRow) : Type 0 where
    pub id : (r : WebhookEventRow) → (f r).id ≡ r.id
    pub status : (r : WebhookEventRow) → (f r).status ≡ outcome policy e a
    pub attempts : (r : WebhookEventRow) → (f r).attempt_count ≡ r.attempt_count + 1
    pub ended : (r : WebhookEventRow) → (f r).processing_started_at ≡ none
    pub retry :
        (r : WebhookEventRow)
        → outcome policy e a ≡ pending
        → (f r).next_attempt_at ≡ now + (if e.attempt_count == 1 then seconds 30 else seconds 120)
    pub delivery :
        (r : WebhookEventRow) → outcome policy e a ≡ delivered → (f r).delivered_at ≡ some now

  -- The statement that settles the event, as a change of its row.
  settle-Settled :
      (rows : List WebhookEventRow)
      → (g : WebhookEventRow → WebhookEventRow) × (settle policy now db_now e (send_once a) rows
          ≡ transition webhook_event_lease_lost (holds_lease e.id (lease e)) g rows)
        × Settled (λ r. g (claimed now db_now r))
  unfolding settle mark_webhook_event_delivered mark_webhook_event_failed requeue_webhook_event
      delivery_retry_delay
  settle-Settled rows = elim (Bool-cases (is_success a)) [
    | inl success ↦ (
      as_delivered now db_now,
      ap (λ d. settle policy now db_now e d rows) (send_once-sent a success),
      record {
        id = λ r. refl;
        status = λ r. ground (arith, success);
        attempts = λ r. refl;
        ended = λ r. refl;
        retry = λ r p. ground (arith, p, success);
        delivery = λ r p. refl;
      },
    )
    | inr failure ↦
        let (error, unsent_eq) = send_once-unsent a failure in
        let settled = ap (λ d. settle policy now db_now e d rows) unsent_eq in
        elim (Bool-cases (is_temporary a && ltb e.attempt_count policy.max_delivery_attempts)) [
          | inl again ↦ (
            as_requeued error (now + delivery_retry_delay e.attempt_count) db_now,
            settled ∙ ground (arith, again),
            record {
              id = λ r. refl;
              status = λ r. ground (arith, failure, again);
              attempts = λ r. refl;
              ended = λ r. refl;
              retry = λ r p. refl;
              delivery = λ r p. ground (arith, p, failure, again);
            },
          )
          | inr last ↦ (
            as_failed error db_now,
            settled ∙ ground (arith, last),
            record {
              id = λ r. refl;
              status = λ r. ground (arith, failure, last);
              attempts = λ r. refl;
              ended = λ r. refl;
              retry = λ r p. ground (arith, p, failure, last);
              delivery = λ r p. ground (arith, p, failure, last);
            },
          )
        ]
  ]

-- The claimed event is there, at the time of the claim.
claim-present :
    (locked : ℕ → Bool) (now db_now : ℕ) (e : WebhookEventRow) (rows rows₁ : List WebhookEventRow)
    → claim_next_webhook_event locked now db_now rows ≡ some (e, rows₁)
    → (1 ≤ count_if (λ (r : WebhookEventRow). r.id == e.id) rows)
      × (lease e ≡ now)
      × (rows₁ ≡ update_where (λ (r : WebhookEventRow). r.id == e.id) (claimed now db_now) rows)
unfolding claim_next_webhook_event
claim-present locked now db_now e rows rows₁ taken =
    by_batch (first is_due_before 1 (is_due locked now) rows) taken (
      All-first (λ (r : WebhookEventRow). 1 ≤ count_if (λ (s : WebhookEventRow). s.id == r.id) rows)
        (λ (r : WebhookEventRow). 1 ≤ count_if (λ (s : WebhookEventRow). s.id == r.id) rows)
        is_due_before 1 (is_due locked now) rows (λ r _ h. h) (All-present rows))
  where
    by_batch :
        (batch : List WebhookEventRow)
        → claim_first now db_now batch rows ≡ some (e, rows₁)
        → All
            (λ (r : WebhookEventRow). 1 ≤ count_if (λ (s : WebhookEventRow). s.id == r.id) rows)
            batch
        → (1 ≤ count_if (λ (r : WebhookEventRow). r.id == e.id) rows)
          × (lease e ≡ now)
          × (rows₁ ≡ update_where (λ (r : WebhookEventRow). r.id == e.id) (claimed now db_now) rows)
    by_batch [] h all = cc
    by_batch (x ∷ _) h (there, _) =
        let own =
          λ (i : ℕ). update_where (λ (r : WebhookEventRow). r.id == i) (claimed now db_now) rows in
        let same : (record (claimed now db_now x) { updated_at = x.updated_at }, own x.id)
            ≡ (e, rows₁) =
          cc h in
        subst
          (λ (y : WebhookEventRow × List WebhookEventRow).
            (1 ≤ count_if (λ (r : WebhookEventRow). r.id == y.0.id) rows)
            × (lease y.0 ≡ now)
            × (y.1 ≡ own y.0.id))
          same (there, refl, refl)

transition_once :
    (p : WebhookEventRow → Bool) (g : WebhookEventRow → WebhookEventRow)
    (rows : List WebhookEventRow)
    → count_if p rows ≡ 1
    → transition webhook_event_lease_lost p g rows ≡ (ok tt, update_where p g rows)
transition_once p g rows one = ground (arith, one)

-- A run of a worker that claims an event, with nothing else in between, on a queue in which no event
-- is there twice: it reports no error, and it changes that event only. The event is delivered when
-- the endpoint answers with a success. It waits for another attempt, in half a minute after
-- the first one and in two minutes otherwise, when the network failed, or the endpoint answers 429
-- or with an error of its own, and the policy leaves an attempt. It has failed in all other cases,
-- also when the request could not be built. The
-- attempt is counted, and the lease is given back.
pub run_once-Settled :
    (policy : WorkerPolicy) (locked : ℕ → Bool) (answer : WebhookEventRow → Answer) (now db_now : ℕ)
    (e : WebhookEventRow) (rows rows₁ : List WebhookEventRow)
    → ((i : ℕ) → count_if (λ (r : WebhookEventRow). r.id == i) rows ≤ 1)
    → claim_next_webhook_event locked now db_now rows ≡ some (e, rows₁)
    → (f : WebhookEventRow → WebhookEventRow) × (run_once policy locked answer
          (λ d. d)
          now
          db_now
          rows
        ≡ ((true, ok tt), update_where (λ (r : WebhookEventRow). r.id == e.id) f rows))
      × Settled policy now db_now e (answer e) f
unfolding run_once
run_once-Settled policy locked answer now db_now e rows rows₁ keys taken =
    let (there, held, changed) = claim-present locked now db_now e rows rows₁ taken in
    let (g, settled, spec) = settle-Settled policy now db_now e (answer e) rows₁ in
    let (counted, same) = settled-rows e.id now db_now g rows in
    let own = λ (r : WebhookEventRow). r.id == e.id in
    let after = update_where own (claimed now db_now) rows in
    let once =
      transition_once (holds_lease e.id now) g after (omega (arith, counted, there, keys e.id)) in
    let result : settle policy now db_now e (send_once (answer e)) rows₁
        ≡ (ok tt, update_where own (λ r. g (claimed now db_now r)) rows) =
      settled
      ∙ ap₂
          (λ (at : ℕ) (rs : List WebhookEventRow).
            transition webhook_event_lease_lost (holds_lease e.id at) g rs)
          held changed
      ∙ once
      ∙ ap (λ (rs : List WebhookEventRow). (ok tt, rs)) same in
    ((λ r. g (claimed now db_now r)), ground (arith, taken, result), spec)

-- ===== src/Webhook/Attempts.antt =====
-- internal/webhook/worker.go, internal/store/webhook.go: how often an event is attempted.
use authara.Prelude.{
  ℕ, ◌+◌, ◌≤◌, ◌<◌, ◌≡◌, refl, subst, Bool, true, false, ◌&&◌, List, [], ◌∷◌, ◌++◌, arith, any,
  filter, ltb, if◌then◌else◌, All, All-imp, All-both, All-any, All-append, All-split, All-filter,
  All-update,
}
use authara.Store.Queue.{first}
use authara.Store.Sessions.{update_where}
use authara.Store.Webhooks.{
  WebhookEventRow, status_eq, pending, processing, holds_lease, mark_webhook_event_delivered,
  mark_webhook_event_failed, requeue_webhook_event,
}
use authara.Webhook.Worker.{WorkerPolicy, lease, settle, delivery_retry_delay}
use authara.Webhook.Sender.{Delivery, sent, unsent}
use authara.Webhook.Steps.{Queue}

module _ (max id n : ℕ) where
  -- A row of the event: it was attempted so often, and no more than it may be.
  abbrev pub RowOk : ℕ → WebhookEventRow → Type 0
  RowOk next_id e =
      e.id ≡ id
      → (e.attempt_count ≡ n)
        × (e.id < next_id)
        × (n ≤ max)
        × (status_eq e.status pending ≡ true → n < max)

  -- A worker whose lease is good has a copy with the same number of attempts.
  abbrev pub HeldOk : List WebhookEventRow → WebhookEventRow → Type 0
  HeldOk rows h = h.id ≡ id → any (holds_lease id (lease h)) rows ≡ true → h.attempt_count ≡ n

  pub record Counted (q : Queue) : Type 0 where
    pub within : n ≤ max
    pub unmade : q.next_id ≤ id → n ≡ 0
    pub rows_ok : All (RowOk q.next_id) q.rows
    pub held_ok : All (HeldOk q.rows) q.held

-- A change that ends leases gives none.
any-update :
    (id at : ℕ) (p : WebhookEventRow → Bool) (f : WebhookEventRow → WebhookEventRow)
    (rows : List WebhookEventRow)
    → ((e : WebhookEventRow) → status_eq (f e).status processing ≡ false)
    → any (holds_lease id at) (update_where p f rows) ≡ true
    → any (holds_lease id at) rows ≡ true
unfolding any
any-update id at p f [] h held = held
any-update id at p f (e ∷ rows) h held = ground (arith, h e, any-update id at p f rows h)

any-filter :
    (p q : WebhookEventRow → Bool) (rows : List WebhookEventRow)
    → any p (filter q rows) ≡ true
    → any p rows ≡ true
unfolding any filter
any-filter p q [] h = h
any-filter p q (e ∷ rows) h = ground (arith, h, any-filter p q rows)

module _ (max id n : ℕ) where
  -- The rows change where a test says so, and no lease is given.
  pub update-Counted :
      (rows held : List WebhookEventRow) (next_id : ℕ) (p : WebhookEventRow → Bool)
      (f : WebhookEventRow → WebhookEventRow)
      → ((e : WebhookEventRow) → status_eq (f e).status processing ≡ false)
      → ((e : WebhookEventRow)
          → p e ≡ true
          → any p rows ≡ true
          → RowOk max id n next_id e
          → RowOk max id n next_id (f e))
      → Counted max id n (record { rows = rows; held = held; next_id = next_id })
      → Counted max id n (record { rows = update_where p f rows; held = held; next_id = next_id })
  update-Counted rows held next_id p f ends changed c = record {
    within = c.within;
    unmade = c.unmade;
    rows_ok =
        All-update (λ e. RowOk max id n next_id e × (p e ≡ true → any p rows ≡ true))
          (RowOk max id n next_id) p f rows (λ e here h. changed e here (h.1 here) h.0)
          (λ e _ h. h.0)
          (All-both (RowOk max id n next_id) (λ e. p e ≡ true → any p rows ≡ true) rows c.rows_ok
            (All-any p rows));
    held_ok =
        All-imp (HeldOk max id n rows) (HeldOk max id n (update_where p f rows)) held
          (λ h ok own good. ok own (any-update id (lease h) p f rows ends good)) c.held_ok;
  }

  pub filter-Counted :
      (q : Queue) (p : WebhookEventRow → Bool)
      → Counted max id n q
      → Counted max id n (record q { rows = filter p q.rows })
  filter-Counted q p c = record {
    within = c.within;
    unmade = c.unmade;
    rows_ok =
        All-filter (RowOk max id n q.next_id) (RowOk max id n q.next_id) p q.rows (λ e _ h. h)
          c.rows_ok;
    held_ok =
        All-imp (HeldOk max id n q.rows) (HeldOk max id n (filter p q.rows)) q.held
          (λ h ok own good. ok own (any-filter (holds_lease id (lease h)) p q.rows good)) c.held_ok;
  }

  -- A worker lets go of its copy.
  pub released-Counted :
      (rows before after : List WebhookEventRow) (next_id : ℕ) (e : WebhookEventRow)
      → Counted max id n (record { rows = rows; held = before ++ e ∷ after; next_id = next_id })
      → HeldOk max id n rows e
        × Counted max id n (record { rows = rows; held = before ++ after; next_id = next_id })
  released-Counted rows before after next_id e c =
      let (first, (own, last)) = All-split (HeldOk max id n rows) before (e ∷ after) c.held_ok in
      (
        own,
        record {
          within = c.within;
          unmade = c.unmade;
          rows_ok = c.rows_ok;
          held_ok = All-append (HeldOk max id n rows) before after first last;
        },
      )

  pub settle-Counted :
      (rows before after : List WebhookEventRow) (next_id : ℕ) (e : WebhookEventRow)
      (policy : WorkerPolicy) (now db_now : ℕ) (d : Delivery)
      → policy.max_delivery_attempts ≤ max
      → Counted max id n (record { rows = rows; held = before ++ e ∷ after; next_id = next_id })
      → Counted max id n (record {
        rows = (settle policy now db_now e d rows).1;
        held = before ++ after;
        next_id = next_id;
      })
  unfolding settle mark_webhook_event_delivered mark_webhook_event_failed requeue_webhook_event
  settle-Counted rows before after next_id e policy now db_now sent allowed c =
      update-Counted rows (before ++ after) next_id (holds_lease e.id (lease e)) _ (λ r. refl)
        (λ r here _ ok own. let h = ok own in (h.0, h.1, h.2, λ p. ground arith))
        (released-Counted rows before after next_id e c).1
  settle-Counted rows before after next_id e policy now db_now (unsent retryable error) allowed c =
      by_test (retryable && ltb e.attempt_count policy.max_delivery_attempts) refl
    where
      again :
          (retryable && ltb e.attempt_count policy.max_delivery_attempts) ≡ true
          → (r : WebhookEventRow) → holds_lease e.id (lease e) r ≡ true
          → any (holds_lease e.id (lease e)) rows ≡ true
          → r.id ≡ id
          → n < max
      again test r here there own =
          let same : e.id ≡ id = ground (arith, here, own) in
          let count : e.attempt_count ≡ n =
            (released-Counted rows before after next_id e c).0 same
              (subst (λ i. any (holds_lease i (lease e)) rows ≡ true) same there) in
          ground (arith, test, count, allowed)

      by_test :
          (b : Bool)
          → (retryable && ltb e.attempt_count policy.max_delivery_attempts) ≡ b
          → Counted max id n (record {
            rows =
                ((if b
                    then requeue_webhook_event e.id
                        (lease e)
                        error
                        (now + delivery_retry_delay e.attempt_count)
                        db_now
                    else mark_webhook_event_failed e.id (lease e) error db_now)
                  rows).1;
            held = before ++ after;
            next_id = next_id;
          })
      by_test true test =
          update-Counted rows (before ++ after) next_id (holds_lease e.id (lease e)) _ (λ r. refl)
            (λ r here there ok own.
              let h = ok own in (h.0, h.1, h.2, λ p. again test r here there own))
            (released-Counted rows before after next_id e c).1
      by_test false test =
          update-Counted rows (before ++ after) next_id (holds_lease e.id (lease e)) _ (λ r. refl)
            (λ r here _ ok own. let h = ok own in (h.0, h.1, h.2, λ p. ground arith))
            (released-Counted rows before after next_id e c).1

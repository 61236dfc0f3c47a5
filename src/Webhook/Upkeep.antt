-- ===== src/Webhook/Upkeep.antt =====
-- internal/webhook/worker.go: reapStale ends, and leaves no stale event.
use authara.Prelude.{
  ℕ, zero, suc, ◌+◌, ◌-◌, ◌≤◌, ◌<◌, ◌≡◌, refl, Option, some, Bool, ◌&&◌, List, [], ◌∷◌, arith,
  count_if, Bool-cases, inl, inr, ltb, if◌then◌else◌, ◌==◌,
}
use authara.Store.Queue.{ReapResult, first, is_among}
use authara.Store.Queue.Batches.{IsKey, first-leaves, update-IsKey}
use authara.Store.Webhooks.{
  WebhookEventRow, status_eq, pending, failed, is_stale, is_staler, reaped,
  reap_stale_webhook_events,
}
use authara.Webhook.Worker.{WorkerPolicy, add, total, nothing_reaped, reap_batches, reap_stale}

abbrev key : WebhookEventRow → ℕ
key e = e.id

-- Each event that is reaped is counted once.
counted_once :
    (found : WebhookEventRow → Bool) (next max at : ℕ) (rows : List WebhookEventRow)
    → count_if (λ e. found e && status_eq (reaped next max at e).status pending) rows
        + count_if (λ e. found e && status_eq (reaped next max at e).status failed) rows
      ≡ count_if found rows
unfolding count_if
counted_once found next max at [] = refl
counted_once found next max at (e ∷ rows) = ground (arith, counted_once found next max at rows)

module _ (policy : WorkerPolicy) (locked : ℕ → Bool) (now db_now : ℕ) where
  abbrev stale : WebhookEventRow → Bool
  stale = is_stale locked (now - policy.processing_stale_after)

  abbrev reap : List WebhookEventRow → ReapResult × List WebhookEventRow
  reap =
      reap_stale_webhook_events locked (now - policy.processing_stale_after) now
        policy.max_delivery_attempts policy.maintenance_batch_size db_now

  -- One batch.
  reap-leaves :
      (rows : List WebhookEventRow)
      → IsKey key rows
      → IsKey key (reap rows).1
        × (total policy (reap rows).0 ≡ (
            if ltb policy.maintenance_batch_size (count_if stale rows)
            then policy.maintenance_batch_size
            else count_if stale rows))
        × (count_if stale (reap rows).1 + total policy (reap rows).0 ≡ count_if stale rows)
  unfolding reap_stale_webhook_events
  reap-leaves rows keys =
      let f = reaped now policy.max_delivery_attempts db_now in
      let found = is_among key (first is_staler policy.maintenance_batch_size stale rows) in
      let (full, left) =
        first-leaves key is_staler policy.maintenance_batch_size stale f rows keys
          (λ e. ground arith) in
      let once = counted_once found now policy.max_delivery_attempts db_now rows in
      (
        update-IsKey key found f rows (λ e. refl) keys,
        omega (arith, once, full),
        omega (arith, once, left),
      )

  -- What the batches leave.
  abbrev pub Reaped :
      ReapResult → List WebhookEventRow → Option (ReapResult × List WebhookEventRow) → Type 0
  Reaped so_far rows result =
      (done : ReapResult) × (rows' : List WebhookEventRow) × (result ≡ some (done, rows'))
      × (count_if stale rows' ≡ 0)
      × (total policy done ≡ total policy so_far + count_if stale rows)

  batches-Reaped :
      (fuel : ℕ) (so_far : ReapResult) (rows : List WebhookEventRow)
      → IsKey key rows
      → 1 ≤ policy.maintenance_batch_size
      → count_if stale rows < fuel
      → Reaped so_far rows (reap_batches policy locked now db_now fuel so_far rows)
  unfolding reap_batches
  batches-Reaped zero so_far rows keys size enough = absurd (omega (arith, enough))
  batches-Reaped (suc fuel) so_far rows keys size enough =
      let (keys', full, left) = reap-leaves rows keys in
      elim (Bool-cases (ltb (total policy (reap rows).0) policy.maintenance_batch_size)) [
        | inl last ↦ (
          add policy so_far (reap rows).0,
          (reap rows).1,
          ground (arith, last),
          ground (arith, left, full, last),
          ground (arith, left, full, last),
        )
        | inr more ↦
            let (done, rows', e, none_left, sum) =
              batches-Reaped fuel (add policy so_far (reap rows).0) (reap rows).1 keys' size
                (ground (arith, left, full, more, size, enough)) in
            (done, rows', ground (arith, more, e), none_left, omega (arith, sum, left))
      ]

-- The upkeep of the queue comes to an end, when batches are not empty and no event is there twice:
-- afterwards no event is stale, other than those that others have locked, and the counts that it
-- returns add up to the number of the events that were.
pub reap_stale_terminates :
    (policy : WorkerPolicy) (locked : ℕ → Bool) (now db_now : ℕ) (rows : List WebhookEventRow)
    → ((i : ℕ) → count_if (λ (e : WebhookEventRow). e.id == i) rows ≤ 1)
    → 1 ≤ policy.maintenance_batch_size
    → let is_left = is_stale locked (now - policy.processing_stale_after) in
      (done : ReapResult) × (rows' : List WebhookEventRow) × (reap_stale policy locked now db_now
          rows
        ≡ some (done, rows'))
      × (count_if is_left rows' ≡ 0)
      × (done.retried + done.failed ≡ count_if is_left rows)
unfolding reap_stale
reap_stale_terminates policy locked now db_now rows keys size =
    let (done, rows', e, none_left, sum) =
      batches-Reaped policy locked now db_now
        (suc (count_if (is_stale locked (now - policy.processing_stale_after)) rows))
        (nothing_reaped policy) rows keys size (omega arith) in
    (done, rows', e, none_left, omega (arith, sum))

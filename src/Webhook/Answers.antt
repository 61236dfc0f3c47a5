-- ===== src/Webhook/Answers.antt =====
-- internal/webhook/worker.go, sender.go: what an answer of the endpoint does to the queue.
use authara.Prelude.{
  ℕ, ◌≤◌, ◌≡◌, refl, Bool, true, false, ◌&&◌, ◌||◌, List, [], ◌∷◌, arith, any, count_if, ◌==◌, ltb,
  leb, if◌then◌else◌, All, All-imp, Bool-cases, inl, inr,
}
use authara.Prelude.Text.{Text, text_eq}
use authara.Store.Sessions.{update_where}
use authara.Store.Webhooks.{
  WebhookEventRow, WebhookEventStatus, pending, delivered, failed, claimed, holds_lease,
}
use authara.Webhook.Sender.{
  Answer, unbuilt, unreachable, answered, sent, unsent, send_once, status_text, retry_reason,
  should_retry_reason,
}
use authara.Webhook.Worker.{WorkerPolicy}

-- What an answer means: delivered for a status of success; to be tried again when the request did
-- not arrive, and for a status of 429 or one of the server's errors.
abbrev pub is_success : Answer → Bool
is_success (answered status) = leb 200 status && ltb status 300
is_success a = false

abbrev pub is_temporary : Answer → Bool
is_temporary (unbuilt e) = false
is_temporary (unreachable e) = true
is_temporary (answered status) = status == 429 || (leb 500 status && ltb status 600)

abbrev pub outcome : WorkerPolicy → WebhookEventRow → Answer → WebhookEventStatus
outcome policy e a =
    if is_success a
    then delivered
    else if is_temporary a && ltb e.attempt_count policy.max_delivery_attempts
    then pending
    else failed

pub send_once-sent : (a : Answer) → is_success a ≡ true → send_once a ≡ sent
unfolding send_once
send_once-sent (unbuilt e) h = cc
send_once-sent (unreachable e) h = cc
send_once-sent (answered status) h = ground (arith, h)

retries :
    (status : ℕ)
    → should_retry_reason (retry_reason status)
      ≡ (status == 429 || (leb 500 status && ltb status 600))
unfolding retry_reason should_retry_reason text_eq any
retries status = ground arith

pub send_once-unsent :
    (a : Answer)
    → is_success a ≡ false
    → (error : Text) × (send_once a ≡ unsent (is_temporary a) error)
unfolding send_once retry_reason should_retry_reason text_eq any
send_once-unsent (unbuilt e) h = (_, refl)
send_once-unsent (unreachable e) h = (_, refl)
send_once-unsent (answered status) h = (status_text status, ground (arith, h, retries status))

pub All-present :
    (rows : List WebhookEventRow)
    → All (λ (r : WebhookEventRow). 1 ≤ count_if (λ (s : WebhookEventRow). s.id == r.id) rows) rows
unfolding count_if
All-present [] = tt
All-present (x ∷ rows) = (
  ground arith,
  All-imp (λ (r : WebhookEventRow). 1 ≤ count_if (λ (s : WebhookEventRow). s.id == r.id) rows) _
      rows (λ r h. ground (arith, h)) (All-present rows),
)

-- The claimed row is the one that holds the lease.
pub settled-rows :
    (id now db_now : ℕ) (g : WebhookEventRow → WebhookEventRow) (rows : List WebhookEventRow)
    → let own = λ (r : WebhookEventRow). r.id == id in
      let rows₁ = update_where own (claimed now db_now) rows in
      (count_if (holds_lease id now) rows₁ ≡ count_if own rows)
      × (update_where (holds_lease id now) g rows₁
          ≡ update_where own (λ r. g (claimed now db_now r)) rows)
unfolding count_if
settled-rows id now db_now g [] = (refl, refl)
settled-rows id now db_now g (r ∷ rows) =
    let (counted, same) = settled-rows id now db_now g rows in
    elim (Bool-cases (r.id == id)) [
      | inl own ↦ (ground (arith, own, counted), ground (arith, own, same))
      | inr other ↦ (ground (arith, other, counted), ground (arith, other, same))
    ]

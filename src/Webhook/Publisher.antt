-- ===== src/Webhook/Publisher.antt =====
-- internal/webhook/filter.go, queue.go: which events are queued.
use authara.Prelude.{ℕ, Option, none, some, Bool, true, List, [], ◌∷◌, any, if◌then◌else◌}
use authara.Prelude.Text.{Text, text_eq}
use authara.Store.Webhooks.{WebhookEventRow, create_webhook_event}

-- webhook.Envelope, of which the payload is the JSON.
pub record Envelope : Type 0 where
  pub id : ℕ
  pub event_type : Text
  pub payload : Text

-- QueuePublisher.Publish
unfoldable pub queue_publish : Envelope → ℕ → List WebhookEventRow → List WebhookEventRow
queue_publish e db_now rows = create_webhook_event e.id e.event_type e.payload db_now rows

-- The events that the policy lists, or those of the set; an empty list or set is all of them.
abbrev allows : List Text → Text → Bool
allows [] event_type = true
allows (e ∷ es) event_type = any (text_eq event_type) (e ∷ es)

-- FilteringPublisher.Publish, with a queue inside.
unfoldable pub filtering_publish :
    Option (List Text) → List Text → Envelope → ℕ → List WebhookEventRow → List WebhookEventRow
unfolding queue_publish
filtering_publish none enabled e db_now rows =
    if allows enabled e.event_type then queue_publish e db_now rows else rows
filtering_publish (some policy) enabled e db_now rows =
    if allows policy e.event_type then queue_publish e db_now rows else rows

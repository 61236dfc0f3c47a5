-- ===== src/Store/Webhooks.antt =====
-- internal/store/webhook.go: the queue of webhook events.
use authara.Prelude.{
  ℕ, ◌+◌, Option, none, some, Bool, true, false, not, ◌&&◌, ◌||◌, List, [], ◌∷◌, ◌++◌, filter,
  count_if, ◌==◌, ltb, leb, if◌then◌else◌,
}
use authara.Prelude.Text.{Text, codes}
use authara.Store.Exec.{Result, webhook_event_lease_lost}
use authara.Store.Queue.{ReapResult, first, is_among, transition}
use authara.Store.Sessions.{update_where}

pub data WebhookEventStatus : Type 0 where
  pending processing delivered failed : WebhookEventStatus

abbrev pub status_eq : WebhookEventStatus → WebhookEventStatus → Bool
status_eq pending pending = true
status_eq processing processing = true
status_eq delivered delivered = true
status_eq failed failed = true
status_eq _ _ = false

-- domain.WebhookEvent: the row, of which `event_type` and `payload` are what is sent.
pub record WebhookEventRow : Type 0 where
  pub id : ℕ
  pub created_at : ℕ
  pub updated_at : ℕ
  pub event_type : Text
  pub payload : Text
  pub status : WebhookEventStatus
  pub attempt_count : ℕ
  pub next_attempt_at : ℕ
  pub processing_started_at : Option ℕ
  pub last_error : Option Text
  pub delivered_at : Option ℕ

-- The defaults of the table, at the database's time.
unfoldable pub create_webhook_event :
    ℕ → Text → Text → ℕ → List WebhookEventRow → List WebhookEventRow
create_webhook_event id event_type payload db_now rows =
    rows
    ++ record {
      id = id;
      created_at = db_now;
      updated_at = db_now;
      event_type = event_type;
      payload = payload;
      status = pending;
      attempt_count = 0;
      next_attempt_at = db_now;
      processing_started_at = none;
      last_error = none;
      delivered_at = none;
    }
      ∷ []

abbrev is_later : ℕ → ℕ → Bool → Bool
is_later a b or_else = ltb a b || (a == b && or_else)

-- ORDER BY next_attempt_at ASC, created_at ASC, id ASC
abbrev pub is_due_before : WebhookEventRow → WebhookEventRow → Bool
is_due_before a b =
    is_later a.next_attempt_at b.next_attempt_at
      (is_later a.created_at b.created_at (leb a.id b.id))

-- FOR UPDATE SKIP LOCKED leaves out the rows that other transactions have locked.
abbrev pub is_due : (ℕ → Bool) → ℕ → WebhookEventRow → Bool
is_due locked now e = status_eq e.status pending && leb e.next_attempt_at now && not (locked e.id)

abbrev pub claimed : ℕ → ℕ → WebhookEventRow → WebhookEventRow
claimed now db_now e = record e {
  status = processing;
  attempt_count = e.attempt_count + 1;
  processing_started_at = some now;
  updated_at = db_now;
}

abbrev pub claim_first :
    ℕ
    → ℕ
    → List WebhookEventRow
    → List WebhookEventRow
    → Option (WebhookEventRow × List WebhookEventRow)
claim_first now db_now [] rows = none
claim_first now db_now (e ∷ _) rows = some (
  record (claimed now db_now e) { updated_at = e.updated_at },
  update_where (λ (r : WebhookEventRow). r.id == e.id) (claimed now db_now) rows,
)

-- `none` where it returns ErrorWebhookEventNotFound. The copy that is returned is from before the
-- update, with what the code changes on it.
unfoldable pub claim_next_webhook_event :
    (ℕ → Bool) → ℕ → ℕ → List WebhookEventRow → Option (WebhookEventRow × List WebhookEventRow)
claim_next_webhook_event locked now db_now rows =
    claim_first now db_now (first is_due_before 1 (is_due locked now) rows) rows

abbrev pub opt_eq : Option ℕ → ℕ → Bool
opt_eq none n = false
opt_eq (some m) n = m == n

-- WHERE id = … AND status = 'processing' AND processing_started_at = …
abbrev pub holds_lease : ℕ → ℕ → WebhookEventRow → Bool
holds_lease id lease e =
    e.id == id && status_eq e.status processing && opt_eq e.processing_started_at lease

abbrev pub Statement : Type 0
Statement = List WebhookEventRow → Result (Unit {0}) × List WebhookEventRow

-- What the three statements set.
abbrev pub as_delivered : ℕ → ℕ → WebhookEventRow → WebhookEventRow
as_delivered delivered_at db_now e = record e {
  status = delivered;
  delivered_at = some delivered_at;
  processing_started_at = none;
  last_error = none;
  updated_at = db_now;
}

abbrev pub as_failed : Text → ℕ → WebhookEventRow → WebhookEventRow
as_failed last_error db_now e = record e {
  status = failed;
  processing_started_at = none;
  last_error = some last_error;
  updated_at = db_now;
}

abbrev pub as_requeued : Text → ℕ → ℕ → WebhookEventRow → WebhookEventRow
as_requeued last_error next_attempt_at db_now e = record e {
  status = pending;
  next_attempt_at = next_attempt_at;
  processing_started_at = none;
  last_error = some last_error;
  updated_at = db_now;
}

unfoldable pub mark_webhook_event_delivered : ℕ → ℕ → ℕ → ℕ → Statement
mark_webhook_event_delivered id lease delivered_at db_now =
    transition webhook_event_lease_lost (holds_lease id lease) (as_delivered delivered_at db_now)

unfoldable pub mark_webhook_event_failed : ℕ → ℕ → Text → ℕ → Statement
mark_webhook_event_failed id lease last_error db_now =
    transition webhook_event_lease_lost (holds_lease id lease) (as_failed last_error db_now)

unfoldable pub requeue_webhook_event : ℕ → ℕ → Text → ℕ → ℕ → Statement
requeue_webhook_event id lease last_error next_attempt_at db_now =
    transition webhook_event_lease_lost (holds_lease id lease)
      (as_requeued last_error next_attempt_at db_now)

-- processing_started_at <= …
abbrev is_at_most : Option ℕ → ℕ → Bool
is_at_most none t = false
is_at_most (some s) t = leb s t

abbrev pub is_stale : (ℕ → Bool) → ℕ → WebhookEventRow → Bool
is_stale locked stale_before e =
    status_eq e.status processing
    && is_at_most e.processing_started_at stale_before
    && not (locked e.id)

abbrev started : Option ℕ → ℕ
started none = 0
started (some s) = s

-- ORDER BY processing_started_at ASC, id ASC
abbrev pub is_staler : WebhookEventRow → WebhookEventRow → Bool
is_staler a b =
    is_later (started a.processing_started_at) (started b.processing_started_at) (leb a.id b.id)

abbrev pub reaped : ℕ → ℕ → ℕ → WebhookEventRow → WebhookEventRow
reaped next_attempt_at max_attempts db_now e =
    let spent = leb max_attempts e.attempt_count in
    record e {
      status = if spent then failed else pending;
      next_attempt_at = if spent then e.next_attempt_at else next_attempt_at;
      processing_started_at = none;
      last_error = some (codes "processing lease expired");
      updated_at = db_now;
    }

unfoldable pub reap_stale_webhook_events :
    (ℕ → Bool) → ℕ → ℕ → ℕ → ℕ → ℕ → List WebhookEventRow → ReapResult × List WebhookEventRow
reap_stale_webhook_events locked stale_before next_attempt_at max_attempts batch_size db_now rows =
    let stale = first is_staler batch_size (is_stale locked stale_before) rows in
    let found = is_among (λ (e : WebhookEventRow). e.id) stale in
    let reap = reaped next_attempt_at max_attempts db_now in
    (
      record {
        retried = count_if (λ e. found e && status_eq (reap e).status pending) rows;
        failed = count_if (λ e. found e && status_eq (reap e).status failed) rows;
      },
      update_where found reap rows,
    )

-- ORDER BY updated_at ASC, id ASC
abbrev is_older : WebhookEventRow → WebhookEventRow → Bool
is_older a b = is_later a.updated_at b.updated_at (leb a.id b.id)

abbrev pub is_expired : (ℕ → Bool) → ℕ → ℕ → WebhookEventRow → Bool
is_expired locked delivered_before failed_before e =
    ((status_eq e.status delivered && ltb e.updated_at delivered_before)
      || (status_eq e.status failed && ltb e.updated_at failed_before))
    && not (locked e.id)

unfoldable pub delete_expired_webhook_events :
    (ℕ → Bool) → ℕ → ℕ → ℕ → List WebhookEventRow → ℕ × List WebhookEventRow
delete_expired_webhook_events locked delivered_before failed_before batch_size rows =
    let oldest =
      first is_older batch_size (is_expired locked delivered_before failed_before) rows in
    let found = is_among (λ (e : WebhookEventRow). e.id) oldest in
    (count_if found rows, filter (λ e. not (found e)) rows)

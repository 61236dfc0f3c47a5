-- ===== src/Store/Outbox.antt =====
-- internal/email/queue.go, and the publishing of webhook events: rows that workers deliver later.
use authara.Prelude.{ℕ, ◌+◌, ◌*◌, Option, none, [], ◌∷◌, ◌++◌, if◌then◌else◌}
use authara.Prelude.Text.{Text, trim_space, is_empty}
use authara.Store.Rows.{EmailTemplate, EmailJob, pending, SecurityEvent, WebhookEvent}
use authara.Store.Exec.{Db, Exec, missing_email_recipient, raise, writes}

-- 72 hours.
abbrev pub default_delivery_window : ℕ
default_delivery_window = 72 * (3600 * 1000000000)

-- `CreateEmailJob` with a job that is pending, without its id. The data of the template is not
-- modelled: its keys are fixed at each call.
abbrev pub new_job : Option ℕ → Text → EmailTemplate → ℕ → ℕ → EmailJob
new_job challenge_id to_email template next_attempt_at delivery_deadline_at = record {
  id = 0;
  challenge_id = challenge_id;
  to_email = to_email;
  template = template;
  status = pending;
  attempt_count = 0;
  next_attempt_at = next_attempt_at;
  delivery_deadline_at = delivery_deadline_at;
  processing_started_at = none;
  failed_at = none;
  sent_at = none;
}

abbrev pub add_email : EmailJob → Db → Db
add_email job d =
    if d.is_template_enabled job.template
    then record d {
      emails = d.emails ++ record job { id = d.next_job_id } ∷ [];
      next_job_id = d.next_job_id + 1;
    }
    else d

unfoldable pub enqueue : Text → EmailTemplate → ℕ → Exec (Unit {0})
enqueue to_email template now =
    let recipient = trim_space to_email in
    if is_empty recipient
    then raise missing_email_recipient
    else writes (add_email (new_job none recipient template now (now + default_delivery_window)))

abbrev pub publish : WebhookEvent → Exec (Unit {0})
publish e = writes (λ d. record d { webhooks = d.webhooks ++ e ∷ [] })

abbrev pub record_event : SecurityEvent → Exec (Unit {0})
record_event e = writes (λ d. record d { security_events = d.security_events ++ e ∷ [] })

-- ===== src/Store/Emails.antt =====
-- internal/store/email.go: the queue of e-mails.
use authara.Prelude.{
  ℕ, ◌+◌, Option, none, some, Bool, true, false, not, ◌&&◌, List, [], ◌∷◌, ◌==◌, leb,
}
use authara.Store.Rows.{EmailJob, EmailJobStatus, pending, processing, sent, failed}
use authara.Store.Exec.{Result, email_job_lease_lost}
use authara.Store.Queue.{first, transition}
use authara.Store.Sessions.{update_where}

abbrev pub status_eq : EmailJobStatus → EmailJobStatus → Bool
status_eq pending pending = true
status_eq processing processing = true
status_eq sent sent = true
status_eq failed failed = true
status_eq _ _ = false

-- ORDER BY next_attempt_at ASC, created_at ASC: the rows stand in the order of their creation.
abbrev is_due_before : EmailJob → EmailJob → Bool
is_due_before a b = leb a.next_attempt_at b.next_attempt_at

abbrev pub is_due : (ℕ → Bool) → ℕ → EmailJob → Bool
is_due locked now j = status_eq j.status pending && leb j.next_attempt_at now && not (locked j.id)

abbrev pub claimed : ℕ → EmailJob → EmailJob
claimed now j = record j {
  status = processing;
  attempt_count = j.attempt_count + 1;
  processing_started_at = some now;
}

abbrev claim_first : ℕ → List EmailJob → List EmailJob → Option (EmailJob × List EmailJob)
claim_first now [] rows = none
claim_first now (j ∷ _) rows =
    some (claimed now j, update_where (λ (r : EmailJob). r.id == j.id) (claimed now) rows)

-- `none` where it returns ErrorEmailJobNotFound.
unfoldable pub claim_next_email_job :
    (ℕ → Bool) → ℕ → List EmailJob → Option (EmailJob × List EmailJob)
claim_next_email_job locked now rows =
    claim_first now (first is_due_before 1 (is_due locked now) rows) rows

abbrev is_at : Option ℕ → ℕ → Bool
is_at none n = false
is_at (some m) n = m == n

abbrev pub holds_lease : ℕ → ℕ → EmailJob → Bool
holds_lease id lease j =
    j.id == id && status_eq j.status processing && is_at j.processing_started_at lease

abbrev pub Statement : Type 0
Statement = List EmailJob → Result (Unit {0}) × List EmailJob

unfoldable pub mark_email_job_sent : ℕ → ℕ → ℕ → Statement
mark_email_job_sent id lease now = transition email_job_lease_lost (holds_lease id lease) (λ j.
    record j { status = sent; sent_at = some now; processing_started_at = none; failed_at = none })

unfoldable pub requeue_email_job : ℕ → ℕ → ℕ → Statement
requeue_email_job id lease next_attempt_at =
    transition email_job_lease_lost (holds_lease id lease) (λ j. record j {
      status = pending;
      next_attempt_at = next_attempt_at;
      processing_started_at = none;
      failed_at = none;
    })

unfoldable pub mark_email_job_failed : ℕ → ℕ → ℕ → Statement
mark_email_job_failed id lease failed_at =
    transition email_job_lease_lost (holds_lease id lease)
      (λ j. record j { status = failed; processing_started_at = none; failed_at = some failed_at })

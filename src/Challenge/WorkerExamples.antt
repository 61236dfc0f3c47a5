-- ===== src/Challenge/WorkerExamples.antt =====
-- internal/challenge/worker.go: an e-mail with a code, and the wait for another attempt.
use authara.Prelude.{ℕ, ◌≤◌, ◌≡◌, refl, none, some, List, ◌∷◌, arith, find?, any, ◌/◌}
use authara.Prelude.Text.{Text, codes}
use authara.Store.Rows.{EmailJob, password_reset_code, processing}
use authara.Store.Exec.{Db, ok}
use authara.Store.Challenges.{
  get_challenge_by_id, upsert_verification_code, get_verification_code_by_challenge_id,
}
use authara.Challenge.Codes.{
  clone_secrets, code_expires_at, generate_code_for_delivery, store_code, verify_code,
}
use authara.Challenge.Fixtures.{services, challenge, asked, found}
use authara.Challenge.Worker.{
  Send, delivered, email_retry_delay, process_job, verification_code_for_job,
}
use authara.Challenge.Delays.{email_retry_delay_bounds}
use authara.Challenge.Delivered.{process_job-accepted}

abbrev job : EmailJob
job = record {
  id = 3;
  challenge_id = some 7;
  to_email = codes "ada@example.org";
  template = password_reset_code;
  status = processing;
  attempt_count = 1;
  next_attempt_at = 90;
  delivery_deadline_at = 700;
  processing_started_at = some 100;
  failed_at = none;
  sent_at = none;
}

-- Each e-mail arrives.
abbrev send : Send
send _ _ = delivered

abbrev told : Db
told =
    upsert_verification_code
      (record { challenge_id = 7; expires_at = 400; code_hash = codes "s123456" }) asked

sends : process_job services send job 100 asked ≡ (delivered, told)
unfolding process_job verification_code_for_job generate_code_for_delivery store_code clone_secrets
    get_challenge_by_id find? any upsert_verification_code
sends = refl

process_job-accepted_example :
    (secret : Text) × (rest : List Text) × (clone_secrets services.secrets ≡ secret ∷ rest)
    × (send job (some (services.stable_code 7 3 secret)) ≡ delivered)
    × ((now : ℕ) (d : Db)
        → get_verification_code_by_challenge_id 7 d ≡ get_verification_code_by_challenge_id 7 told
        → now ≤ code_expires_at services challenge 100
        → verify_code services 7 (services.stable_code 7 3 secret) now d ≡ ok tt)
process_job-accepted_example =
    process_job-accepted services send job 100 7 challenge asked told refl refl found sends

-- The fifth attempt, with a base of thirty and a longest delay of three hundred.
email_retry_delay_bounds_example :
    (300 / 2 ≤ email_retry_delay 5 30 300 (λ n. n / 3))
    × (email_retry_delay 5 30 300 (λ n. n / 3) ≤ 300)
email_retry_delay_bounds_example = email_retry_delay_bounds 5 30 300 (λ n. n / 3) (λ n. omega arith)

-- ===== src/Challenge/Worker.antt =====
-- internal/challenge/worker.go: the worker that sends e-mails, with the codes of the challenges.
use authara.Prelude.{
  ℕ, zero, suc, ◌+◌, ◌-◌, ◌*◌, ◌/◌, Option, none, some, Bool, true, false, ◌||◌, [], ltb, leb,
  if◌then◌else◌,
}
use authara.Prelude.Text.{Text}
use authara.Store.Rows.{
  EmailJob, EmailTemplate, signup_code, password_reset_code, email_change_code,
}
use authara.Store.Pending.{Challenge, is_consumed, is_expired}
use authara.Store.Exec.{Db, World, Exec, Result, ok, err, verification_code_secret_not_configured}
use authara.Store.Emails.{
  Statement, claim_next_email_job, mark_email_job_sent, requeue_email_job, mark_email_job_failed,
}
use authara.Store.Challenges.{get_challenge_by_id, set_challenge_last_sent_at}
use authara.Challenge.Services.{ChallengeServices}
use authara.Challenge.Codes.{generate_code_for_delivery}

pub record WorkerConfig : Type 0 where
  pub job_max_attempts : ℕ
  pub retry_base_delay : ℕ
  pub retry_max_delay : ℕ

-- `for current := 1; current < attempt && nominal < maxDelay; current++`, with the iterations left.
unfoldable pub doubled : ℕ → ℕ → ℕ → ℕ
doubled max_delay zero nominal = nominal
doubled max_delay (suc left) nominal =
    let rest = doubled max_delay left (nominal * 2) in
    if leb max_delay nominal
    then nominal
    else if ltb (max_delay / 2) nominal
    then max_delay
    else rest

-- The random number below one takes a part of what it is given.
unfoldable pub email_retry_delay : ℕ → ℕ → ℕ → (ℕ → ℕ) → ℕ
unfolding doubled
email_retry_delay attempt base_delay max_delay part =
    let nominal = doubled max_delay (attempt - 1) base_delay in
    let capped = if ltb max_delay nominal then max_delay else nominal in
    let half = capped / 2 in half + part (capped - half)

-- email.FailureClass
pub data FailureClass : Type 0 where
  permanent transient : FailureClass

-- What processJob returns: no error, or one of a class.
pub data Delivery : Type 0 where
  delivered : Delivery
  undelivered : FailureClass → Delivery

-- A statement outside a transaction.
abbrev pub kept : {A : Type 0} → Db → Result A × World → Result A × Db
kept d (ok a, w) = (ok a, w.db)
kept d (err e, w) = (err e, d)

abbrev pub alone : {A : Type 0} → Exec A → Db → Result A × Db
alone m d = kept d (m (record { committed = d; db = d; revocations = [] }))

-- What is known of the code for an e-mail: the code, or the class of the error.
pub data Code : Type 0 where
  code : Text → Code
  no_code : FailureClass → Code

abbrev pub from_generated : Result Text × Db → Code × Db
from_generated (ok text, d) = (code text, d)
from_generated (err verification_code_secret_not_configured, d) = (no_code permanent, d)
from_generated (err e, d) = (no_code transient, d)

abbrev pub code_for : ChallengeServices → ℕ → ℕ → Db → Result Challenge → Code × Db
code_for s job_id now d (err e) = (no_code permanent, d)
code_for s job_id now d (ok c) =
    if is_consumed c || is_expired c now
    then (no_code permanent, d)
    else from_generated (alone (generate_code_for_delivery s c job_id now) d)

unfoldable pub verification_code_for_job : ChallengeServices → EmailJob → ℕ → Db → Code × Db
verification_code_for_job s job now d = elim job.challenge_id [
  | none ↦ (no_code permanent, d)
  | some id ↦ code_for s job.id now d (get_challenge_by_id id d)
]

abbrev pub needs_code : EmailTemplate → Bool
needs_code signup_code = true
needs_code password_reset_code = true
needs_code email_change_code = true
needs_code t = false

-- Rendering and SMTP, with the code if the template needs one.
abbrev pub Send : Type 0
Send = EmailJob → Option Text → Delivery

abbrev pub with_code : Send → EmailJob → Code × Db → Delivery × Db
with_code send job (code text, d) = (send job (some text), d)
with_code send job (no_code failure, d) = (undelivered failure, d)

unfoldable pub process_job : ChallengeServices → Send → EmailJob → ℕ → Db → Delivery × Db
unfolding verification_code_for_job
process_job s send job now d =
    if needs_code job.template
    then with_code send job (verification_code_for_job s job now d)
    else (send job none, d)

abbrev pub lease : EmailJob → ℕ
lease j = elim j.processing_started_at [ none ↦ 0 | some t ↦ t ]

-- A statement on the queue, outside a transaction.
abbrev on_queue : Statement → Db → Result (Unit {0}) × Db
on_queue statement d =
    let (result, emails) = statement d.emails in (result, record d { emails = emails })

abbrev note_sent : Option ℕ → ℕ → Result (Unit {0}) × Db → Result (Unit {0}) × Db
note_sent (some challenge_id) now (ok _, d) = (ok tt, set_challenge_last_sent_at challenge_id now d)
note_sent none now r = r
note_sent challenge now (err e, d) = (err e, d)

module _ (config : WorkerConfig) (part : ℕ → ℕ) where
  abbrev fail_job : EmailJob → ℕ → Db → Result (Unit {0}) × Db
  fail_job job now = on_queue (mark_email_job_failed job.id (lease job) now)

  abbrev pub next_attempt : EmailJob → ℕ → ℕ
  next_attempt job now =
      let at =
        now
        + email_retry_delay job.attempt_count config.retry_base_delay config.retry_max_delay part in
      if ltb job.delivery_deadline_at at then job.delivery_deadline_at else at

  -- What runOnce does with a job when its delivery has ended.
  unfoldable pub settle_job : EmailJob → ℕ → Delivery → Db → Result (Unit {0}) × Db
  unfolding email_retry_delay
  settle_job job now delivered d =
      note_sent job.challenge_id now (on_queue (mark_email_job_sent job.id (lease job) now) d)
  settle_job job now (undelivered permanent) d = fail_job job now d
  settle_job job now (undelivered transient) d =
      if leb config.job_max_attempts job.attempt_count
      then fail_job job now d
      else on_queue (requeue_email_job job.id (lease job) (next_attempt job now)) d

  abbrev pub deliver : ChallengeServices → Send → EmailJob → ℕ → Db → Result (Unit {0}) × Db
  deliver s send job now d =
      if leb job.delivery_deadline_at now
      then fail_job job now d
      else (let (delivery, d') = process_job s send job now d in settle_job job now delivery d')

  -- The first result says whether there was a job.
  unfoldable pub run_once :
      ChallengeServices → Send → (ℕ → Bool) → ℕ → Db → (Bool × Result (Unit {0})) × Db
  unfolding process_job settle_job
  run_once s send locked now d = elim (claim_next_email_job locked now d.emails) [
    | none ↦ ((false, ok tt), d)
    | some (job, emails) ↦
        let (result, d') = deliver s send job now (record d { emails = emails }) in
        ((true, result), d')
  ]

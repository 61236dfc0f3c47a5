-- ===== src/Challenge/Delivered.antt =====
-- internal/challenge/worker.go: the code in an e-mail that was delivered is the one that is accepted.
use authara.Prelude.{
  ℕ, ◌≤◌, ◌≡◌, refl, sym, ap, subst, ◌∙◌, some, Bool, true, false, List, [], ◌∷◌, arith, any, find?,
  ◌==◌, ◌||◌,
}
use authara.Prelude.Text.{Text, text_eq_refl}
use authara.Store.Rows.{EmailJob}
use authara.Store.Pending.{Challenge, is_consumed, is_expired, VerificationCode}
use authara.Store.Exec.{Db, ok}
use authara.Store.Challenges.{
  get_challenge_by_id, upsert, upsert_verification_code, get_verification_code_by_challenge_id,
}
use authara.Challenge.Services.{ChallengeServices}
use authara.Challenge.Codes.{
  clone_secrets, matches_verification_code_hash, code_expires_at, store_code, with_first_secret,
  generate_code_for_delivery, verify_code,
}
use authara.Challenge.Rows.{found-id}
use authara.Challenge.Worker.{
  delivered, Code, code, no_code, Send, alone, from_generated, needs_code, with_code,
  verification_code_for_job, process_job,
}

find?-upsert :
    (id : ℕ) (v : VerificationCode) (vs : List VerificationCode)
    → v.challenge_id ≡ id
    → find?
        (λ (x : VerificationCode). x.challenge_id == id)
        (upsert (λ (x : VerificationCode). x.challenge_id == id) v vs)
      ≡ some v
unfolding find? any
find?-upsert id v [] own = ground (arith, own)
find?-upsert id v (x ∷ vs) own = ground (arith, own, find?-upsert id v vs own)

module _ (s : ChallengeServices) where
  -- The row of a code.
  abbrev coded : Challenge → ℕ → Text → Text → VerificationCode
  coded c now k secret = record {
    challenge_id = c.id;
    expires_at = code_expires_at s c now;
    code_hash = s.hash_code k secret;
  }

  -- What is stored with a code that is made.
  Generated : Challenge → ℕ → ℕ → Text → Db → Db → Type 0
  Generated c job_id now k d d' =
      (secret : Text) × (rest : List Text) × (clone_secrets s.secrets ≡ secret ∷ rest)
      × (k ≡ s.stable_code c.id job_id secret)
      × (d' ≡ upsert_verification_code (coded c now k secret) d)

  generate-Generated :
      (c : Challenge) (job_id now : ℕ) (k : Text) (d d' : Db)
      → from_generated (alone (generate_code_for_delivery s c job_id now) d) ≡ (code k, d')
      → Generated c job_id now k d d'
  unfolding generate_code_for_delivery store_code Generated
  generate-Generated c job_id now k d d' made = by_secrets (clone_secrets s.secrets) refl made
    where
      by_secrets :
          (secrets : List Text)
          → clone_secrets s.secrets ≡ secrets
          → from_generated (alone (with_first_secret s secrets c job_id now) d) ≡ (code k, d')
          → Generated c job_id now k d d'
      by_secrets [] e made = cc
      by_secrets (secret ∷ rest) e made =
          let same : s.stable_code c.id job_id secret ≡ k = cc made in
          (
            secret,
            rest,
            e,
            sym same,
            subst (λ x. d' ≡ upsert_verification_code (coded c now x secret) d) same (cc made),
          )

  -- A stored code is accepted.
  verify-stored :
      (c : Challenge) (now now' : ℕ) (k secret : Text) (rest : List Text) (d : Db)
      → clone_secrets s.secrets ≡ secret ∷ rest
      → now' ≤ code_expires_at s c now
      → verify_code s c.id k now' (upsert_verification_code (coded c now k secret) d) ≡ ok tt
  unfolding verify_code get_verification_code_by_challenge_id upsert_verification_code
      matches_verification_code_hash any
  verify-stored c now now' k secret rest d e live =
      let row = coded c now k secret in
      ground (
        arith,
        e,
        live,
        find?-upsert c.id row d.verification_codes refl,
        text_eq_refl (s.hash_code k secret),
      )

-- The check of a code looks at the stored row alone.
verify-same_row :
    (s : ChallengeServices) (id now : ℕ) (k : Text) (d d' : Db)
    → get_verification_code_by_challenge_id id d ≡ get_verification_code_by_challenge_id id d'
    → verify_code s id k now d ≡ verify_code s id k now d'
unfolding verify_code
verify-same_row s id now k d d' e = ground (arith, e)

-- An e-mail with a code that was delivered has the code of its challenge and job under the first
-- secret, which is the same at each attempt of the job. In every database in which the code that is
-- stored for the challenge is still the one that the delivery left, the check of a code against the
-- stored one accepts it, until it or the challenge expires. Whether the challenge is consumed or has
-- attempts left is checked before that, and not here.
pub process_job-accepted :
    (s : ChallengeServices) (send : Send) (job : EmailJob) (now id : ℕ) (c : Challenge) (d d' : Db)
    → needs_code job.template ≡ true
    → job.challenge_id ≡ some id
    → get_challenge_by_id id d ≡ ok c
    → process_job s send job now d ≡ (delivered, d')
    → (secret : Text) × (rest : List Text) × (clone_secrets s.secrets ≡ secret ∷ rest)
      × (send job (some (s.stable_code id job.id secret)) ≡ delivered)
      × ((now' : ℕ) (d'' : Db)
          → get_verification_code_by_challenge_id id d''
            ≡ get_verification_code_by_challenge_id id d'
          → now' ≤ code_expires_at s c now
          → verify_code s id (s.stable_code id job.id secret) now' d'' ≡ ok tt)
unfolding process_job verification_code_for_job Generated
process_job-accepted s send job now id c d d' needs linked found done =
    by_use (is_consumed c || is_expired c now) refl
  where
    Accepted : Type 0
    Accepted =
        (secret : Text) × (rest : List Text) × (clone_secrets s.secrets ≡ secret ∷ rest)
        × (send job (some (s.stable_code id job.id secret)) ≡ delivered)
        × ((now' : ℕ) (d'' : Db)
            → get_verification_code_by_challenge_id id d''
              ≡ get_verification_code_by_challenge_id id d'
            → now' ≤ code_expires_at s c now
            → verify_code s id (s.stable_code id job.id secret) now' d'' ≡ ok tt)

    by_code :
        (r : Code × Db)
        → from_generated (alone (generate_code_for_delivery s c job.id now) d) ≡ r
        → with_code send job r ≡ (delivered, d')
        → Accepted
    by_code (no_code failure, e) made sent = cc
    by_code (code k, e) made sent =
        let (secret, rest, secrets, is_stable, stored) =
          generate-Generated s c job.id now k d e made in
        let own : c.id ≡ id = found-id id d c found in
        let same : k ≡ s.stable_code id job.id secret =
          is_stable ∙ ap (λ i. s.stable_code i job.id secret) own in
        let final : e ≡ d' = cc sent in
        (
          secret,
          rest,
          secrets,
          subst (λ x. send job (some x) ≡ delivered) same (cc sent),
          λ now' d'' kept live.
              verify-same_row s id now' (s.stable_code id job.id secret) d'' d' kept
              ∙ subst (λ i. verify_code s i (s.stable_code id job.id secret) now' d' ≡ ok tt) own
                  (subst (λ x. verify_code s c.id x now' d' ≡ ok tt) same
                    (subst (λ x. verify_code s c.id k now' x ≡ ok tt) (sym stored ∙ final)
                      (verify-stored s c now now' k secret rest d secrets live))),
        )

    by_use : (used : Bool) → (is_consumed c || is_expired c now) ≡ used → Accepted
    by_use true used = ground (arith, needs, linked, found, done, used)
    by_use false used =
        by_code (from_generated (alone (generate_code_for_delivery s c job.id now) d)) refl
          (ground (arith, needs, linked, found, done, used))

-- ===== src/Store/Exec.antt =====
-- internal/store/store.go and internal/store/tx/manager.go: the database, and methods that run in a
-- transaction. What the cache was told is not rolled back.
use authara.Prelude.{ℕ, ◌≡◌, refl, ap, ◌⊎◌, inl, inr, Bool, List}
use authara.Prelude.Text.{Text}
use authara.Store.Rows.{
  User, Session, RefreshToken, AuthenticationChallenge, Organization, OrganizationMembership,
  Passkey, SecurityEvent, EmailJob, EmailTemplate, WebhookEvent,
}
use authara.Store.Pending.{
  Challenge, VerificationCode, PendingSignupAction, PendingPasswordReset, PendingEmailChange,
  EmailVerificationTransaction, AuthProvider,
}

-- The sentinel errors of internal/store, internal/session and internal/organization.
pub data Error : Type 0 where
  user_not_found session_not_found refresh_token_not_found organization_not_found : Error
  organization_membership_not_found passkey_not_found authentication_challenge_not_found : Error
  invalid_session invalid_refresh_token refresh_token_reuse forbidden user_disabled : Error
  user_not_allowed recent_authentication_required authentication_challenge_invalid : Error
  authentication_method_unavailable unknown_role revocation_store_unavailable : Error
  personal_organization_immutable organization_actor_not_member : Error
  organization_actor_not_allowed last_organization_member last_organization_owner : Error
  organization_has_other_members invalid_organization_ownership_transfer : Error
  invalid_organization_role missing_email_recipient : Error
  organization_operation_forbidden invalid_organization_name : Error
  unique_violation foreign_key_violation : Error
  challenge_not_found challenge_already_consumed verification_code_not_found : Error
  pending_signup_action_not_found pending_password_reset_not_found : Error
  pending_email_change_not_found email_verification_transaction_not_found : Error
  auth_provider_not_found allowed_email_not_found email_job_not_found email_job_lease_lost : Error
  webhook_event_lease_lost : Error
  -- internal/challenge
  challenge_expired challenge_consumed too_many_attempts too_many_resends resend_too_soon : Error
  invalid_verification_code unsupported_challenge_purpose password_reset_unavailable : Error
  email_change_not_authorized email_already_in_use email_verification_invalid : Error
  verification_code_secret_not_configured : Error
  -- errRefreshTokenReuseDetected, with the row that the closure assigns beside it
  refresh_token_reuse_detected : RefreshToken → Error
  -- an error of a service that the program calls
  external : Text → Error
  -- errors.Join
  join : Error → Error → Error

pub data Result {ℓ} (A : Type ℓ) : Type ℓ where
  ok : A → Result A
  err : Error → Result A

pub record Db : Type 0 where
  pub users : List User
  pub sessions : List Session
  pub refresh_tokens : List RefreshToken
  pub authentication_challenges : List AuthenticationChallenge
  pub organizations : List Organization
  pub memberships : List OrganizationMembership
  pub platform_roles : List (ℕ × Text)
  pub passkeys : List Passkey
  pub security_events : List SecurityEvent
  pub emails : List EmailJob
  -- email_template_delivery_settings, where a missing row means enabled
  pub is_template_enabled : EmailTemplate → Bool
  pub challenges : List Challenge
  pub verification_codes : List VerificationCode
  pub pending_signup_actions : List PendingSignupAction
  pub pending_password_resets : List PendingPasswordReset
  pub pending_email_changes : List PendingEmailChange
  pub email_verification_transactions : List EmailVerificationTransaction
  pub auth_providers : List AuthProvider
  pub allowed_emails : List Text
  pub webhooks : List WebhookEvent
  pub next_id : ℕ
  -- the next ids of e-mail jobs and of challenges
  pub next_job_id : ℕ
  pub next_challenge_id : ℕ

-- A cut-off in the cache: access tokens issued up to the time are no longer good.
pub data Scope : Type 0 where
  session_scope user_scope : ℕ → Scope
  membership_scope : ℕ → ℕ → Scope

-- `committed` is what a rollback returns to; `db` is what the open transaction sees.
pub record World : Type 0 where
  pub committed : Db
  pub db : Db
  pub revocations : List (Scope × ℕ)

abbrev pub Exec : Type 0 → Type 0
Exec A = World → Result A × World

module _ {A : Type 0} where
  abbrev pub pure : A → Exec A
  pure a w = (ok a, w)

  abbrev pub raise : Error → Exec A
  raise e w = (err e, w)

  abbrev pub lift : Result A → Exec A
  lift r w = (r, w)

  -- A query.
  abbrev pub reads : (Db → Result A) → Exec A
  reads f w = (f w.db, w)

  -- `errors.Is` on a result, with the error that replaces it.
  abbrev pub or_else : Result A → Error → Result A
  or_else (ok a) e = ok a
  or_else (err _) e = err e

  -- `WithTransaction`: the body's error rolls the database back.
  abbrev pub settle : Result A → World → Result A × World
  settle (ok a) w = (ok a, record w { committed = w.db })
  settle (err e) w = (err e, record w { db = w.committed })

  unfoldable pub with_transaction : Exec A → Exec A
  with_transaction m w = let (r, w') = m w in settle r w'

-- A statement that changes the database.
abbrev pub writes : (Db → Db) → Exec (Unit {0})
writes f w = (ok tt, record w { db = f w.db })

-- A statement that may affect no row.
abbrev pub updated : Result Db → World → Result (Unit {0}) × World
updated (ok d) w = (ok tt, record w { db = d })
updated (err e) w = (err e, w)

abbrev pub updates : (Db → Result Db) → Exec (Unit {0})
updates f w = updated (f w.db) w

-- A lock: until it is granted other transactions commit. Each transaction takes its locks before
-- it writes, so that what they commit is all that it then sees.
abbrev pub waits : (Db → Db) → (Db → Result (Unit {0})) → Exec (Unit {0})
waits others found w = let d = others w.committed in (found d, record w { committed = d; db = d })

-- A query that locks its row and returns it as it is then: SELECT … FOR UPDATE.
abbrev pub reads_for_update : {A : Type 0} → (Db → Db) → (Db → Result A) → Exec A
reads_for_update others f w =
    let d = others w.committed in (f d, record w { committed = d; db = d })

-- A lock that is taken after the transaction wrote: what the others commit is seen beside its own.
abbrev pub waits_late : (Db → Db) → (Db → Result (Unit {0})) → Exec (Unit {0})
waits_late others found w =
    let d = others w.db in (found d, record w { committed = others w.committed; db = d })

module _ {A : Type 0} where
  abbrev pub returned : A × Db → World → Result A × World
  returned (a, d) w = (ok a, record w { db = d })

  -- A statement that returns a row.
  abbrev pub inserts : (Db → A × Db) → Exec A
  inserts f w = returned (f w.db) w

module _ {A B : Type 0} where
  abbrev pub branch : Result A → (A → Exec B) → (Error → Exec B) → Exec B
  branch (ok a) f g w = f a w
  branch (err e) f g w = g e w

  -- `if err != nil` with more than a return behind it.
  abbrev pub catch : Exec A → (A → Exec B) → (Error → Exec B) → Exec B
  catch m f g w = let (r, w') = m w in branch r f g w'

module _ {A B : Type 0} where
  abbrev pub continue : Result A → (A → Exec B) → Exec B
  continue (ok a) f w = f a w
  continue (err e) f w = (err e, w)

  infixl 5 ◌>>=◌
  abbrev pub ◌>>=◌ : Exec A → (A → Exec B) → Exec B
  ◌>>=◌ m f w = let (r, w') = m w in continue r f w'

module _ {B : Type 0} where
  infixl 5 ◌>>◌
  abbrev pub ◌>>◌ : Exec (Unit {0}) → Exec B → Exec B
  m >> n = m >>= λ _. n

module _ {A B : Type 0} where
  -- A chain that succeeds did so at each step.
  pub >>=-eq-ok :
      (m : Exec A) (f : A → Exec B) (w : World) {b : B}
      → ((m >>= f) w).0 ≡ ok b
      → (a : A) × ((m w).0 ≡ ok a) × ((f a (m w).1).0 ≡ ok b)
  >>=-eq-ok m f w {b} h = by_result (m w).0 refl h
    where
      by_result :
          (r : Result A)
          → (m w).0 ≡ r
          → (continue r f (m w).1).0 ≡ ok b
          → (a : A) × ((m w).0 ≡ ok a) × ((f a (m w).1).0 ≡ ok b)
      by_result (ok a) e q = (a, e, q)
      by_result (err x) e q = cc

  -- The same, with the world that the whole chain leaves.
  pub >>=-eq-both :
      (m : Exec A) (f : A → Exec B) (w : World) (a : A) → (m w).0 ≡ ok a → (m >>= f) w ≡ f a (m w).1
  >>=-eq-both m f w a e = ap (λ (r : Result A). continue r f (m w).1) e

module _ {A : Type 0} where
  pub with_transaction-eq-ok :
      (m : Exec A) (w : World) {a : A}
      → (with_transaction m w).0 ≡ ok a
      → ((m w).0 ≡ ok a) × ((with_transaction m w).1 ≡ record (m w).1 { committed = (m w).1.db })
  unfolding with_transaction
  with_transaction-eq-ok m w {a} h = by_result (m w).0 (m w).1 h
    where
      by_result :
          (r : Result A) (w' : World)
          → (settle r w').0 ≡ ok a
          → (r ≡ ok a) × ((settle r w').1 ≡ record w' { committed = w'.db })
      by_result (ok x) w' q = (q, refl)
      by_result (err x) w' q = cc

module _ {A : Type 0} where
  pub Result-cases : (r : Result A) → ((a : A) × (r ≡ ok a)) ⊎ ((e : Error) × (r ≡ err e))
  Result-cases (ok a) = inl (a, refl)
  Result-cases (err e) = inr (e, refl)

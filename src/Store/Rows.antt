-- ===== src/Store/Rows.antt =====
-- internal/domain: the rows of the tables. A UUID is a number, and `uuid.Nil` is 0; a time is a
-- number of nanoseconds; a pointer that may be nil is an `Option`.
use authara.Prelude.{ℕ, Option, Bool, leb, is_some}
use authara.Prelude.Text.{Text}

-- domain.AuthenticationMethod; the empty string is `none` of an `Option`.
pub data AuthenticationMethod : Type 0 where
  password passkey google apple microsoft : AuthenticationMethod
  other_method : Text → AuthenticationMethod

pub record User : Type 0 where
  pub id : ℕ
  pub email : Text
  pub username : Text
  pub disabled_at : Option ℕ
  pub email_verified_at : Option ℕ

pub record Session : Type 0 where
  pub id : ℕ
  pub user_id : ℕ
  pub active_organization_id : ℕ
  pub created_at : ℕ
  pub expires_at : ℕ
  pub revoked_at : Option ℕ
  pub authenticated_at : Option ℕ
  pub authentication_method : Option AuthenticationMethod
  pub user_agent : Text

pub record RefreshToken : Type 0 where
  pub id : ℕ
  pub created_at : ℕ
  pub session_id : ℕ
  pub organization_id : ℕ
  pub token_hash : Text
  pub expires_at : ℕ
  pub consumed_at : Option ℕ

pub record AuthenticationChallenge : Type 0 where
  pub id : ℕ
  pub user_id : ℕ
  pub session_id : ℕ
  pub created_at : ℕ
  pub expires_at : ℕ
  pub consumed_at : Option ℕ
  pub authentication_method : Option AuthenticationMethod

-- `AuthenticationChallenge.IsConsumed` and `IsExpired`.
abbrev pub is_consumed : AuthenticationChallenge → Bool
is_consumed c = is_some c.consumed_at

abbrev pub is_expired : AuthenticationChallenge → ℕ → Bool
is_expired c now = leb c.expires_at now

pub data OrganizationKind : Type 0 where
  personal team : OrganizationKind

pub data OrganizationRole : Type 0 where
  owner admin member : OrganizationRole

pub record Organization : Type 0 where
  pub id : ℕ
  pub name : Text
  pub kind : OrganizationKind
  pub created_by_user_id : Option ℕ

pub record OrganizationMembership : Type 0 where
  pub organization_id : ℕ
  pub user_id : ℕ
  pub role : OrganizationRole
  pub created_at : ℕ

pub record Passkey : Type 0 where
  pub id : ℕ
  pub user_id : ℕ
  pub restricted_at : Option ℕ

-- internal/securityevent: what a recorded event says of a session or a sign-in.
pub data EventKind : Type 0 where
  authentication_login authentication_reauthenticated : EventKind
  session_refresh session_refresh_token_reuse session_logout session_revoked : EventKind
  credential_password_reset account_email_changed : EventKind

pub data EventOutcome : Type 0 where
  success denied : EventOutcome

pub data ActorType : Type 0 where
  user_actor anonymous_actor system_actor : ActorType

pub data Reason : Type 0 where
  access_policy method_unavailable audience_forbidden user_disabled_reason : Reason
  refresh_token_reuse_reason security_containment user_requested : Reason
  other_reason : Text → Reason

pub record SecurityEvent : Type 0 where
  pub kind : EventKind
  pub outcome : EventOutcome
  pub reason_code : Option Reason
  pub actor_type : ActorType
  pub actor_user_id : Option ℕ
  pub user_id : Option ℕ
  pub session_id : Option ℕ
  pub organization_id : Option ℕ
  pub passkey_id : Option ℕ
  pub authentication_method : Option AuthenticationMethod

pub data EmailTemplate : Type 0 where
  new_sign_in organization_membership_removed organization_deleted : EmailTemplate
  organization_ownership_transferred organization_role_changed : EmailTemplate
  signup_code password_reset_code email_change_code password_changed : EmailTemplate
  email_changed_old_address email_changed_new_address : EmailTemplate

pub data EmailJobStatus : Type 0 where
  pending processing sent failed : EmailJobStatus

-- Of what is stored of a failure, the texts are left out.
pub record EmailJob : Type 0 where
  pub id : ℕ
  pub challenge_id : Option ℕ
  pub to_email : Text
  pub template : EmailTemplate
  pub status : EmailJobStatus
  pub attempt_count : ℕ
  pub next_attempt_at : ℕ
  pub delivery_deadline_at : ℕ
  pub processing_started_at : Option ℕ
  pub failed_at : Option ℕ
  pub sent_at : Option ℕ

-- internal/webhook: the envelopes that are published.
pub data WebhookEvent : Type 0 where
  organization_created organization_deleted_event : Organization → WebhookEvent
  membership_created membership_updated membership_deleted : OrganizationMembership → WebhookEvent
  user_updated : ℕ → WebhookEvent

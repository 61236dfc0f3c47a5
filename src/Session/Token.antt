-- ===== src/Session/Token.antt =====
-- internal/session/token: the claims of an access token, and the cut-offs that revoke them.
pub mod Keeps
use authara.Prelude.{ℕ, ◌==◌, Bool, false, ◌&&◌, ◌||◌, List, ◌∷◌, any, leb}
use authara.Prelude.Text.{Text}
use authara.Store.Rows.{OrganizationRole}
use authara.Store.Exec.{
  Exec, Scope, session_scope, user_scope, membership_scope, pure, raise,
  revocation_store_unavailable,
}
use authara.Session.Roles.{Roles}

pub data Audience : Type 0 where
  app admin operator : Audience
  other_audience : Text → Audience

-- What `GenerateWithEmailVerification` signs.
pub record AccessClaims : Type 0 where
  pub subject : ℕ
  pub session_id : ℕ
  pub org_id : ℕ
  pub org_role : OrganizationRole
  pub roles : Roles
  pub email_verified : Bool
  pub audience : Audience
  pub issued_at : ℕ

-- The cache behind `AccessTokenRevocations`: there is none, it does not answer, or it does.
pub data Cache : Type 0 where
  absent unreachable reachable : Cache

-- `revokeScope`. Of the cut-offs of one scope `SetMaxInt64` keeps the largest; here all are kept,
-- and `Check` looks for any that is late enough.
unfoldable pub revoke_scope : Cache → Scope → ℕ → Exec (Unit {0})
revoke_scope absent scope at = pure tt
revoke_scope unreachable scope at = raise revocation_store_unavailable
revoke_scope reachable scope at =
    λ w. pure tt (record w { revocations = (scope, at) ∷ w.revocations })

abbrev pub scope_eq : Scope → Scope → Bool
scope_eq (session_scope i) (session_scope j) = i == j
scope_eq (session_scope i) (user_scope j) = false
scope_eq (session_scope i) (membership_scope j k) = false
scope_eq (user_scope i) (session_scope j) = false
scope_eq (user_scope i) (user_scope j) = i == j
scope_eq (user_scope i) (membership_scope j k) = false
scope_eq (membership_scope i l) (session_scope j) = false
scope_eq (membership_scope i l) (user_scope j) = false
scope_eq (membership_scope i l) (membership_scope j k) = i == j && l == k

-- The cut-offs that `Check` compares with the time of issue, by scope.
unfoldable pub is_cut_off : List (Scope × ℕ) → Scope → ℕ → Bool
is_cut_off revocations scope issued_at =
    any (λ (r : Scope × ℕ). scope_eq r.0 scope && leb issued_at r.1) revocations

unfoldable pub is_revoked : List (Scope × ℕ) → AccessClaims → Bool
unfolding is_cut_off
is_revoked revocations c =
    is_cut_off revocations (session_scope c.session_id) c.issued_at
    || is_cut_off revocations (user_scope c.subject) c.issued_at
    || is_cut_off revocations (membership_scope c.subject c.org_id) c.issued_at

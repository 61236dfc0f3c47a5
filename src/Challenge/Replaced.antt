-- ===== src/Challenge/Replaced.antt =====
-- internal/challenge/password_reset.go: what a password reset leaves.
use authara.Prelude.{ℕ, ◌≡◌, sym, subst, ap, ◌∙◌, ◌⊎◌, true, arith}
use authara.Prelude.Text.{Text}
use authara.Store.Pending.{Challenge, password_reset, PendingPasswordReset}
use authara.Store.Exec.{
  Db, World, Result, ok, user_scope, password_reset_unavailable, pure, or_else, reads, waits,
  >>=-eq-ok, >>=-eq-both,
}
use authara.Store.Users.{lock_user}
use authara.Store.Sessions.{list_active_sessions_by_user_id}
use authara.Store.Challenges.{
  get_pending_password_reset_by_challenge_id, get_auth_provider_by_method_and_user_id,
  consume_challenge,
}
use authara.Session.Token.{absent, is_cut_off}
use authara.Challenge.Services.{ChallengeServices}
use authara.Challenge.Codes.{verify_code}
use authara.Challenge.Rows.{found-id}
use authara.Challenge.Steps.{locked}
use authara.Challenge.Verified.{verify-Accepted}
use authara.Challenge.PasswordReset.{
  require_password_reset_eligibility, execute_password_reset, complete_reset, pending_reset, marker,
  complete_password_reset_challenge,
}
use authara.Challenge.Executed.{IsReplaced, CutOff, execute-IsReplaced}

module _ (s : ChallengeServices) where
  eligibility-world :
      (user_id : ℕ) (email : Text) (w : World)
      → (require_password_reset_eligibility s user_id email w).1 ≡ w
  unfolding require_password_reset_eligibility
  eligibility-world user_id email w = ground arith

  -- What a reset that succeeds found, and leaves.
  record Completed (c : Challenge) (now : ℕ) (w w' : World) : Type 0 where
    action : PendingPasswordReset
    found :
        get_pending_password_reset_by_challenge_id c.id (s.others_holding c.id w.committed)
        ≡ ok action
    replaced : IsReplaced action w'.db
    cut_off : CutOff s action.user_id (marker s now) w'

  found-or_else :
      (id : ℕ) (d : Db) (action : PendingPasswordReset)
      → pending_reset s id d ≡ ok action
      → get_pending_password_reset_by_challenge_id id d ≡ ok action
  found-or_else id d action h = ground (arith, h)

  complete_reset-Completed :
      (c : Challenge) (now : ℕ) (w : World)
      → (complete_reset s c now w).0 ≡ ok tt
      → Completed c now w (complete_reset s c now w).1
  unfolding complete_reset
  complete_reset-Completed c now w h =
      let (action₀, e₀, h₀) = >>=-eq-ok (reads (pending_reset s c.id)) _ w h in
      let lock =
        waits (s.others_holding c.id)
          (λ d. or_else (lock_user action₀.user_id d) password_reset_unavailable) in
      let (u, e₁, h₁) = >>=-eq-ok lock _ w h₀ in
      let w₁ = (lock w).1 in
      let (action, e₂, h₂) = >>=-eq-ok (reads (pending_reset s c.id)) _ w₁ h₁ in
      let require = require_password_reset_eligibility s action.user_id c.email in
      let (user, e₃, h₃) = >>=-eq-ok require _ w₁ h₂ in
      let (replaced, cut) = execute-IsReplaced s user action now (marker s now) (require w₁).1 h₃ in
      let left : (complete_reset s c now w).1
          ≡ (execute_password_reset s user action now (marker s now) (require w₁).1).1 =
        ap (λ (y : Result (Unit {0}) × World). y.1)
          (>>=-eq-both (reads (pending_reset s c.id)) _ w action₀ e₀
            ∙ >>=-eq-both lock _ w tt e₁
            ∙ >>=-eq-both (reads (pending_reset s c.id)) _ w₁ action e₂
            ∙ >>=-eq-both require _ w₁ user e₃) in
      record {
        action = action;
        found = found-or_else c.id _ action e₂;
        replaced = subst (λ (y : World). IsReplaced action y.db) (sym left) replaced;
        cut_off = subst (λ (y : World). CutOff s action.user_id (marker s now) y) (sym left) cut;
      }

consume-IsReplaced :
    (action : PendingPasswordReset) (cid now : ℕ) (d d' : Db)
    → consume_challenge cid now d ≡ ok d'
    → IsReplaced action d
    → IsReplaced action d'
unfolding consume_challenge get_auth_provider_by_method_and_user_id list_active_sessions_by_user_id
consume-IsReplaced action cid now d d' e h = record {
  provider = h.provider;
  found = ground (arith, e, h.found);
  hash = h.hash;
  inactive = λ at. ground (arith, e, h.inactive at);
  withdrawn = ground (arith, e, h.withdrawn);
}

-- A password reset that succeeds was given the code of its challenge; in what is committed then, the
-- user of the pending reset has the password hash that the reset was asked for, no session of theirs
-- is active at any time, and no reset of theirs still waits; and unless there is no cache, all
-- access tokens of the user issued up to then are cut off.
pub complete_password_reset-Replaced :
    (s : ChallengeServices) (cid now : ℕ) (code : Text) (c : Challenge) (w : World)
    → (complete_password_reset_challenge s cid code now w).0 ≡ ok c
    → let w' = (complete_password_reset_challenge s cid code now w).1 in
      (action : PendingPasswordReset) × (get_pending_password_reset_by_challenge_id cid
          (s.others_holding cid (s.others w.committed))
        ≡ ok action)
      × (verify_code s cid code now (s.others w.committed) ≡ ok tt)
      × IsReplaced action w'.committed
      × ((s.cache ≡ absent)
          ⊎ (is_cut_off w'.revocations (user_scope action.user_id) (marker s now) ≡ true))
unfolding complete_password_reset_challenge
complete_password_reset-Replaced s cid now code c w h =
    let a =
      verify-Accepted s cid password_reset code now (λ x. pure x) (λ x. complete_reset s x now) c w
        h in
    let same : a.row ≡ a.prepared = cc a.before_ok in
    let own : a.prepared.id ≡ cid = cc (same, found-id cid (s.others w.committed) a.row a.found) in
    let done = complete_reset-Completed s a.prepared now (locked s w) a.after_ok in
    (
      done.action,
      subst
          (λ i.
            get_pending_password_reset_by_challenge_id i (s.others_holding i (s.others w.committed))
            ≡ ok done.action)
          own done.found,
      a.code_ok,
      subst (λ (y : World). IsReplaced done.action y.committed) (sym a.left)
          (consume-IsReplaced done.action cid now _ a.last a.consumed done.replaced),
      subst
          (λ (y : World).
            (s.cache ≡ absent)
            ⊎ (is_cut_off y.revocations (user_scope done.action.user_id) (marker s now) ≡ true))
          (sym a.left) done.cut_off,
    )

-- ===== src/Challenge/Create.antt =====
-- internal/challenge/service.go: how a challenge comes into being, with or without an action.
use authara.Prelude.{ℕ, ◌+◌, none, some}
use authara.Prelude.Text.{Text}
use authara.Store.Pending.{ChallengePurpose, Challenge}
use authara.Store.Exec.{Exec, pure, lift, inserts, with_transaction, ◌>>=◌, ◌>>◌}
use authara.Store.Challenges.{create_challenge}
use authara.Challenge.Services.{
  ChallengeServices, email_template_for_purpose, enqueue_challenge_email,
}

module _ (s : ChallengeServices) where
  -- The id is the database's.
  abbrev pub new_challenge : ChallengePurpose → Text → ℕ → ℕ → Challenge
  new_challenge purpose email now max_resends = record {
    id = 0;
    expires_at = now + s.policy.ttl;
    consumed_at = none;
    purpose = purpose;
    email = email;
    attempt_count = 0;
    max_attempts = s.policy.max_attempts;
    resend_count = 0;
    max_resends = max_resends;
    last_sent_at = none;
    minimum_resend_interval = some s.policy.minimum_resend_interval;
  }

  -- No code is ever sent for such a challenge.
  unfoldable pub create_opaque_challenge : ℕ → ChallengePurpose → Text → Exec ℕ
  unfolding with_transaction
  create_opaque_challenge now purpose email =
      with_transaction
        (do c ← inserts (create_challenge s.lower (new_challenge purpose email now 0)); pure c.id)

  unfoldable pub create_body : ChallengePurpose → Text → ℕ → (Challenge → Exec (Unit {0})) → Exec ℕ
  create_body purpose email now create_pending_action = do
    c ← inserts (create_challenge s.lower (new_challenge purpose email now s.policy.max_resends))
    create_pending_action c
    template ← lift (email_template_for_purpose purpose)
    enqueue_challenge_email c.id email template now c.expires_at
    pure c.id

  unfoldable pub create_challenge_for :
      ChallengePurpose → Text → ℕ → (Challenge → Exec (Unit {0})) → Exec ℕ
  unfolding with_transaction
  create_challenge_for purpose email now create_pending_action =
      with_transaction (create_body purpose email now create_pending_action)

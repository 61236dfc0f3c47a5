-- ===== src/Challenge/Codes.antt =====
-- internal/challenge/verification_code_service.go: the codes, which are stored as hashes.
use authara.Prelude.{ℕ, ◌+◌, Bool, List, [], ◌∷◌, any, ltb, if◌then◌else◌}
use authara.Prelude.Text.{Text, text_eq, is_empty}
use authara.Store.Pending.{Challenge}
use authara.Store.Exec.{
  Db, Exec, Result, ok, err, challenge_expired, invalid_verification_code,
  verification_code_secret_not_configured, pure, raise, writes, ◌>>◌,
}
use authara.Store.Challenges.{upsert_verification_code, get_verification_code_by_challenge_id}
use authara.Challenge.Services.{ChallengeServices}

-- Empty secrets are left out.
unfoldable pub clone_secrets : List Text → List Text
clone_secrets [] = []
clone_secrets (secret ∷ secrets) =
    let rest = clone_secrets secrets in if is_empty secret then rest else secret ∷ rest

module _ (s : ChallengeServices) where
  unfoldable pub matches_verification_code_hash : Text → Text → Bool
  matches_verification_code_hash code stored =
      any (λ (secret : Text). text_eq (s.hash_code code secret) stored) (clone_secrets s.secrets)

  -- The code lives no longer than its challenge.
  abbrev pub code_expires_at : Challenge → ℕ → ℕ
  code_expires_at c now =
      let expires_at = now + s.policy.verification_code_ttl in
      if ltb c.expires_at expires_at then c.expires_at else expires_at

  unfoldable pub store_code : Challenge → Text → Text → ℕ → Exec Text
  store_code c code secret now = do
    writes (
        upsert_verification_code (record {
          challenge_id = c.id;
          expires_at = code_expires_at c now;
          code_hash = s.hash_code code secret;
        }))
    pure code

  abbrev pub with_first_secret : List Text → Challenge → ℕ → ℕ → Exec Text
  with_first_secret [] c delivery_id now = raise verification_code_secret_not_configured
  with_first_secret (secret ∷ _) c delivery_id now =
      store_code c (s.stable_code c.id delivery_id secret) secret now

  unfoldable pub generate_code_for_delivery : Challenge → ℕ → ℕ → Exec Text
  unfolding store_code clone_secrets
  generate_code_for_delivery c delivery_id now =
      with_first_secret (clone_secrets s.secrets) c delivery_id now

  abbrev pub checked_against : Text → List Text → Text → Result (Unit {0})
  checked_against code [] stored = err verification_code_secret_not_configured
  checked_against code (secret ∷ secrets) stored =
      if matches_verification_code_hash code stored then ok tt else err invalid_verification_code

  unfoldable pub verify_code : ℕ → Text → ℕ → Db → Result (Unit {0})
  unfolding matches_verification_code_hash
  verify_code challenge_id code now d =
      elim (get_verification_code_by_challenge_id challenge_id d) [
        | err e ↦ err e
        | ok row ↦
            if ltb row.expires_at now
            then err challenge_expired
            else checked_against code (clone_secrets s.secrets) row.code_hash
      ]

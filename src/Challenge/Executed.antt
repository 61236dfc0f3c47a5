-- ===== src/Challenge/Executed.antt =====
-- internal/challenge/password_reset.go: what the statements of a password reset leave.
use authara.Prelude.{
  ℕ, ◌==◌, ◌≡◌, refl, ◌⊎◌, inl, inr, some, true, false, not, ◌&&◌, List, [], ◌∷◌, arith, find?, any,
  filter, Bool-cases,
}
use authara.Prelude.Text.{Text}
use authara.Store.Rows.{User}
use authara.Store.Pending.{PendingPasswordReset, by_password, AuthProvider}
use authara.Store.Exec.{Db, World, ok, user_scope, Result-cases}
use authara.Store.Sessions.{
  list_active_sessions_by_user_id, revoke_all_sessions_for_user, update_where,
}
use authara.Store.Challenges.{
  delete_pending_password_resets_by_user_id, get_auth_provider_by_method_and_user_id,
  update_password_hash, provider_eq, is_password_of,
}
use authara.Store.Outbox.{enqueue}
use authara.Session.Token.{Cache, absent, unreachable, reachable, revoke_scope, is_cut_off}
use authara.Session.Revocation.Effects.{no_active}
use authara.Challenge.Services.{ChallengeServices}
use authara.Challenge.PasswordReset.{execute_password_reset}

-- The user has no session, no password but the new one, and no reset that still waits.
pub record IsReplaced (action : PendingPasswordReset) (d : Db) : Type 0 where
  pub provider : AuthProvider
  pub found : get_auth_provider_by_method_and_user_id by_password action.user_id d ≡ ok provider
  pub hash : provider.password_hash ≡ some action.password_hash
  pub inactive : (at : ℕ) → list_active_sessions_by_user_id action.user_id at d ≡ []
  pub withdrawn :
      any (λ (a : PendingPasswordReset). a.user_id == action.user_id) d.pending_password_resets
      ≡ false

none_left :
    (user_id : ℕ) (rs : List PendingPasswordReset)
    → any
        (λ (a : PendingPasswordReset). a.user_id == user_id)
        (filter (λ (a : PendingPasswordReset). not (a.user_id == user_id)) rs)
      ≡ false
unfolding any filter
none_left user_id [] = refl
none_left user_id (x ∷ xs) = ground (arith, none_left user_id xs)

abbrev hashed : Text → AuthProvider → AuthProvider
hashed hash p = record p { password_hash = some hash }

find?-hashed :
    (user_id : ℕ) (hash : Text) (ps : List AuthProvider)
    → any (is_password_of user_id) ps ≡ true
    → (p : AuthProvider) × (find?
          (λ (p : AuthProvider). p.user_id == user_id && provider_eq p.provider by_password)
          (update_where (is_password_of user_id) (hashed hash) ps)
        ≡ some p)
      × (p.password_hash ≡ some hash)
unfolding find? any
find?-hashed user_id hash [] h = cc
find?-hashed user_id hash (x ∷ xs) h = elim (Bool-cases (is_password_of user_id x)) [
  | inl own ↦ (hashed hash x, ground (arith, own), refl)
  | inr other ↦
      let (p, found, set) = find?-hashed user_id hash xs (ground (arith, h, other)) in
      (p, ground (arith, found, other), set)
]

-- The tables that matter, as the statements leave them.
tables-IsReplaced :
    (action : PendingPasswordReset) (now : ℕ) (d d' e : Db)
    → update_password_hash action.user_id action.password_hash d ≡ ok d'
    → e.auth_providers ≡ d'.auth_providers
    → e.sessions ≡ (revoke_all_sessions_for_user action.user_id now d').sessions
    → e.pending_password_resets
      ≡ (delete_pending_password_resets_by_user_id action.user_id d').pending_password_resets
    → IsReplaced action e
unfolding update_password_hash get_auth_provider_by_method_and_user_id
    list_active_sessions_by_user_id revoke_all_sessions_for_user
    delete_pending_password_resets_by_user_id
tables-IsReplaced action now d d' e set providers sessions resets =
    elim (Bool-cases (any (is_password_of action.user_id) d.auth_providers)) [
      | inr missing ↦ ground (arith, set, missing)
      | inl there ↦
          let (p, found, hash) =
            find?-hashed action.user_id action.password_hash d.auth_providers there in
          record {
            provider = p;
            found = ground (arith, set, there, providers, found);
            hash = hash;
            inactive = λ at. rw sessions (no_active action.user_id now at d'.sessions);
            withdrawn = rw resets (none_left action.user_id d'.pending_password_resets);
          }
    ]

module _ (s : ChallengeServices) where
  -- What the statements of a reset that succeeds leave in the tables.
  execute-tables :
      (user : User) (action : PendingPasswordReset) (now at : ℕ) (w : World) (d : Db)
      → (execute_password_reset s user action now at w).0 ≡ ok tt
      → update_password_hash action.user_id action.password_hash w.db ≡ ok d
      → let e = (execute_password_reset s user action now at w).1.db in
        (e.auth_providers ≡ d.auth_providers)
        × (e.sessions ≡ (revoke_all_sessions_for_user action.user_id now d).sessions)
        × (e.pending_password_resets
            ≡ (delete_pending_password_resets_by_user_id action.user_id d).pending_password_resets)
  unfolding execute_password_reset revoke_scope enqueue revoke_all_sessions_for_user
      delete_pending_password_resets_by_user_id
  execute-tables user action now at w d h set = by_cache s.cache refl
    where
      by_cache :
          (c : Cache)
          → s.cache ≡ c
          → let e = (execute_password_reset s user action now at w).1.db in
            (e.auth_providers ≡ d.auth_providers)
            × (e.sessions ≡ (revoke_all_sessions_for_user action.user_id now d).sessions)
            × (e.pending_password_resets
                ≡ (delete_pending_password_resets_by_user_id action.user_id
                    d).pending_password_resets)
      by_cache absent c =
          (ground (arith, h, set, c), ground (arith, h, set, c), ground (arith, h, set, c))
      by_cache unreachable c = ground (arith, h, set, c)
      by_cache reachable c =
          (ground (arith, h, set, c), ground (arith, h, set, c), ground (arith, h, set, c))

  -- The cut-off is there, unless there is no cache.
  abbrev pub CutOff : ℕ → ℕ → World → Type 0
  CutOff user_id at w =
      (s.cache ≡ absent) ⊎ (is_cut_off w.revocations (user_scope user_id) at ≡ true)

  execute-CutOff :
      (user : User) (action : PendingPasswordReset) (now at : ℕ) (w : World) (d : Db)
      → (execute_password_reset s user action now at w).0 ≡ ok tt
      → update_password_hash action.user_id action.password_hash w.db ≡ ok d
      → CutOff action.user_id at (execute_password_reset s user action now at w).1
  unfolding execute_password_reset revoke_scope enqueue is_cut_off any
  execute-CutOff user action now at w d h set = by_cache s.cache refl
    where
      by_cache :
          (c : Cache)
          → s.cache ≡ c
          → CutOff action.user_id at (execute_password_reset s user action now at w).1
      by_cache absent c = inl c
      by_cache unreachable c = ground (arith, h, set, c)
      by_cache reachable c = inr (ground (arith, h, set, c))

  pub execute-IsReplaced :
      (user : User) (action : PendingPasswordReset) (now at : ℕ) (w : World)
      → (execute_password_reset s user action now at w).0 ≡ ok tt
      → let w' = (execute_password_reset s user action now at w).1 in
        IsReplaced action w'.db × CutOff action.user_id at w'
  unfolding execute_password_reset
  execute-IsReplaced user action now at w h =
      elim (Result-cases (update_password_hash action.user_id action.password_hash w.db)) [
        | inr (e, missing) ↦ ground (arith, h, missing)
        | inl (d, set) ↦
            let (providers, sessions, resets) = execute-tables user action now at w d h set in
            (
              tables-IsReplaced action now w.db d
                  (execute_password_reset s user action now at w).1.db set providers sessions
                  resets,
              execute-CutOff user action now at w d h set,
            )
      ]

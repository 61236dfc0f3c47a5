-- ===== src/Session/Refresh/Once.antt =====
-- internal/session/service.go: a refresh token that was exchanged is spent.
use authara.Prelude.{ℕ, ◌≡◌, ◌≢◌, refl, ◌⊎◌, inl, inr, none, arith, Bool-cases}
use authara.Prelude.Text.{Text}
use authara.Store.Rows.{Session, RefreshToken, SecurityEvent}
use authara.Store.Exec.{
  Db, World, Exec, ◌>>=◌, ◌>>◌, Result, ok, err, Result-cases, >>=-eq-ok, >>=-eq-both,
  with_transaction, with_transaction-eq-ok, lift, pure,
}
use authara.Store.Sessions.{get_refresh_token_by_hash, consume_refresh_token}
use authara.Session.Token.{Audience}
use authara.Session.Services.{Services, should_rotate}
use authara.Store.Outbox.{record_event}
use authara.Session.Refresh.{
  load_refresh_token, authorize, rotate, issue, refresh_body, refresh_session, on_reuse,
  revoke_reused_refresh_token,
}
use authara.Session.Refresh.Soundness.{
  load-Loaded, load-worlds, authorize-world, refresh_session-Granted, on_reuse-eq-ok,
}
use authara.Session.Refresh.Spent.{IsSpent, consume-IsSpent, create-IsSpent, event-IsSpent}

module _ (s : Services) (audience : Audience) (now : ℕ) where
  -- Either the same refresh token is handed out again, or its row is spent.
  pub KeptOrSpent : Text → Text → World → Type 0
  KeptOrSpent refresh_token new w =
      (new ≡ refresh_token) ⊎ IsSpent (s.hash_refresh_token refresh_token) w.db

  rotate-KeptOrSpent :
      (refresh_token new : Text) (rt : RefreshToken) (session : Session) (w : World)
      → get_refresh_token_by_hash (s.hash_refresh_token refresh_token) w.db ≡ ok rt
      → rt.consumed_at ≡ none
      → (rotate s audience now refresh_token rt session w).0 ≡ ok new
      → KeptOrSpent refresh_token new (rotate s audience now refresh_token rt session w).1
  unfolding rotate KeptOrSpent
  rotate-KeptOrSpent refresh_token new rt session w found unconsumed h =
      elim (Bool-cases (should_rotate rt now s.policy.refresh_token_rotation)) [
        | inr kept ↦ inl (ground (arith, h))
        | inl due ↦ elim (Result-cases (consume_refresh_token rt.id now w.db)) [
          | inr (e, refused) ↦ ground (arith, h, due, refused)
          | inl (d', done) ↦
              let spent = consume-IsSpent _ rt now w.db d' found unconsumed done in
              elim (Result-cases s.random_token) [
                | inr (e, failed) ↦ ground (arith, h, due, done, failed)
                | inl (drawn, e) ↦ rw (due, done, e) (inr (create-IsSpent _ s.db_now _ d' spent))
              ]
        ]
      ]

  -- What follows the rotation.
  abbrev finish : Result Text → SecurityEvent → Text → Exec (Text × Text)
  finish signed e new = do access ← lift signed; record_event e; pure (access, new)

  finish-KeptOrSpent :
      (refresh_token : Text) (signed : Result Text) (e : SecurityEvent) (fresh access new : Text)
      (w : World)
      → (finish signed e fresh w).0 ≡ ok (access, new)
      → KeptOrSpent refresh_token fresh w
      → KeptOrSpent refresh_token new (finish signed e fresh w).1
  unfolding KeptOrSpent
  finish-KeptOrSpent refresh_token (ok a) e fresh access new w h (inl same) =
      inl (ground (arith, h, same))
  finish-KeptOrSpent refresh_token (ok a) e fresh access new w h (inr spent) =
      inr (event-IsSpent _ _ w.db spent)
  finish-KeptOrSpent refresh_token (err x) e fresh access new w h k = cc

  issue-KeptOrSpent :
      (refresh_token access new : Text) (rt : RefreshToken) (session : Session) (w : World)
      → get_refresh_token_by_hash (s.hash_refresh_token refresh_token) w.db ≡ ok rt
      → rt.consumed_at ≡ none
      → (issue s audience now refresh_token rt session w).0 ≡ ok (access, new)
      → KeptOrSpent refresh_token new (issue s audience now refresh_token rt session w).1
  unfolding issue KeptOrSpent
  issue-KeptOrSpent refresh_token access new rt session w found unconsumed h =
      let (granted, e, h₁) = >>=-eq-ok (authorize s audience now session rt) _ w h in
      let (fresh, e₂, h₂) =
        >>=-eq-ok (rotate s audience now refresh_token rt session) _
          (authorize s audience now session rt w).1 h₁ in
      let same = authorize-world s audience now session rt w in
      rw
        (
          >>=-eq-both (authorize s audience now session rt) _ w granted e,
          >>=-eq-both (rotate s audience now refresh_token rt session) _ _ fresh e₂,
        )
        (finish-KeptOrSpent refresh_token _ _ fresh access new _ h₂
          (rotate-KeptOrSpent refresh_token fresh rt session _ (rw same found) unconsumed e₂))

  body-KeptOrSpent :
      (refresh_token access new : Text) (w : World)
      → (refresh_body s audience now refresh_token w).0 ≡ ok (access, new)
      → KeptOrSpent refresh_token new (refresh_body s audience now refresh_token w).1
  unfolding refresh_body
  body-KeptOrSpent refresh_token access new w h =
      let hashed = s.hash_refresh_token refresh_token in
      let load = load_refresh_token s audience now hashed in
      let ((rt, session), e, h₁) = >>=-eq-ok load _ w h in
      let found = load-Loaded s audience now hashed w rt session e in
      let worlds = load-worlds s audience now hashed w rt session e in
      rw (>>=-eq-both load _ w (rt, session) e) (
        issue-KeptOrSpent refresh_token access new rt session (load w).1 (rw worlds found.found)
          found.unconsumed h₁)

  on_reuse-world :
      (r : Result (Text × Text)) (w : World) {x : Text × Text}
      → (on_reuse s audience now r w).0 ≡ ok x
      → (on_reuse s audience now r w).1 ≡ w
  unfolding revoke_reused_refresh_token
  on_reuse-world r w h = ground arith

  -- After a refresh that succeeds, either the refresh token is the one that was given or the row of
  -- the one that was given is there and consumed, in what is committed too.
  pub refresh_session-KeptOrSpent :
      (refresh_token access new : Text) (w : World)
      → (refresh_session s audience now refresh_token w).0 ≡ ok (access, new)
      → let w' = (refresh_session s audience now refresh_token w).1 in
        KeptOrSpent refresh_token new w' × (w'.db ≡ w'.committed)
  unfolding refresh_session KeptOrSpent
  refresh_session-KeptOrSpent refresh_token access new w h =
      let body = refresh_body s audience now refresh_token in
      let e =
        on_reuse-eq-ok s audience now (with_transaction body w).0 (with_transaction body w).1 h in
      let (ok_body, world) = with_transaction-eq-ok body w e in
      let same = on_reuse-world (with_transaction body w).0 (with_transaction body w).1 h in
      rw (same, world) (body-KeptOrSpent refresh_token access new w ok_body, refl)

module _ (s : Services)
    (rely : (hashed : Text) (d : Db) → IsSpent hashed d → IsSpent hashed (s.others d)) where
  -- A refresh token that was exchanged for another is never again exchanged, at whatever time and
  -- for whatever audience, as long as the other transactions leave consumed rows consumed.
  pub refresh_session-once :
      (audience audience' : Audience) (now now' : ℕ) (refresh_token access new access' new' : Text)
      (w : World)
      → new ≢ refresh_token
      → (refresh_session s audience now refresh_token w).0 ≡ ok (access, new)
      → (refresh_session s audience' now' refresh_token
          (refresh_session s audience now refresh_token w).1).0
        ≢ ok (access', new')
  unfolding KeptOrSpent
  refresh_session-once audience audience' now now' refresh_token access new access' new' w differs h
        h' =
      let (kept_or_spent, committed) =
        refresh_session-KeptOrSpent s audience now refresh_token access new w h in
      let hashed = s.hash_refresh_token refresh_token in
      let w₁ = (refresh_session s audience now refresh_token w).1 in
      let granted = refresh_session-Granted s audience' now' refresh_token w₁ access' new' h' in
      elim kept_or_spent [
        | inl kept ↦ absurd (differs kept)
        | inr spent ↦
            let still =
              rely hashed _ (rely hashed _ (rely hashed w₁.committed (rw committed at spent))) in
            ground (
              arith, still.found, still.consumed_at, granted.loaded.found,
              granted.loaded.unconsumed,
            )
      ]

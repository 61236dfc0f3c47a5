-- ===== src/Session/Refresh/Single.antt =====
-- internal/session/service.go: at most one refresh token of a session is unconsumed.
use authara.Prelude.{ℕ, ◌≡◌, refl, inl, inr, Option, none, some, Bool-cases}
use authara.Prelude.Text.{Text}
use authara.Store.Rows.{Session, RefreshToken}
use authara.Store.Exec.{Db, World, Exec, Result, ok, err, Result-cases, with_transaction, raise}
use authara.Store.Keeps.{
  Both, Keeps, Both-bind, Both-bind_read, Both-bind_ok, keeps_rules, Keeps-writes, Keeps-waits,
  Keeps-reads_for_update, transaction-Both, Keeps-raise, Keeps-pure,
}
use authara.Store.Sessions.{get_refresh_token_by_hash, consume_refresh_token, revoke_session}
use authara.Store.Sessions.Live.{Single, consume_refresh_token-Consumes}
use authara.Store.Sessions.Issued.{statements, rotated-Single, consumed-Single}
use authara.Session.Token.Keeps.{revoke_scope-Keeps}
use authara.Session.Token.{Audience}
use authara.Session.Services.{Services, should_rotate}
use authara.Session.Refresh.Soundness.{load-Loaded, load-worlds, authorize-world}
use authara.Session.Refresh.{
  rotated, load_refresh_token, authorize, rotate, issue, refresh_body, refresh_session, keep_error,
  set_aside, reused_row, revoke_reused_body, revoke_reused_refresh_token, on_reuse,
}

module _ (s : Services) (audience : Audience) (now : ℕ)
    (rely : (d : Db) → Single d → Single (s.others d)) where
  load-Keeps : (hashed : Text) → Keeps Single (load_refresh_token s audience now hashed)
  unfolding load_refresh_token
  load-Keeps hashed = search (keeps_rules, Keeps-waits, Keeps-reads_for_update, rely) depth 30

  rotate-Both :
      (hash refresh_token : Text) (rt : RefreshToken) (session : Session) (w : World)
      → get_refresh_token_by_hash hash w.db ≡ ok rt
      → rt.consumed_at ≡ none
      → Both Single w
      → Both Single (rotate s audience now refresh_token rt session w).1
  unfolding rotate
  rotate-Both hash refresh_token rt session w found unconsumed h =
      elim (Bool-cases (should_rotate rt now s.policy.refresh_token_rotation)) [
        | inr kept ↦ rw kept h
        | inl due ↦ rw due (elim (Result-cases (consume_refresh_token rt.id now w.db)) [
          | inr (e, refused) ↦ rw refused h
          | inl (d', done) ↦
              let c = consume_refresh_token-Consumes hash rt now w.db d' found unconsumed done in
              rw done (elim (Result-cases s.random_token) [
                | inr (e, failed) ↦ rw failed (h.0, consumed-Single rt w.db d' c h.1)
                | inl (new, drawn) ↦
                    rw drawn
                      (h.0, rotated-Single rt _ s.db_now w.db d' c (unfold rotated in refl) h.1)
              ])
        ])
      ]

  authorize-Keeps :
      {P : Db → Type 0} (session : Session) (rt : RefreshToken)
      → Keeps P (authorize s audience now session rt)
  authorize-Keeps session rt = record {
    at = λ w h. rw (authorize-world s audience now session rt w) h;
  }

  issue-Both :
      (hash refresh_token : Text) (rt : RefreshToken) (session : Session) (w : World)
      → get_refresh_token_by_hash hash w.db ≡ ok rt
      → rt.consumed_at ≡ none
      → Both Single w
      → Both Single (issue s audience now refresh_token rt session w).1
  unfolding issue
  issue-Both hash refresh_token rt session w found unconsumed h =
      Both-bind_read Single (authorize s audience now session rt) _ w
        (authorize-world s audience now session rt w) h
        λ granted _.
          Both-bind Single (rotate s audience now refresh_token rt session) _ w
            (rotate-Both hash refresh_token rt session w found unconsumed h)
            λ new. search (keeps_rules, Keeps-writes, statements)

  body-Both :
      (refresh_token : Text) (w : World)
      → Both Single w
      → Both Single (refresh_body s audience now refresh_token w).1
  unfolding refresh_body
  body-Both refresh_token w h =
      let hashed = s.hash_refresh_token refresh_token in
      let load = load_refresh_token s audience now hashed in
      let after = (load-Keeps hashed).at w h in
      Both-bind_ok Single load _ w after λ (rt, session) e.
        let found = load-Loaded s audience now hashed w rt session e in
        let worlds = load-worlds s audience now hashed w rt session e in
        issue-Both hashed refresh_token rt session (load w).1 (rw worlds found.found)
          found.unconsumed after

  keep_error-Keeps :
      (m : Exec (Unit {0})) → Keeps Single m → Keeps Single (keep_error s audience now m)
  keep_error-Keeps m k = record { at = λ w h. by_result (m w).0 (m w).1 (k.at w h) }
    where
      by_result :
          (r : Result (Unit {0})) (w' : World)
          → Both Single w'
          → Both Single (set_aside s audience now r w').1
      by_result (ok _) w' h = h
      by_result (err e) w' h = h

  revoke_reused-Keeps :
      (rt : RefreshToken) → Keeps Single (revoke_reused_refresh_token s audience now rt)
  unfolding revoke_reused_refresh_token revoke_reused_body revoke_session
  revoke_reused-Keeps rt =
      search
        (
          keeps_rules, Keeps-writes, Keeps-waits, statements, keep_error-Keeps, revoke_scope-Keeps,
          rely,
        )
        depth 30

  on_reuse-Keeps : (r : Result (Text × Text)) → Keeps Single (on_reuse s audience now r)
  on_reuse-Keeps (ok r) = Keeps-pure r
  on_reuse-Keeps (err e) = by_row (reused_row s audience now e)
    where
      by_row :
          (o : Option RefreshToken)
          → Keeps Single (elim o [
            | none ↦ raise {A = Text × Text} e
            | some rt ↦ revoke_reused_refresh_token s audience now rt
          ])
      by_row none = Keeps-raise e
      by_row (some rt) = revoke_reused-Keeps rt

  -- If the other transactions keep it, a refresh keeps it, whether it succeeds, fails or finds that
  -- the token was used before: at most one refresh token of every session is unconsumed.
  pub refresh_session-Single :
      (refresh_token : Text) (w : World)
      → Both Single w
      → Both Single (refresh_session s audience now refresh_token w).1
  unfolding refresh_session
  refresh_session-Single refresh_token w h =
      let (r, w') = with_transaction (refresh_body s audience now refresh_token) w in
      (on_reuse-Keeps r).at w' (
        transaction-Both Single (refresh_body s audience now refresh_token) w
          (body-Both refresh_token w h))

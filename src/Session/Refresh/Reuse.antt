-- ===== src/Session/Refresh/Reuse.antt =====
-- internal/session/service.go: what a refresh with a consumed token does.
use authara.Prelude.{
  ℕ, ◌==◌, ◌≤◌, ◌≡◌, refl, sym, Option, none, some, true, List, [], ◌∷◌, ◌++◌, arith, any, find?,
}
use authara.Prelude.Text.{Text}
use authara.Store.Rows.{Session, RefreshToken}
use authara.Store.Exec.{
  Db, World, Scope, session_scope, ok, err, Error, refresh_token_reuse_detected,
  revocation_store_unavailable,
}
use authara.Store.Users.{lock_user}
use authara.Store.Sessions.{
  get_session_by_id, get_refresh_token_by_hash, revoke_session, revoke, update_where,
}
use authara.Session.Token.{
  Audience, AccessClaims, Cache, absent, unreachable, reachable, revoke_scope, is_cut_off,
  is_revoked,
}
use authara.Session.Services.{Services}
use authara.Session.Refresh.{
  usable_refresh_token, load_refresh_token, refresh_body, refresh_session, revoke_reused_body,
  revoke_reused_refresh_token, reuse_error, keep_error, reuse_event, marker_at,
}

-- A world in which no transaction is open.
abbrev pub idle : Db → List (Scope × ℕ) → World
idle d revocations = record { committed = d; db = d; revocations = revocations }

find?-revoked :
    (id now : ℕ) (ss : List Session) (s : Session)
    → find? (λ (t : Session). t.id == id) ss ≡ some s
    → find?
        (λ (t : Session). t.id == id)
        (update_where (λ (t : Session). t.id == id) (revoke now) ss)
      ≡ some (revoke now s)
unfolding find?
find?-revoked id now [] s h = cc
find?-revoked id now (t ∷ ts) s h = ground (arith, find?-revoked id now ts s)

-- What the cache answers when a marker is set in it.
abbrev pub cache_error : Cache → Option Error
cache_error absent = none
cache_error unreachable = some revocation_store_unavailable
cache_error reachable = none

-- The markers afterwards.
abbrev pub marked : Cache → Scope → ℕ → List (Scope × ℕ) → List (Scope × ℕ)
marked absent scope at revs = revs
marked unreachable scope at revs = revs
marked reachable scope at revs = (scope, at) ∷ revs

module _ (s : Services) (audience : Audience) (now : ℕ) where
  -- The containment: what is left of the session whose token was used twice.
  pub record Contained (session : Session) (rt : RefreshToken) (w : World) : Type 0 where
    pub committed : w.db ≡ w.committed
    pub revoked : get_session_by_id rt.session_id w.committed ≡ ok (revoke now session)
    pub cut_off :
        s.cache ≡ reachable
        → (c : AccessClaims) → c.session_id ≡ rt.session_id
        → c.issued_at ≤ now
        → is_revoked w.revocations c ≡ true

  load-reuse :
      (hashed : Text) (w : World) (rt : RefreshToken) (at : ℕ)
      → get_refresh_token_by_hash hashed w.db ≡ ok rt
      → rt.consumed_at ≡ some at
      → load_refresh_token s audience now hashed w ≡ (err (refresh_token_reuse_detected rt), w)
  unfolding load_refresh_token usable_refresh_token
  load-reuse hashed w rt at found consumed = rw (found, consumed) refl

  kept_revocation :
      (c : Cache) (scope : Scope) (at : ℕ) (w : World)
      → keep_error s audience now (revoke_scope c scope at) w
        ≡ (ok (cache_error c), record w { revocations = marked c scope at w.revocations })
  unfolding revoke_scope
  kept_revocation absent scope at w = refl
  kept_revocation unreachable scope at w = refl
  kept_revocation reachable scope at w = refl

  abbrev contained : RefreshToken → Session → Db → Db
  contained rt session d =
      let d' = revoke_session rt.session_id now d in
      record d' {
        security_events = d'.security_events ++ reuse_event s audience now session rt ∷ [];
      }

  revoke_reused-eq :
      (rt : RefreshToken) (d : Db) (revs : List (Scope × ℕ)) (session session' : Session)
      → get_session_by_id rt.session_id d ≡ ok session
      → lock_user session.user_id (s.others d) ≡ ok tt
      → get_session_by_id rt.session_id (s.others d) ≡ ok session'
      → revoke_reused_refresh_token s audience now rt (idle d revs) ≡ (
        err (reuse_error s audience now (cache_error s.cache)),
        idle
            (contained rt session (s.others d))
            (marked s.cache (session_scope rt.session_id) (marker_at s audience now) revs),
      )
  unfolding revoke_reused_refresh_token revoke_reused_body
  revoke_reused-eq rt d revs session session' here locked still =
      rw (here, locked, still, kept_revocation s.cache) refl

  contained-revoked :
      (rt : RefreshToken) (session session' : Session) (d : Db)
      → get_session_by_id rt.session_id d ≡ ok session'
      → get_session_by_id rt.session_id (contained rt session d) ≡ ok (revoke now session')
  unfolding get_session_by_id revoke_session
  contained-revoked rt session session' d h =
      ground (arith, find?-revoked rt.session_id now d.sessions session')

  marked-cut_off :
      (revs : List (Scope × ℕ)) (c : AccessClaims)
      → s.cache ≡ reachable
      → c.issued_at ≤ now
      → is_revoked (marked s.cache (session_scope c.session_id) (marker_at s audience now) revs) c
        ≡ true
  unfolding is_revoked is_cut_off any
  marked-cut_off revs c e h = rw e (ground arith)

  revoke_reused-Contained :
      (rt : RefreshToken) (d : Db) (revs : List (Scope × ℕ)) (session session' : Session)
      → get_session_by_id rt.session_id d ≡ ok session
      → lock_user session.user_id (s.others d) ≡ ok tt
      → get_session_by_id rt.session_id (s.others d) ≡ ok session'
      → let r = revoke_reused_refresh_token s audience now rt (idle d revs) in
        (r.0 ≡ err (reuse_error s audience now (cache_error s.cache))) × Contained session' rt r.1
  revoke_reused-Contained rt d revs session session' here locked still =
      rw (revoke_reused-eq rt d revs session session' here locked still) (
        refl,
        record {
          committed = refl;
          revoked = contained-revoked rt session session' (s.others d) still;
          cut_off = λ e c same before. rw (sym same) (marked-cut_off revs c e before);
        },
      )

  -- A refresh with a token that was consumed before fails, and the session that the token belongs
  -- to is revoked: in the database also where the cache cannot be reached, and where it can, no
  -- access token of the session that was issued up to now is good any more. The session and its
  -- user are still there when the user's lock is granted.
  pub refresh_session-reuse :
      (refresh_token : Text) (d : Db) (revs : List (Scope × ℕ)) (rt : RefreshToken) (at : ℕ)
      (session session' : Session)
      → get_refresh_token_by_hash (s.hash_refresh_token refresh_token) d ≡ ok rt
      → rt.consumed_at ≡ some at
      → get_session_by_id rt.session_id d ≡ ok session
      → lock_user session.user_id (s.others d) ≡ ok tt
      → get_session_by_id rt.session_id (s.others d) ≡ ok session'
      → let r = refresh_session s audience now refresh_token (idle d revs) in
        (r.0 ≡ err (reuse_error s audience now (cache_error s.cache))) × Contained session' rt r.1
  unfolding refresh_session refresh_body
  refresh_session-reuse refresh_token d revs rt at session session' found consumed here locked
        still =
      rw (load-reuse (s.hash_refresh_token refresh_token) (idle d revs) rt at found consumed)
        (revoke_reused-Contained rt d revs session session' here locked still)

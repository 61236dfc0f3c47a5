-- ===== src/Session/Revocation/Effects.antt =====
-- internal/session/service.go: what a revocation leaves.
use authara.Prelude.{
  ℕ, ◌==◌, ◌≤◌, ◌≡◌, refl, ◌⊎◌, inl, inr, none, some, true, not, ◌&&◌, List, [], ◌∷◌, ◌++◌, arith,
  any, filter, is_some,
}
use authara.Store.Rows.{Session, session_revoked, security_containment, system_actor}
use authara.Store.Exec.{
  Db, World, Scope, user_scope, ok, err, Error, Result-cases, revocation_store_unavailable,
}
use authara.Store.Users.{lock_user}
use authara.Store.Sessions.{
  update_where, revoke, is_active, list_active_sessions_by_user_id, revoke_all_sessions_for_user,
}
use authara.Session.Token.{
  Cache, AccessClaims, absent, unreachable, reachable, revoke_scope, is_cut_off, is_revoked,
}
use authara.Session.Services.{Services}
use authara.Session.Revocation.{revoke_all_sessions, revoke_all_body, session_event}

pub no_active :
    (user_id at now : ℕ) (ss : List Session)
    → filter
        (λ (x : Session). x.user_id == user_id && is_active now x)
        (update_where
          (λ (x : Session). x.user_id == user_id && not (is_some x.revoked_at))
          (revoke at)
          ss)
      ≡ []
unfolding filter
no_active user_id at now [] = refl
no_active user_id at now (x ∷ xs) = ground (arith, no_active user_id at now xs)

module _ (s : Services) (user_id : ℕ) where
  -- What holds of a world after all sessions of the user were revoked.
  pub record AllRevoked (w : World) : Type 0 where
    pub committed : w.db ≡ w.committed
    pub inactive : (now : ℕ) → list_active_sessions_by_user_id user_id now w.committed ≡ []
    pub cut_off :
        s.cache ≡ reachable
        → (c : AccessClaims) → c.subject ≡ user_id
        → c.issued_at ≤ s.clock
        → is_revoked w.revocations c ≡ true

  abbrev revoked_all : Db → Db
  revoked_all d =
      let d' = revoke_all_sessions_for_user user_id s.clock d in
      record d' {
        security_events =
            d'.security_events
            ++ session_event session_revoked (some security_containment) system_actor none user_id
                none
              ∷ [];
      }

  revoked_all-inactive :
      (now : ℕ) (d : Db) → list_active_sessions_by_user_id user_id now (revoked_all d) ≡ []
  unfolding list_active_sessions_by_user_id revoke_all_sessions_for_user
  revoked_all-inactive now d = no_active user_id s.clock now d.sessions

  marked-cut_off :
      (revs : List (Scope × ℕ)) (c : AccessClaims)
      → c.subject ≡ user_id
      → c.issued_at ≤ s.clock
      → is_revoked ((user_scope user_id, s.clock) ∷ revs) c ≡ true
  unfolding is_revoked is_cut_off any
  marked-cut_off revs c same before = ground arith

  -- Either all sessions of the user are revoked, so that none of them is active at any time and,
  -- with a cache, no access token of the user that was issued up to the revocation is good; or the
  -- method reports an error, and the database is as the other transactions left it.
  pub revoke_all_sessions-AllRevoked :
      (w : World)
      → let (r, w') = revoke_all_sessions s user_id w in
        ((r ≡ ok tt) × AllRevoked w')
        ⊎ ((e : Error) × (r ≡ err e)
            × (w'.committed ≡ s.others w.committed)
            × (w'.db ≡ s.others w.committed))
  unfolding revoke_all_sessions revoke_all_body revoke_scope
  revoke_all_sessions-AllRevoked w =
      elim (Result-cases (lock_user user_id (s.others w.committed))) [
        | inr (e, missing) ↦ rw missing (inr (e, refl, refl, refl))
        | inl (_, locked) ↦ by_cache s.cache refl locked
      ]
    where
      by_cache :
          (c : Cache)
          → s.cache ≡ c
          → lock_user user_id (s.others w.committed) ≡ ok tt
          → let (r, w') = revoke_all_sessions s user_id w in
            ((r ≡ ok tt) × AllRevoked w')
            ⊎ ((e : Error) × (r ≡ err e)
                × (w'.committed ≡ s.others w.committed)
                × (w'.db ≡ s.others w.committed))
      by_cache absent e locked =
          rw (locked, e)
            (inl (
              refl,
              record {
                committed = refl;
                inactive = λ now. revoked_all-inactive now (s.others w.committed);
                cut_off = λ there. cc (there, e);
              },
            ))
      by_cache unreachable e locked =
          rw (locked, e) (inr (revocation_store_unavailable, refl, refl, refl))
      by_cache reachable e locked =
          rw (locked, e)
            (inl (
              refl,
              record {
                committed = refl;
                inactive = λ now. revoked_all-inactive now (s.others w.committed);
                cut_off = λ _ c. marked-cut_off w.revocations c;
              },
            ))

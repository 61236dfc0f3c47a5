-- ===== src/Store/Sessions/Issued.antt =====
-- internal/store/sessions.go: so do those that delete, consume and make refresh tokens.
use authara.Prelude.{ℕ, ◌<◌, ◌==◌, ◌≡◌, ◌||◌, List, [], ◌∷◌, ◌++◌, arith, any}
use authara.Store.Rows.{Session, RefreshToken}
use authara.Store.Exec.{Db}
use authara.Store.Sessions.{
  create_session, create_refresh_token, delete_refresh_tokens_by_session,
  delete_refresh_tokens_for_other_sessions,
}
use authara.Store.Sessions.Live.{
  Single, live, is_made, Consumes, live-create_refresh_token, next_id-create_refresh_token,
  live-delete-le, live-delete_other-le,
}
use authara.Store.Sessions.Tokens.{
  revoke_session-Single, revoke_all-Single, revoke_other-Single, update_authentication-Single,
  update_organization-Single, consume_challenge-Single, replace_challenge-Single, event-Single,
  email-Single,
}

pub delete_tokens-Single :
    (id : ℕ) (d : Db) → Single d → Single (delete_refresh_tokens_by_session id d)
delete_tokens-Single id d h = record {
  one = λ i. omega (arith, h.one i, live-delete-le i id d);
  fresh = λ i below.
      omega (
        arith,
        h.fresh i (unfold delete_refresh_tokens_by_session in below),
        live-delete-le i id d,
      );
  unmade = λ i below. unfold delete_refresh_tokens_by_session is_made in h.unmade i below;
}

pub delete_other_tokens-Single :
    (id keep : ℕ) (d : Db) → Single d → Single (delete_refresh_tokens_for_other_sessions id keep d)
delete_other_tokens-Single id keep d h = record {
  one = λ i. omega (arith, h.one i, live-delete_other-le i id keep d);
  fresh = λ i below. omega (
    arith,
    h.fresh i (unfold delete_refresh_tokens_for_other_sessions in below),
    live-delete_other-le i id keep d,
  );
  unmade = λ i below. unfold delete_refresh_tokens_for_other_sessions is_made in h.unmade i below;
}

pub consumed-Single : (rt : RefreshToken) (d d' : Db) → Consumes rt d d' → Single d → Single d'
unfolding is_made
consumed-Single rt d d' c h = record {
  one = λ i. omega (arith, h.one i, c.others i);
  fresh = λ i below. omega (arith, h.fresh i (omega (arith, c.same_ids)), c.others i);
  unmade = λ i below. ground (arith, h.unmade i, c.same_ids, c.same_sessions);
}

-- A token is made for a session that has none unconsumed.
pub created-Single :
    (db_now : ℕ) (t : RefreshToken) (d : Db)
    → live t.session_id d ≡ 0
    → t.session_id < d.next_id
    → Single d
    → Single (create_refresh_token db_now t d)
created-Single db_now t d none_left below h = record {
  one = λ i. ground (arith, live-create_refresh_token i db_now t d, h.one i);
  fresh = λ i above. ground (
    arith,
    live-create_refresh_token i db_now t d,
    h.fresh i,
    next_id-create_refresh_token db_now t d,
  );
  unmade = λ i above.
      unfold create_refresh_token is_made in
      h.unmade i (omega (arith, above, next_id-create_refresh_token db_now t d));
}

-- A rotation: the old token is consumed before the new one of the same session is made.
pub rotated-Single :
    (rt t : RefreshToken) (db_now : ℕ) (d d' : Db)
    → Consumes rt d d'
    → t.session_id ≡ rt.session_id
    → Single d
    → Single (create_refresh_token db_now t d')
rotated-Single rt t db_now d d' c same h =
    created-Single db_now t d' (ground (arith, same, c.its_own, h.one rt.session_id))
      (ground (arith, same, c.its_own, c.same_ids, h.fresh rt.session_id))
      (consumed-Single rt d d' c h)

any-append :
    (i : ℕ) (xs : List Session) (y : Session)
    → any (λ (x : Session). x.id == i) (xs ++ y ∷ [])
      ≡ any (λ (x : Session). x.id == i) xs || y.id == i
unfolding any
any-append i [] y = ground arith
any-append i (x ∷ xs) y = ground (arith, any-append i xs y)

-- A session is made with the next id, which has no token.
pub create_session-Single :
    (db_now : ℕ) (x : Session) (d : Db) → Single d → Single (create_session db_now x d).1
unfolding create_session live is_made
create_session-Single db_now x d h = record {
  one = λ i. h.one i;
  fresh = λ i above. h.fresh i (omega (arith, above));
  unmade = λ i above. ground (
    arith,
    above,
    h.unmade i,
    any-append i d.sessions (record x { id = d.next_id; created_at = db_now }),
  );
}

-- It may be given one.
pub create_session-open :
    (db_now : ℕ) (x : Session) (d : Db)
    → Single d
    → let (row, d') = create_session db_now x d in (live row.id d' ≡ 0) × (row.id < d'.next_id)
unfolding create_session live
create_session-open db_now x d h = (h.fresh d.next_id (omega arith), omega arith)

pub ruleset statements = (
  revoke_session-Single, revoke_all-Single, revoke_other-Single, update_authentication-Single,
  update_organization-Single, consume_challenge-Single, replace_challenge-Single, event-Single,
  email-Single, delete_tokens-Single, delete_other_tokens-Single,
)

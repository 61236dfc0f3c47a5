-- ===== src/Store/Sessions/Live.antt =====
-- internal/store/sessions.go: the unconsumed refresh tokens of a session, under the statements.
use authara.Prelude.{
  ℕ, ◌+◌, ◌≤◌, ◌==◌, ◌≡◌, refl, ap, All, true, none, some, Bool, not, ◌&&◌, List, [], ◌∷◌, arith,
  is_some, any, false, count_if, count_if-append, count_if-find?, count_if-filter-le, filter,
  if◌then◌else◌,
}
use authara.Prelude.Text.{Text, text_eq}
use authara.Store.Rows.{Session, RefreshToken}
use authara.Store.Exec.{Db, ok}
use authara.Store.Sessions.{
  update_where, create_refresh_token, get_refresh_token_by_hash, consume_refresh_token,
  delete_refresh_tokens_by_session, delete_seen_refresh_tokens, is_seen,
  delete_refresh_tokens_for_other_sessions,
}

abbrev pub is_live : ℕ → RefreshToken → Bool
is_live session_id t = t.session_id == session_id && not (is_some t.consumed_at)

-- How many refresh tokens of a session are unconsumed.
unfoldable pub live : ℕ → Db → ℕ
live session_id d = count_if (is_live session_id) d.refresh_tokens

-- Whether there is a session with the id.
unfoldable pub is_made : ℕ → Db → Bool
is_made session_id d = any (λ (x : Session). x.id == session_id) d.sessions

-- Every session has at most one, and an id that is yet to be given has none and is no session's.
pub record Single (d : Db) : Type 0 where
  pub one : (session_id : ℕ) → live session_id d ≤ 1
  pub fresh : (session_id : ℕ) → d.next_id ≤ session_id → live session_id d ≡ 0
  pub unmade : (session_id : ℕ) → d.next_id ≤ session_id → is_made session_id d ≡ false

pub live-create_refresh_token :
    (session_id db_now : ℕ) (t : RefreshToken) (d : Db)
    → live session_id (create_refresh_token db_now t d)
      ≡ live session_id d + (if is_live session_id t then 1 else 0)
unfolding live create_refresh_token count_if
live-create_refresh_token session_id db_now t d = ground (
  arith,
  count_if-append (is_live session_id) d.refresh_tokens (
      record t { id = d.next_id; created_at = if t.created_at == 0 then db_now else t.created_at }
      ∷ []),
)

abbrev pub to_consume : ℕ → RefreshToken → Bool
to_consume token_id t = t.id == token_id && not (is_some t.consumed_at)

abbrev pub consumed : ℕ → RefreshToken → RefreshToken
consumed at t = record t { consumed_at = some at }

count_if-consumed :
    (session_id token_id at : ℕ) (ts : List RefreshToken)
    → count_if (is_live session_id) (update_where (to_consume token_id) (consumed at) ts)
        + count_if (λ t. to_consume token_id t && is_live session_id t) ts
      ≡ count_if (is_live session_id) ts
unfolding count_if
count_if-consumed session_id token_id at [] = omega arith
count_if-consumed session_id token_id at (t ∷ ts) =
    ground (arith, count_if-consumed session_id token_id at ts)

-- Consuming a token that is not consumed takes one away from its session, and adds none elsewhere.
pub record Consumes (rt : RefreshToken) (d d' : Db) : Type 0 where
  pub others : (session_id : ℕ) → live session_id d' ≤ live session_id d
  pub its_own : live rt.session_id d' + 1 ≤ live rt.session_id d
  pub same_ids : d'.next_id ≡ d.next_id
  pub same_sessions : d'.sessions ≡ d.sessions

pub consume_refresh_token-Consumes :
    (hash : Text) (rt : RefreshToken) (at : ℕ) (d d' : Db)
    → get_refresh_token_by_hash hash d ≡ ok rt
    → rt.consumed_at ≡ none
    → consume_refresh_token rt.id at d ≡ ok d'
    → Consumes rt d d'
unfolding live get_refresh_token_by_hash consume_refresh_token
consume_refresh_token-Consumes hash rt at d d' found unconsumed e = record {
  others = λ i. ground (arith, count_if-consumed i rt.id at d.refresh_tokens);
  its_own = ground (
    arith,
    count_if-consumed rt.session_id rt.id at d.refresh_tokens,
    count_if-find? (λ (t : RefreshToken). text_eq t.token_hash hash)
        (λ t. to_consume rt.id t && is_live rt.session_id t) d.refresh_tokens rt,
  );
  same_ids = ground arith;
  same_sessions = ground arith;
}

-- Deleting tokens adds none.
pub live-delete-le :
    (i session_id : ℕ) (d : Db) → live i (delete_refresh_tokens_by_session session_id d) ≤ live i d
unfolding live delete_refresh_tokens_by_session
live-delete-le i session_id d = count_if-filter-le _ (is_live i) d.refresh_tokens

pub live-delete_other-le :
    (i user_id keep : ℕ) (d : Db)
    → live i (delete_refresh_tokens_for_other_sessions user_id keep d) ≤ live i d
unfolding live delete_refresh_tokens_for_other_sessions
live-delete_other-le i user_id keep d = count_if-filter-le _ (is_live i) d.refresh_tokens

count_if-deleted :
    (session_id : ℕ) (ts : List RefreshToken)
    → count_if (is_live session_id) (filter (λ t. not (t.session_id == session_id)) ts) ≡ 0
unfolding count_if filter
count_if-deleted session_id [] = refl
count_if-deleted session_id (t ∷ ts) = ground (arith, count_if-deleted session_id ts)

pub live-delete_self :
    (session_id : ℕ) (d : Db) → live session_id (delete_refresh_tokens_by_session session_id d) ≡ 0
unfolding live delete_refresh_tokens_by_session
live-delete_self session_id d = count_if-deleted session_id d.refresh_tokens

-- The others inserted no token of the session.
abbrev pub AddsNone : ℕ → Db → Db → Type 0
AddsNone session_id d d' =
    All
      (λ (t : RefreshToken).
        t.session_id ≡ session_id → is_seen session_id d.refresh_tokens t ≡ true)
      d'.refresh_tokens

filter-seen :
    (session_id : ℕ) (seen ts : List RefreshToken)
    → All (λ (t : RefreshToken). t.session_id ≡ session_id → is_seen session_id seen t ≡ true) ts
    → filter (λ t. not (t.session_id == session_id && is_seen session_id seen t)) ts
      ≡ filter (λ t. not (t.session_id == session_id)) ts
unfolding filter
filter-seen session_id seen [] all = refl
filter-seen session_id seen (t ∷ ts) (own, all) =
    ground (arith, own, filter-seen session_id seen ts all)

-- Then the deletion leaves no token of the session.
pub delete_seen-all :
    (session_id : ℕ) (d d' : Db)
    → AddsNone session_id d d'
    → delete_seen_refresh_tokens session_id d.refresh_tokens d'
      ≡ delete_refresh_tokens_by_session session_id d'
unfolding delete_seen_refresh_tokens delete_refresh_tokens_by_session
delete_seen-all session_id d d' all =
    ap (λ (ts : List RefreshToken). record d' { refresh_tokens = ts })
      (filter-seen session_id d.refresh_tokens d'.refresh_tokens all)

pub next_id-create_refresh_token :
    (db_now : ℕ) (t : RefreshToken) (d : Db)
    → (create_refresh_token db_now t d).next_id ≡ d.next_id + 1
unfolding create_refresh_token
next_id-create_refresh_token db_now t d = refl

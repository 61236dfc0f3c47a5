-- ===== src/Store/Sessions.antt =====
-- internal/store/sessions.go and authentication_challenges.go: the statements on sessions, refresh
-- tokens and challenges.
pub mod Live
pub mod Tokens
pub mod Issued
use authara.Prelude.{
  ℕ, ◌+◌, ◌==◌, none, some, Bool, not, ◌&&◌, List, [], ◌∷◌, ◌++◌, map, find?, any, filter, is_some,
  ltb, if◌then◌else◌,
}
use authara.Prelude.Text.{Text, text_eq}
use authara.Store.Rows.{Session, RefreshToken, AuthenticationChallenge, AuthenticationMethod}
use authara.Store.Exec.{
  Db, Result, ok, err, session_not_found, refresh_token_not_found,
  authentication_challenge_not_found,
}
use authara.Store.Users.{or_missing}

unfoldable pub get_session_by_id : ℕ → Db → Result Session
get_session_by_id session_id d =
    or_missing (find? (λ (s : Session). s.id == session_id) d.sessions) session_not_found

abbrev pub is_active : ℕ → Session → Bool
is_active now s = not (is_some s.revoked_at) && ltb now s.expires_at

unfoldable pub get_active_session_by_id : ℕ → ℕ → Db → Result Session
get_active_session_by_id session_id now d =
    or_missing (find? (λ (s : Session). s.id == session_id && is_active now s) d.sessions)
      session_not_found

-- INSERT … RETURNING: the row gets the next id and the time of the statement.
unfoldable pub create_session : ℕ → Session → Db → Session × Db
create_session db_now s d =
    let row = record s { id = d.next_id; created_at = db_now } in
    (row, record d { sessions = d.sessions ++ row ∷ []; next_id = d.next_id + 1 })

-- UPDATE … WHERE: the rows that match are changed in place.
abbrev pub update_where {ℓ} : {A : Type ℓ} → (A → Bool) → (A → A) → List A → List A
update_where p f = map (λ a. if p a then f a else a)

unfoldable pub update_session_authentication : ℕ → ℕ → AuthenticationMethod → ℕ → Db → Result Db
update_session_authentication user_id session_id method authenticated_at d =
    let here =
      λ (s : Session). s.id == session_id && s.user_id == user_id && is_active authenticated_at s in
    if any here d.sessions
    then ok (record d {
      sessions =
          update_where here
            (λ s. record s {
              authenticated_at = some authenticated_at;
              authentication_method = some method;
            })
            d.sessions;
    })
    else err session_not_found

unfoldable pub update_session_active_organization : ℕ → ℕ → Db → Result Db
update_session_active_organization session_id organization_id d =
    let here = λ (s : Session). s.id == session_id && not (is_some s.revoked_at) in
    if any here d.sessions
    then ok (record d {
      sessions =
          update_where here (λ s. record s { active_organization_id = organization_id }) d.sessions;
    })
    else err session_not_found

abbrev pub revoke : ℕ → Session → Session
revoke at s = record s { revoked_at = some at }

unfoldable pub revoke_session : ℕ → ℕ → Db → Db
revoke_session session_id revoked_at d = record d {
  sessions = update_where (λ (s : Session). s.id == session_id) (revoke revoked_at) d.sessions;
}

unfoldable pub revoke_all_sessions_for_user : ℕ → ℕ → Db → Db
revoke_all_sessions_for_user user_id revoked_at d = record d {
  sessions =
      update_where (λ (s : Session). s.user_id == user_id && not (is_some s.revoked_at))
        (revoke revoked_at) d.sessions;
}

unfoldable pub revoke_other_sessions_by_user_id : ℕ → ℕ → ℕ → Db → Db
revoke_other_sessions_by_user_id user_id keep_session_id revoked_at d = record d {
  sessions =
      update_where
        (λ (s : Session).
          s.user_id == user_id && not (s.id == keep_session_id) && not (is_some s.revoked_at))
        (revoke revoked_at) d.sessions;
}

-- The rows in the order of the table, which stands for any order: the ORDER BY is left out.
unfoldable pub list_active_sessions_by_user_id : ℕ → ℕ → Db → List Session
list_active_sessions_by_user_id user_id now d =
    filter (λ (s : Session). s.user_id == user_id && is_active now s) d.sessions

-- A token whose `created_at` is zero gets the time of the statement.
unfoldable pub create_refresh_token : ℕ → RefreshToken → Db → Db
create_refresh_token db_now t d =
    let row = record t {
      id = d.next_id;
      created_at = if t.created_at == 0 then db_now else t.created_at;
    } in
    record d { refresh_tokens = d.refresh_tokens ++ row ∷ []; next_id = d.next_id + 1 }

unfoldable pub get_refresh_token_by_hash : Text → Db → Result RefreshToken
get_refresh_token_by_hash hash d =
    or_missing (find? (λ (t : RefreshToken). text_eq t.token_hash hash) d.refresh_tokens)
      refresh_token_not_found

-- The caller holds the lock of the row (FOR UPDATE), so that the statement waits for nobody.
unfoldable pub consume_refresh_token : ℕ → ℕ → Db → Result Db
consume_refresh_token token_id consumed_at d =
    let here = λ (t : RefreshToken). t.id == token_id && not (is_some t.consumed_at) in
    if any here d.refresh_tokens
    then ok (record d {
      refresh_tokens =
          update_where here (λ t. record t { consumed_at = some consumed_at }) d.refresh_tokens;
    })
    else err refresh_token_not_found

-- The statement where no other transaction holds a row of the session, since the caller holds the
-- user's lock FOR UPDATE, which excludes refreshes and switches.
unfoldable pub delete_refresh_tokens_by_session : ℕ → Db → Db
delete_refresh_tokens_by_session session_id d = record d {
  refresh_tokens = filter (λ (t : RefreshToken). not (t.session_id == session_id)) d.refresh_tokens;
}

-- Whether a statement on the session's tokens saw the row when it began.
abbrev pub is_seen : ℕ → List RefreshToken → RefreshToken → Bool
is_seen session_id seen t =
    any (λ (x : RefreshToken). x.id == t.id && x.session_id == session_id) seen

-- The statement where it waits for rows: it deletes those of the session that it saw when it began,
-- and none that was inserted since (READ COMMITTED).
unfoldable pub delete_seen_refresh_tokens : ℕ → List RefreshToken → Db → Db
delete_seen_refresh_tokens session_id seen d = record d {
  refresh_tokens =
      filter (λ (t : RefreshToken). not (t.session_id == session_id && is_seen session_id seen t))
        d.refresh_tokens;
}

unfoldable pub delete_refresh_tokens_for_other_sessions : ℕ → ℕ → Db → Db
delete_refresh_tokens_for_other_sessions user_id keep_session_id d =
    let other = λ (s : Session). s.user_id == user_id && not (s.id == keep_session_id) in
    record d {
      refresh_tokens =
          filter
            (λ (t : RefreshToken).
              not (any (λ (s : Session). other s && s.id == t.session_id) d.sessions))
            d.refresh_tokens;
    }

unfoldable pub get_authentication_challenge_by_id : ℕ → Db → Result AuthenticationChallenge
get_authentication_challenge_by_id challenge_id d =
    or_missing
      (find? (λ (c : AuthenticationChallenge). c.id == challenge_id) d.authentication_challenges)
      authentication_challenge_not_found

unfoldable pub get_authentication_challenge_by_session_id : ℕ → Db → Result AuthenticationChallenge
get_authentication_challenge_by_session_id session_id d =
    or_missing
      (find? (λ (c : AuthenticationChallenge). c.session_id == session_id)
        d.authentication_challenges)
      authentication_challenge_not_found

-- INSERT … ON CONFLICT (session_id) DO UPDATE: a session has at most one challenge.
unfoldable pub replace_authentication_challenge : AuthenticationChallenge → Db → Db
replace_authentication_challenge c d =
    let here = λ (x : AuthenticationChallenge). x.session_id == c.session_id in
    let row = record c { consumed_at = none; authentication_method = none } in
    if any here d.authentication_challenges
    then record d {
      authentication_challenges = update_where here (λ _. row) d.authentication_challenges;
    }
    else record d { authentication_challenges = d.authentication_challenges ++ row ∷ [] }

unfoldable pub consume_authentication_challenge : ℕ → AuthenticationMethod → ℕ → Db → Result Db
consume_authentication_challenge challenge_id method consumed_at d =
    let here = λ (c : AuthenticationChallenge).
      c.id == challenge_id && not (is_some c.consumed_at) && ltb consumed_at c.expires_at in
    if any here d.authentication_challenges
    then ok (record d {
      authentication_challenges =
          update_where here
            (λ c. record c { consumed_at = some consumed_at; authentication_method = some method })
            d.authentication_challenges;
    })
    else err authentication_challenge_not_found

-- ===== src/Session/Examples.antt =====
-- internal/session/service.go: refreshes, and histories of calls, on a database with one session.
mod Access
use authara.Prelude.{
  ℕ, List, ◌≡◌, ◌≢◌, refl, All, true, ◌&&◌, ◌==◌, none, some, [], ◌∷◌, arith, any, find?, filter,
  count_if,
}
use authara.Prelude.Text.{codes, text_eq}
use authara.Store.Rows.{RefreshToken, password}
use authara.Store.Exec.{Db, ok, err, with_transaction}
use authara.Store.Keeps.{Both}
use authara.Store.Users.{
  get_user_by_id, get_organization_membership, get_user_platform_role_names, is_user_disabled,
  lock_user, lock_organization,
}
use authara.Store.Sessions.{
  get_session_by_id, get_refresh_token_by_hash, consume_refresh_token, create_refresh_token,
  is_seen, delete_seen_refresh_tokens, get_active_session_by_id, update_session_active_organization,
}
use authara.Session.Switch.{
  switch_session_organization, switch_body, admit_switch, replace_tokens, switched,
}
use authara.Session.Calls.Issues.{Deletes}
use authara.Store.Sessions.Live.{Single, live, is_made}
use authara.Session.Roles.{from_db_role_names}
use authara.Session.Token.{app, unreachable}
use authara.Session.Services.{Services, should_rotate, can_access_audience, ensure_user_allowed}
use authara.Session.Refresh.{
  refresh_session, refresh_body, load_refresh_token, usable_refresh_token, authorize, rotate,
  rotated, issue, reuse_error,
}
use authara.Session.Refresh.Soundness.{Granted, locked, refresh_session-Granted}
use authara.Session.Calls.{Call, perform_all}
use authara.Session.Calls.Single.{perform_all-Single}
use authara.Session.Refresh.Reuse.{idle, Contained, cache_error, refresh_session-reuse}
use authara.Session.Refresh.Once.{refresh_session-once}
use authara.Session.Fixtures.{services, laptop, token, db}

-- The run of a refresh with the session's token.
refreshed :
    (refresh_session services app 50 (codes "old") (idle db [])).0
    ≡ ok (codes "access", codes "fresh")
unfolding refresh_session refresh_body load_refresh_token usable_refresh_token
    get_refresh_token_by_hash get_session_by_id lock_user lock_organization find? any text_eq issue
    authorize get_user_by_id get_organization_membership get_user_platform_role_names
    from_db_role_names can_access_audience is_user_disabled rotate should_rotate
    consume_refresh_token ensure_user_allowed filter
refreshed = refl

refresh_session-Granted_example :
    Granted services app 50 (codes "old") (codes "access") (locked services app 50 (idle db []))
refresh_session-Granted_example =
    refresh_session-Granted services app 50 (codes "old") (idle db []) (codes "access")
      (codes "fresh") refreshed

db-Single : Single db
unfolding live is_made any count_if
db-Single = record {
  one = λ i. ground arith;
  fresh = λ i below. ground arith;
  unmade = λ i below. ground arith;
}

-- A refresh, a log-in, and a switch of the organization.
abbrev calls : List (Services × ℕ × Call)
calls =
    (services, 50, Call.refresh (codes "old") app)
    ∷ (services, 51, Call.create 1 none app password (codes "phone"))
    ∷ (services, 52, Call.switch 1 10 5 app)
    ∷ []

-- A table has seen its own rows.
All-seen :
    (session_id : ℕ) (ts us : List RefreshToken)
    → ((t : RefreshToken)
        → any (λ (x : RefreshToken). x.id == t.id && x.session_id == t.session_id) us ≡ true
        → any (λ (x : RefreshToken). x.id == t.id && x.session_id == t.session_id) ts ≡ true)
    → All (λ (t : RefreshToken). t.session_id ≡ session_id → is_seen session_id ts t ≡ true) us
unfolding any
All-seen session_id ts [] h = tt
All-seen session_id ts (t ∷ us) h = (
  λ own. rw own at (h t (ground arith)),
  All-seen session_id ts us (λ x there. h x (ground (arith, there))),
)

-- Nothing is committed while the tokens are deleted.
undisturbed : Deletes services (λ d h. h) 10
undisturbed = record {
  keeps = λ d h. h;
  adds_none = λ d. All-seen 10 d.refresh_tokens d.refresh_tokens (λ t h. h);
  ids = λ d. omega arith;
}

perform_all-Single_example : Both Single (perform_all calls (idle db []))
perform_all-Single_example =
    perform_all-Single calls (idle db [])
      ((λ d h. h, tt), ((λ d h. h, tt), ((λ d h. h, undisturbed), tt))) (db-Single, db-Single)

-- Where a refresh commits while the switch waits for its token, both leave a token that is live.
abbrev racing : Services
racing = record services {
  random_token = ok (codes "other");
  others_deleting = λ d. (refresh_session services app 52 (codes "old") (idle d [])).1.committed;
}

raced : live 10 (switch_session_organization racing 1 10 5 app 52 (idle db [])).1.committed ≡ 2
unfolding live count_if switch_session_organization switch_body admit_switch replace_tokens switched
    update_session_active_organization delete_seen_refresh_tokens create_refresh_token
    get_active_session_by_id refresh_session refresh_body load_refresh_token usable_refresh_token
    get_refresh_token_by_hash get_session_by_id lock_user lock_organization find? any text_eq issue
    authorize get_user_by_id get_organization_membership get_user_platform_role_names
    from_db_role_names can_access_audience is_user_disabled rotate should_rotate
    consume_refresh_token ensure_user_allowed filter with_transaction rotated
raced = refl

abbrev used_token : RefreshToken
used_token = record token { consumed_at = some 40 }

abbrev used : Db
used = record db { refresh_tokens = used_token ∷ [] }

refresh_session-reuse_example :
    ((refresh_session services app 50 (codes "old") (idle used [])).0
      ≡ err (reuse_error services app 50 (cache_error unreachable)))
    × Contained services app 50 laptop used_token
        (refresh_session services app 50 (codes "old") (idle used [])).1
unfolding get_refresh_token_by_hash get_session_by_id lock_user find? any text_eq
refresh_session-reuse_example =
    refresh_session-reuse services app 50 (codes "old") used [] used_token 40 laptop laptop refl
      refl refl refl refl

refresh_session-once_example :
    (refresh_session services app 60
      (codes "old")
      (refresh_session services app 50 (codes "old") (idle db [])).1).0
    ≢ ok (codes "more", codes "other")
refresh_session-once_example =
    refresh_session-once services (λ _ _ sp. sp) app app 50 60 (codes "old") (codes "access")
      (codes "fresh") (codes "more") (codes "other") (idle db []) (λ p. ground (arith, p)) refreshed

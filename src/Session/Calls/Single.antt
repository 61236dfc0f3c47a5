-- ===== src/Session/Calls/Single.antt =====
-- internal/session/service.go: histories of calls, and the refresh tokens of a session.
use authara.Prelude.{ℕ, List, [], ◌∷◌}
use authara.Store.Exec.{Db, World}
use authara.Store.Keeps.{Both}
use authara.Store.Sessions.Live.{Single}
use authara.Session.Services.{Services}
use authara.Session.Refresh.Single.{refresh_session-Single}
use authara.Session.Calls.Keeps.{
  mark-Keeps, start-Keeps, complete-Keeps, logout-Keeps, revoke_all-Keeps, revoke_one-Keeps,
  revoke_others-Keeps,
}
use authara.Session.Calls.Issues.{create-Keeps, switch-Keeps, Deletes}
use authara.Session.Calls.{
  Call, create, refresh, switch, mark, start, complete, log_out, revoke_all, revoke_one,
  revoke_others, perform, perform_all,
}

-- A switch deletes the tokens of its session.
abbrev pub DeletesFor : (s : Services) → ((d : Db) → Single d → Single (s.others d)) → Call → Type 0
DeletesFor s rely (switch user_id session_id organization_id audience) = Deletes s rely session_id
DeletesFor s rely (create user_id passkey_id audience m agent) = Unit {0}
DeletesFor s rely (refresh token audience) = Unit {0}
DeletesFor s rely (mark user_id session_id m) = Unit {0}
DeletesFor s rely (start user_id session_id id) = Unit {0}
DeletesFor s rely (complete user_id session_id id m) = Unit {0}
DeletesFor s rely (log_out token) = Unit {0}
DeletesFor s rely (revoke_all user_id) = Unit {0}
DeletesFor s rely (revoke_one user_id session_id) = Unit {0}
DeletesFor s rely (revoke_others user_id current) = Unit {0}

module _ (s : Services) (rely : (d : Db) → Single d → Single (s.others d)) where
  -- Every call keeps it.
  perform-Both :
      (now : ℕ) (c : Call) (w : World)
      → DeletesFor s rely c
      → Both Single w
      → Both Single (perform s now c w)
  unfolding perform
  perform-Both now (create user_id passkey_id audience m agent) w _ =
      (create-Keeps s rely user_id passkey_id audience m agent now).at w
  perform-Both now (refresh token audience) w _ = refresh_session-Single s audience now rely token w
  perform-Both now (switch user_id session_id organization_id audience) w deletes =
      (switch-Keeps s rely user_id session_id organization_id audience now deletes).at w
  perform-Both now (mark user_id session_id m) w _ =
      (mark-Keeps s rely user_id session_id m now).at w
  perform-Both now (start user_id session_id id) w _ =
      (start-Keeps s rely user_id session_id id now).at w
  perform-Both now (complete user_id session_id id m) w _ =
      (complete-Keeps s rely user_id session_id id m now).at w
  perform-Both now (log_out token) w _ = (logout-Keeps s rely token).at w
  perform-Both now (revoke_all user_id) w _ = (revoke_all-Keeps s rely user_id).at w
  perform-Both now (revoke_one user_id session_id) w _ =
      (revoke_one-Keeps s rely user_id session_id now).at w
  perform-Both now (revoke_others user_id current) w _ =
      (revoke_others-Keeps s rely user_id current now).at w

-- The others of each call keep what holds.
abbrev pub AllRely : List (Services × ℕ × Call) → Type 0
AllRely [] = Unit
AllRely ((s, _, c) ∷ rest) =
    ((rely : (d : Db) → Single d → Single (s.others d)) × DeletesFor s rely c) × AllRely rest

-- After any history of calls, whether they succeed or fail, no session has two unconsumed refresh
-- tokens, in what is committed and in what a transaction sees. That is so provided that it is so at
-- first, that identifiers from the next one on have no session and no unconsumed token then, and
-- that what other transactions commit during a call keeps all of it. And while a switch of the
-- organization waits for the session's tokens that it deletes, the others insert no token of that
-- session, such as a refresh of it would, and give no identifier back.
pub perform_all-Single :
    (calls : List (Services × ℕ × Call)) (w : World)
    → AllRely calls
    → Both Single w
    → Both Single (perform_all calls w)
unfolding perform_all
perform_all-Single [] w rely h = h
perform_all-Single ((s, now, c) ∷ rest) w ((rely, deletes), later) h =
    perform_all-Single rest (perform s now c w) later (perform-Both s rely now c w deletes h)

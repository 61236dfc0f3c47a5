-- ===== src/Session/Recent/Renewal.antt =====
-- internal/session/service.go: a challenge that is completed renews the session's authentication.
use authara.Prelude.{
  ℕ, ◌+◌, ◌==◌, ◌≤◌, ◌≡◌, ◌≢◌, refl, inl, inr, some, Bool, true, false, not, ◌&&◌, List, [], ◌∷◌,
  arith, ltb, suc, find?, is_some,
}
use authara.Prelude.Int.{pos}
use authara.Store.Rows.{
  Session, AuthenticationChallenge, AuthenticationMethod, is_consumed, is_expired,
}
use authara.Store.Exec.{Db, World, ok, Result-cases}
use authara.Store.Sessions.{
  update_where, is_active, get_active_session_by_id, update_session_authentication,
  get_authentication_challenge_by_id, consume_authentication_challenge,
}
use authara.Session.Services.{Services, SessionPolicy}
use authara.Session.Recent.{
  is_within_window, require_recent_authentication, complete_body, complete_authentication_challenge,
}

-- The statement's condition and its change.
abbrev to_renew : ℕ → ℕ → ℕ → Session → Bool
to_renew user_id session_id now x = x.id == session_id && x.user_id == user_id && is_active now x

abbrev renewed : ℕ → AuthenticationMethod → Session → Session
renewed now m x = record x { authenticated_at = some now; authentication_method = some m }

find?-renewed :
    (user_id session_id now now' : ℕ) (m : AuthenticationMethod) (ss : List Session) (x : Session)
    → now ≤ now'
    → find?
        (λ (y : Session). y.id == session_id && is_active now' y)
        (update_where (to_renew user_id session_id now) (renewed now m) ss)
      ≡ some x
    → x.user_id ≡ user_id
    → (x.authenticated_at ≡ some now) × (x.authentication_method ≡ some m)
unfolding find?
find?-renewed user_id session_id now now' m [] x later found own = cc
find?-renewed user_id session_id now now' m (y ∷ ys) x later found own =
    ground (arith, find?-renewed user_id session_id now now' m ys x later)

abbrev to_complete : ℕ → ℕ → AuthenticationChallenge → Bool
to_complete challenge_id now c =
    c.id == challenge_id && not (is_some c.consumed_at) && ltb now c.expires_at

abbrev completed : AuthenticationMethod → ℕ → AuthenticationChallenge → AuthenticationChallenge
completed m now c = record c { consumed_at = some now; authentication_method = some m }

find?-completed :
    (challenge_id now : ℕ) (m : AuthenticationMethod) (cs : List AuthenticationChallenge)
    (c : AuthenticationChallenge)
    → find? (λ (x : AuthenticationChallenge). x.id == challenge_id) cs ≡ some c
    → is_consumed c ≡ false
    → is_expired c now ≡ false
    → find?
        (λ (x : AuthenticationChallenge). x.id == challenge_id)
        (update_where (to_complete challenge_id now) (completed m now) cs)
      ≡ some (completed m now c)
unfolding find?
find?-completed challenge_id now m [] c found fresh in_time = cc
find?-completed challenge_id now m (x ∷ xs) c found fresh in_time =
    ground (arith, find?-completed challenge_id now m xs c)

module _ (s : Services) (user_id session_id challenge_id : ℕ) (m : AuthenticationMethod)
    (now : ℕ) where
  complete-sessions :
      (w : World)
      → (complete_authentication_challenge s user_id session_id challenge_id m now w).0 ≡ ok tt
      → (complete_authentication_challenge s user_id session_id challenge_id m now w).1.db.sessions
        ≡ update_where
            (to_renew user_id session_id now)
            (renewed now m)
            (s.others w.committed).sessions
  unfolding complete_authentication_challenge complete_body update_session_authentication
      consume_authentication_challenge
  complete-sessions w h = ground arith

  complete-challenges :
      (w : World)
      → (complete_authentication_challenge s user_id session_id challenge_id m now w).0 ≡ ok tt
      → let w' = (complete_authentication_challenge s user_id session_id challenge_id m now w).1 in
        (w'.db ≡ w'.committed)
        × (w'.db.authentication_challenges
            ≡ update_where
                (to_complete challenge_id now)
                (completed m now)
                (s.others w.committed).authentication_challenges)
  unfolding complete_authentication_challenge complete_body update_session_authentication
      consume_authentication_challenge
  complete-challenges w h = ground arith

  complete-found :
      (w : World)
      → (complete_authentication_challenge s user_id session_id challenge_id m now w).0 ≡ ok tt
      → (c : AuthenticationChallenge) × (get_authentication_challenge_by_id challenge_id
            (s.others w.committed)
          ≡ ok c)
        × (is_consumed c ≡ false)
        × (is_expired c now ≡ false)
  unfolding complete_authentication_challenge complete_body
  complete-found w h =
      elim (Result-cases (get_authentication_challenge_by_id challenge_id (s.others w.committed))) [
        | inr (e, missing) ↦ ground (arith, h, missing)
        | inl (c, found) ↦ (c, found, ground (arith, h, found), ground (arith, h, found))
      ]

  -- Whenever a challenge is completed, the session is recently authenticated from then on until the
  -- window of the policy is over, for as long as it is active and the user's.
  pub complete_authentication_challenge-renews :
      (policy : SessionPolicy) (window now' : ℕ) (w : World) (x : Session)
      → (complete_authentication_challenge s user_id session_id challenge_id m now w).0 ≡ ok tt
      → policy.recent_authentication_window ≡ pos (suc window)
      → now ≤ now'
      → now' ≤ now + suc window
      → let w' = (complete_authentication_challenge s user_id session_id challenge_id m now w).1 in
        get_active_session_by_id session_id now' w'.db ≡ ok x
        → x.user_id ≡ user_id
        → (require_recent_authentication policy user_id session_id now' w').0 ≡ ok tt
  unfolding require_recent_authentication is_within_window get_active_session_by_id
  complete_authentication_challenge-renews policy window now' w x h e later within found own =
      let w' = (complete_authentication_challenge s user_id session_id challenge_id m now w).1 in
      let at =
        find?-renewed user_id session_id now now' m (s.others w.committed).sessions x later in
      ground (arith, h, e, found, own, complete-sessions w h, at)

-- The challenge of the id is consumed.
abbrev pub IsCompleted : ℕ → Db → Type 0
IsCompleted challenge_id d =
    (c : AuthenticationChallenge) × (get_authentication_challenge_by_id challenge_id d ≡ ok c)
    × (is_consumed c ≡ true)

challenge-completed :
    (challenge_id now : ℕ) (m : AuthenticationMethod) (c : AuthenticationChallenge) (d d' : Db)
    → d'.authentication_challenges
      ≡ update_where (to_complete challenge_id now) (completed m now) d.authentication_challenges
    → get_authentication_challenge_by_id challenge_id d ≡ ok c
    → is_consumed c ≡ false
    → is_expired c now ≡ false
    → IsCompleted challenge_id d'
unfolding get_authentication_challenge_by_id
challenge-completed challenge_id now m c d d' e found fresh in_time = (
  completed m now c,
  ground (
    arith,
    e,
    found,
    fresh,
    in_time,
    find?-completed challenge_id now m d.authentication_challenges c,
  ),
  refl,
)

module _ (s : Services)
    (rely : (i : ℕ) (d : Db) → IsCompleted i d → IsCompleted i (s.others d)) where
  -- A challenge is completed at most once: whoever completes it again, for whatever session and at
  -- whatever time, fails, as long as the other transactions leave a consumed challenge consumed.
  pub complete_authentication_challenge-once :
      (user_id user_id' session_id session_id' challenge_id now now' : ℕ)
      (m m' : AuthenticationMethod) (w : World)
      → (complete_authentication_challenge s user_id session_id challenge_id m now w).0 ≡ ok tt
      → (complete_authentication_challenge s user_id' session_id' challenge_id m' now'
          (complete_authentication_challenge s user_id session_id challenge_id m now w).1).0
        ≢ ok tt
  complete_authentication_challenge-once user_id user_id' session_id session_id' challenge_id now
        now' m m' w h h' =
      let w' = (complete_authentication_challenge s user_id session_id challenge_id m now w).1 in
      let (same, changed) = complete-challenges s user_id session_id challenge_id m now w h in
      let (c, found, fresh, in_time) = complete-found s user_id session_id challenge_id m now w h in
      let done =
        challenge-completed challenge_id now m c (s.others w.committed) w'.db changed found fresh
          in_time in
      let (c₁, found₁, consumed₁) = rely challenge_id w'.committed (rw same at done) in
      let (c₂, found₂, fresh₂, _) =
        complete-found s user_id' session_id' challenge_id m' now' w' h' in
      ground (arith, found₁, consumed₁, found₂, fresh₂)

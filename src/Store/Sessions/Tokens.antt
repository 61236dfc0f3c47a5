-- ===== src/Store/Sessions/Tokens.antt =====
-- internal/store/sessions.go: the statements that change no refresh token keep at most one
-- unconsumed for each session.
use authara.Prelude.{
  ℕ, ◌<◌, ◌==◌, ◌≡◌, refl, Bool, true, false, not, ◌&&◌, List, [], ◌∷◌, arith, any, is_some, subst,
  if◌then◌else◌,
}
use authara.Store.Rows.{
  Session, AuthenticationMethod, SecurityEvent, EmailJob, AuthenticationChallenge,
}
use authara.Store.Exec.{Db, Error, ok, err}
use authara.Store.Outbox.{add_email}
use authara.Store.Sessions.{
  update_where, revoke, revoke_session, revoke_all_sessions_for_user,
  revoke_other_sessions_by_user_id, update_session_authentication,
  update_session_active_organization, replace_authentication_challenge,
  consume_authentication_challenge,
}
use authara.Store.Sessions.Live.{Single, live, is_made}

-- A statement that leaves the refresh tokens and the ids of the sessions as they are.
leaves_tokens :
    (d d' : Db)
    → d'.refresh_tokens ≡ d.refresh_tokens
    → d'.next_id ≡ d.next_id
    → ((i : ℕ) → is_made i d' ≡ is_made i d)
    → Single d
    → Single d'
unfolding live
leaves_tokens d d' e n made h = record {
  one = λ i. ground (arith, h.one i, e);
  fresh = λ i below. ground (arith, h.fresh i, e, n);
  unmade = λ i below. ground (arith, h.unmade i, made i, n);
}

-- Statements that change other tables.
leaves_sessions :
    (d d' : Db)
    → d'.refresh_tokens ≡ d.refresh_tokens
    → d'.next_id ≡ d.next_id
    → d'.sessions ≡ d.sessions
    → Single d
    → Single d'
unfolding is_made
leaves_sessions d d' e n made = leaves_tokens d d' e n (λ i. ground (arith, made))

any-update_where :
    (i : ℕ) (p : Session → Bool) (f : Session → Session) (ss : List Session)
    → ((x : Session) → (f x).id ≡ x.id)
    → any (λ (x : Session). x.id == i) (update_where p f ss) ≡ any (λ (x : Session). x.id == i) ss
unfolding any
any-update_where i p f [] same = refl
any-update_where i p f (x ∷ xs) same = ground (arith, same x, any-update_where i p f xs same)

updated-Single :
    (p : Session → Bool) (f : Session → Session) (d : Db)
    → ((x : Session) → (f x).id ≡ x.id)
    → Single d
    → Single (record d { sessions = update_where p f d.sessions })
unfolding is_made
updated-Single p f d same =
    leaves_tokens d _ refl refl (λ i. any-update_where i p f d.sessions same)

pub revoke_session-Single : (id at : ℕ) (d : Db) → Single d → Single (revoke_session id at d)
unfolding revoke_session
revoke_session-Single id at d = updated-Single _ (revoke at) d (λ x. refl)

pub revoke_all-Single :
    (id at : ℕ) (d : Db) → Single d → Single (revoke_all_sessions_for_user id at d)
unfolding revoke_all_sessions_for_user
revoke_all-Single id at d = updated-Single _ (revoke at) d (λ x. refl)

pub revoke_other-Single :
    (id keep at : ℕ) (d : Db) → Single d → Single (revoke_other_sessions_by_user_id id keep at d)
unfolding revoke_other_sessions_by_user_id
revoke_other-Single id keep at d = updated-Single _ (revoke at) d (λ x. refl)

-- Where the statement answers that no row was affected, there is nothing to show.
affected-Single :
    (b : Bool) (d d' : Db) (e : Error) → (if b then ok d else err e) ≡ ok d' → Single d → Single d'
affected-Single true d d' e q h = subst Single (ok-inj d d' q) h
  where
    ok-inj : (x y : Db) → ok x ≡ ok y → x ≡ y
    ok-inj x y q = cc
affected-Single false d d' e q h = cc

pub update_authentication-Single :
    (user_id id : ℕ) (m : AuthenticationMethod) (at : ℕ) (d d' : Db)
    → update_session_authentication user_id id m at d ≡ ok d'
    → Single d
    → Single d'
unfolding update_session_authentication
update_authentication-Single user_id id m at d d' e h =
    affected-Single _ _ d' _ e (updated-Single _ _ d (λ x. refl) h)

pub update_organization-Single :
    (id org : ℕ) (d d' : Db)
    → update_session_active_organization id org d ≡ ok d'
    → Single d
    → Single d'
unfolding update_session_active_organization
update_organization-Single id org d d' e h =
    affected-Single _ _ d' _ e (updated-Single _ _ d (λ x. refl) h)

any-and :
    (i : ℕ) (q : Session → Bool) (ss : List Session)
    → any (λ (x : Session). x.id == i && q x) ss ≡ true
    → any (λ (x : Session). x.id == i) ss ≡ true
unfolding any
any-and i q [] h = cc
any-and i q (x ∷ xs) h = ground (arith, any-and i q xs)

-- The session that such a statement finds has an id that was given before.
pub update_organization-below :
    (id org : ℕ) (d d' : Db)
    → update_session_active_organization id org d ≡ ok d'
    → Single d
    → id < d'.next_id
unfolding update_session_active_organization is_made
update_organization-below id org d d' e h =
    ground
      (arith, e, h.unmade id, any-and id (λ (x : Session). not (is_some x.revoked_at)) d.sessions)

pub consume_challenge-Single :
    (id : ℕ) (m : AuthenticationMethod) (at : ℕ) (d d' : Db)
    → consume_authentication_challenge id m at d ≡ ok d'
    → Single d
    → Single d'
unfolding consume_authentication_challenge
consume_challenge-Single id m at d d' e h =
    affected-Single _ _ d' _ e (leaves_sessions d _ refl refl refl h)

pub replace_challenge-Single :
    (c : AuthenticationChallenge) (d : Db)
    → Single d
    → Single (replace_authentication_challenge c d)
unfolding replace_authentication_challenge
replace_challenge-Single c d h = by_conflict _ _ _
  where
    by_conflict :
        (b : Bool) (xs ys : List AuthenticationChallenge)
        → Single (
            if b
            then record d { authentication_challenges = xs }
            else record d { authentication_challenges = ys })
    by_conflict true xs ys = leaves_sessions d _ refl refl refl h
    by_conflict false xs ys = leaves_sessions d _ refl refl refl h

pub event-Single :
    (es : List SecurityEvent) (d : Db) → Single d → Single (record d { security_events = es })
event-Single es d = leaves_sessions d _ refl refl refl

pub email-Single : (job : EmailJob) (d : Db) → Single d → Single (add_email job d)
email-Single job d =
    leaves_sessions d (add_email job d) (ground arith) (ground arith) (ground arith)

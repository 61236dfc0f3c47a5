-- ===== src/Session/Examples/Access.antt =====
-- internal/session/service.go: sign-ins, challenges and revocations on a database with one session.
use authara.Prelude.{
  Bool, ◌==◌, ◌⊎◌, List, ◌≡◌, ◌≢◌, refl, none, some, false, [], ◌∷◌, arith, any, find?, filter,
  count_if,
}
use authara.Prelude.Int.{pos}
use authara.Prelude.Text.{codes, trim_space}
use authara.Store.Rows.{Session, AuthenticationChallenge, password}
use authara.Store.Exec.{Db, World, Error, ok, err}
use authara.Store.Outbox.{enqueue}
use authara.Store.Users.{
  get_user_by_id, get_organization_membership, get_user_platform_role_names, is_user_disabled,
  lock_user, lock_organization, default_organization_for_user, get_personal_organization_for_user,
  first_membership,
}
use authara.Store.Sessions.{
  get_active_session_by_id, update_session_authentication, get_authentication_challenge_by_id,
  consume_authentication_challenge, create_session, list_active_sessions_by_user_id,
}
use authara.Session.Roles.{from_db_role_names}
use authara.Session.Token.{app}
use authara.Session.Services.{can_access_audience, ensure_user_allowed}
use authara.Session.Create.{create_session_for, create_body, is_passkey_usable, admit, open_session}
use authara.Session.Create.Admission.{Admitted, create_session_for-Admitted}
use authara.Session.Recent.{
  complete_authentication_challenge, complete_body, is_known_method, require_recent_authentication,
}
use authara.Session.Recent.Renewal.{
  complete_authentication_challenge-renews, complete_authentication_challenge-once,
}
use authara.Session.Revocation.{revoke_all_sessions, list_user_sessions}
use authara.Session.Revocation.Listing.{list_user_sessions-reordered}
use authara.Session.Revocation.Effects.{AllRevoked, revoke_all_sessions-AllRevoked}
use authara.Session.Refresh.Reuse.{idle}
use authara.Session.Fixtures.{policy, services, laptop, db}

-- Five minutes are given to answer the challenge that a settings page asks for.
abbrev challenge : AuthenticationChallenge
challenge = record {
  id = 40;
  user_id = 1;
  session_id = 10;
  created_at = 45;
  expires_at = 345;
  consumed_at = none;
  authentication_method = none;
}

abbrev challenged : Db
challenged = record db { authentication_challenges = challenge ∷ [] }

abbrev answered : World
answered = (complete_authentication_challenge services 1 10 40 password 50 (idle challenged [])).1

completed :
    (complete_authentication_challenge services 1 10 40 password 50 (idle challenged [])).0 ≡ ok tt
unfolding complete_authentication_challenge complete_body is_known_method get_active_session_by_id
    get_authentication_challenge_by_id update_session_authentication
    consume_authentication_challenge find? any
completed = refl

complete_authentication_challenge-renews_example :
    (require_recent_authentication
      (record policy { recent_authentication_window = pos 100 })
      1
      10
      149
      answered).0
    ≡ ok tt
unfolding complete_authentication_challenge complete_body is_known_method get_active_session_by_id
    get_authentication_challenge_by_id update_session_authentication
    consume_authentication_challenge find? any
complete_authentication_challenge-renews_example =
    complete_authentication_challenge-renews services 1 10 40 password 50
      (record policy { recent_authentication_window = pos 100 }) 99 149 (idle challenged [])
      (record laptop { authenticated_at = some 50 }) refl refl (omega arith) (omega arith) refl refl

complete_authentication_challenge-once_example :
    (complete_authentication_challenge services 1 10 40 password 60 answered).0 ≢ ok tt
complete_authentication_challenge-once_example =
    complete_authentication_challenge-once services (λ _ _ h. h) 1 1 10 10 40 50 60 password
      password (idle challenged []) completed

revoke_all_sessions-AllRevoked_example :
    let (r, w') = revoke_all_sessions services 1 (idle db []) in
    ((r ≡ ok tt) × AllRevoked services 1 w')
    ⊎ ((e : Error) × (r ≡ err e) × (w'.committed ≡ db) × (w'.db ≡ db))
revoke_all_sessions-AllRevoked_example = revoke_all_sessions-AllRevoked services 1 (idle db [])

signed_in :
    (create_session_for services 1 none app password (codes "phone") 50 (idle db [])).0
    ≡ ok (codes "access", codes "fresh")
unfolding create_session_for create_body ensure_user_allowed get_user_by_id lock_user
    is_passkey_usable admit default_organization_for_user get_personal_organization_for_user
    first_membership get_organization_membership lock_organization get_user_platform_role_names
    from_db_role_names can_access_audience is_user_disabled open_session create_session enqueue
    trim_space find? any filter
signed_in = refl

create_session_for-Admitted_example :
    Admitted services 1 none app password (codes "phone") 50 (idle db [])
create_session_for-Admitted_example =
    create_session_for-Admitted services 1 none app password (codes "phone") 50 (idle db [])
      (codes "access", codes "fresh") signed_in

-- The second of two sessions is the current one.
abbrev phone : Session
phone = record laptop { id = 11; user_agent = codes "phone" }

abbrev two : Db
two = record db { sessions = laptop ∷ phone ∷ [] }

list_user_sessions-reordered_example :
    let listed = list_user_sessions 1 phone.id 50 two in
    let active = list_active_sessions_by_user_id 1 50 two in
    ((p : Session → Bool) → count_if p listed ≡ count_if p active)
    × ((phone.id ≡ 0)
        ⊎ (any (λ (x : Session). x.id == phone.id) active ≡ false)
        ⊎ ((c : Session) × (rest : List Session) × (listed ≡ c ∷ rest) × (c.id ≡ phone.id)))
list_user_sessions-reordered_example = list_user_sessions-reordered 1 phone.id 50 two

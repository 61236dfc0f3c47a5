-- ===== src/Session/Calls/Issues.antt =====
-- internal/session/service.go: the methods that make a refresh token for a session.
use authara.Prelude.{ℕ, ◌<◌, ◌≤◌, ◌≡◌, Option, inl, inr, arith}
use authara.Prelude.Text.{Text}
use authara.Store.Rows.{
  User, Session, Organization, OrganizationMembership, AuthenticationMethod, RefreshToken,
}
use authara.Store.Exec.{Db, World, Exec, ok, Result-cases, writes, ◌>>◌}
use authara.Store.Keeps.{Both, Keeps, Both-bind, keeps_rules, Keeps-writes, Keeps-waits}
use authara.Store.Sessions.{
  create_session, create_refresh_token, delete_refresh_tokens_by_session,
  update_session_active_organization,
}
use authara.Store.Sessions.Live.{Single, live, live-delete_self, AddsNone, delete_seen-all}
use authara.Store.Sessions.Tokens.{update_organization-Single, update_organization-below}
use authara.Store.Sessions.Issued.{
  statements, delete_tokens-Single, created-Single, create_session-Single, create_session-open,
}
use authara.Session.Roles.{Roles}
use authara.Session.Token.{Audience}
use authara.Session.Services.{Services}
use authara.Session.Create.{
  create_session_for, create_body, admit, open_session, new_session, new_refresh_token, sign_in,
}
use authara.Session.Switch.{
  switch_session_organization, switch_body, admit_switch, replace_tokens, switched, switched_token,
  sign,
}
use authara.Session.Calls.Keeps.{ensure-Keeps, denied-Keeps, enqueue-Keeps}

module _ (s : Services) (rely : (d : Db) → Single d → Single (s.others d)) where
  issue-Both :
      {B : Type 0} (t : RefreshToken) (rest : Exec B) (w : World)
      → live t.session_id w.db ≡ 0
      → t.session_id < w.db.next_id
      → Both Single w
      → Keeps Single rest
      → Both Single ((writes (create_refresh_token s.db_now t) >> rest) w).1
  issue-Both t rest w none_left below h k =
      Both-bind Single (writes (create_refresh_token s.db_now t)) (λ _. rest) w
        (h.0, created-Single s.db_now t w.db none_left below h.1) (λ _. k)

  open-Keeps :
      (user_id : ℕ) (passkey_id : Option ℕ) (audience : Audience) (m : AuthenticationMethod)
      (agent : Text) (now : ℕ) (user : User) (org : Organization)
      (membership : OrganizationMembership) (roles : Roles)
      → Keeps Single
          (open_session s user_id passkey_id audience m agent now user org membership roles)
  unfolding open_session
  open-Keeps user_id passkey_id audience m agent now user org membership roles = record {
    at = λ w h.
        let (row, d) =
          create_session s.db_now (new_session s user_id passkey_id audience m agent now org)
            w.db in
        let made = create_session-Single s.db_now _ w.db h.1 in
        let opening =
          create_session-open s.db_now (new_session s user_id passkey_id audience m agent now org)
            w.db h.1 in
        elim (Result-cases s.random_token) [
          | inr (e, failed) ↦ rw failed (h.0, made)
          | inl (token, drawn) ↦ rw drawn (
              issue-Both
                (new_refresh_token s user_id passkey_id audience m agent now row org
                  (s.hash_refresh_token token))
                (sign_in s user_id passkey_id audience m agent now user org membership roles row
                  token)
                (record w { db = d }) opening.0 opening.1 (h.0, made)
                (search (keeps_rules, Keeps-writes, statements, enqueue-Keeps s rely) depth 30))
        ];
  }

  pub create-Keeps :
      (user_id : ℕ) (passkey_id : Option ℕ) (audience : Audience) (m : AuthenticationMethod)
      (agent : Text) (now : ℕ)
      → Keeps Single (create_session_for s user_id passkey_id audience m agent now)
  unfolding create_session_for create_body admit
  create-Keeps user_id passkey_id audience m agent now =
      search (keeps_rules, Keeps-waits, ensure-Keeps s rely, denied-Keeps s rely, open-Keeps, rely)
        depth 40

  -- What is asked of the others while the tokens of a session are deleted: that they keep the
  -- invariant, insert no token of the session and give no identifier back.
  pub record Deletes (session_id : ℕ) : Type 0 where
    pub keeps : (d : Db) → Single d → Single (s.others_deleting d)
    pub adds_none : (d : Db) → AddsNone session_id d (s.others_deleting d)
    pub ids : (d : Db) → d.next_id ≤ (s.others_deleting d).next_id

  module _ (user_id session_id organization_id : ℕ) (audience : Audience) (now : ℕ)
      (deletes : Deletes session_id) where
    -- Once the session is changed.
    replaced-Both :
        (user : User) (session : Session) (membership : OrganizationMembership) (roles : Roles)
        (w : World) (d : Db)
        → update_session_active_organization session_id organization_id w.db ≡ ok d
        → Both Single w
        → Both Single
            (switched s user_id session_id organization_id audience now user session membership
              roles
              (record w { db = d })).1
    unfolding switched
    replaced-Both user session membership roles w d done h =
        let d₀ = s.others_deleting d in
        let c₀ = deletes.keeps w.committed h.0 in
        let before = update_organization-below session_id organization_id w.db d done h.1 in
        let below : session_id < d₀.next_id = omega (arith, before, deletes.ids d) in
        let kept = delete_tokens-Single session_id d₀ (
          deletes.keeps d
            (update_organization-Single session_id organization_id w.db d done h.1)) in
        let d₁ = delete_refresh_tokens_by_session session_id d₀ in
        rw (delete_seen-all session_id d d₀ (deletes.adds_none d))
          (elim (Result-cases s.random_token) [
            | inr (e, failed) ↦ rw failed (c₀, kept)
            | inl (token, drawn) ↦ rw drawn (
                issue-Both
                  (switched_token s user_id session_id organization_id audience now session
                    (s.hash_refresh_token token))
                  (sign s user_id session_id organization_id audience now user membership roles
                    token)
                  (record w { committed = s.others_deleting w.committed; db = d₁ })
                  (live-delete_self session_id d₀)
                  (unfold delete_refresh_tokens_by_session in below) (c₀, kept)
                  (search (keeps_rules) depth 30))
          ])

    replace-Keeps :
        (user : User) (session : Session) (membership : OrganizationMembership) (roles : Roles)
        → Keeps Single (
            replace_tokens s user_id session_id organization_id audience now user session membership
              roles)
    unfolding replace_tokens
    replace-Keeps user session membership roles = record {
      at = λ w h.
          let d₁ = s.others w.committed in
          let w₁ : World = record w { committed = d₁; db = d₁ } in
          let h₁ = rely w.committed h.0 in
          elim (Result-cases (update_session_active_organization session_id organization_id d₁)) [
            | inr (e, refused) ↦ rw refused (h₁, h₁)
            | inl (d, done) ↦
                rw done (replaced-Both user session membership roles w₁ d done (h₁, h₁))
          ];
    }

    pub switch-Keeps :
        Keeps Single (switch_session_organization s user_id session_id organization_id audience now)
    unfolding switch_session_organization switch_body admit_switch
    switch-Keeps =
        search (keeps_rules, Keeps-waits, ensure-Keeps s rely, replace-Keeps, rely) depth 40

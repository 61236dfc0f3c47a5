-- ===== src/Session/Pages.antt =====
-- internal/session/pagination.go: ListUserSessionsPage, with the query that it runs.
pub mod Rows
pub mod Order
pub mod Walk
mod Examples
use authara.Prelude.{
  ℕ, ◌+◌, Option, none, some, Bool, true, ◌&&◌, ◌||◌, List, [], ◌∷◌, filter, ◌==◌, ltb,
  if◌then◌else◌,
}
use authara.Prelude.Text.{Text, codes}
use authara.Store.Rows.{Session}
use authara.Store.Exec.{Db}
use authara.Store.Sessions.{list_active_sessions_by_user_id}
use authara.Keyset.{
  Options, Boundary, Page, Reply, reply, invalid_page, unencodable, panicked, CursorCodec, decode,
  finish, take,
}

abbrev pub boundary_of : Session → Boundary
boundary_of s = record { created_at = s.created_at; id = s.id }

-- (created_at, id) < ($3, $4)
abbrev pub is_before : Boundary → Session → Bool
is_before b s = ltb s.created_at b.created_at || (s.created_at == b.created_at && ltb s.id b.id)

-- ORDER BY created_at DESC, id DESC
unfoldable pub insert : Session → List Session → List Session
insert s [] = s ∷ []
insert s (x ∷ xs) =
    let rest = insert s xs in if is_before (boundary_of s) x then s ∷ x ∷ xs else x ∷ rest

unfoldable pub sort : List Session → List Session
unfolding insert
sort [] = []
sort (s ∷ ss) = insert s (sort ss)

abbrev pub is_past : Option Boundary → Session → Bool
is_past none s = true
is_past (some b) s = is_before b s

-- LIMIT NULLIF($5, 0)
abbrev pub up_to : ℕ → List Session → List Session
up_to limit rows = if limit == 0 then rows else take limit rows

unfoldable pub list_active_sessions_page_by_user_id :
    ℕ → ℕ → Option Boundary → ℕ → Db → List Session
list_active_sessions_page_by_user_id user_id now cursor limit d =
    up_to limit (sort (filter (is_past cursor) (list_active_sessions_by_user_id user_id now d)))

abbrev pub account_sessions : Text
account_sessions = codes "account_sessions"

abbrev page_at : CursorCodec → ℕ → ℕ → Db → Reply (Option Boundary × ℕ) → Reply (Page Session)
page_at codec user_id now d (reply (boundary, limit)) =
    finish codec (list_active_sessions_page_by_user_id user_id now boundary (limit + 1) d) limit
      account_sessions user_id (λ (s : Session). (s.created_at, s.id))
page_at codec user_id now d invalid_page = invalid_page
page_at codec user_id now d unencodable = unencodable
page_at codec user_id now d panicked = panicked

unfoldable pub list_user_sessions_page : CursorCodec → ℕ → ℕ → Options → Db → Reply (Page Session)
list_user_sessions_page codec user_id now options d =
    page_at codec user_id now d (decode codec options account_sessions user_id)

-- ===== src/Session/Pages/Walk.antt =====
-- internal/session/pagination.go: a client that follows the cursors of ListUserSessionsPage.
use authara.Prelude.{
  ℕ, zero, suc, ◌≤◌, ◌<◌, ◌+◌, ◌≡◌, refl, ap, inl, inr, Option, none, some, Bool, true, false, not,
  List, [], ◌∷◌, ◌++◌, any, length, append_assoc, filter, count_if, arith, leb,
}
use authara.Prelude.Int.{pos}
use authara.Prelude.Text.{Text}
use authara.Store.Rows.{Session}
use authara.Store.Exec.{Db}
use authara.Store.Sessions.{list_active_sessions_by_user_id}
use authara.Keyset.{
  Boundary, Page, Cursor, Reply, reply, invalid_page, unencodable, panicked, CursorCodec, max_limit,
  decode, finish, take,
}
use authara.Keyset.Cursors.{is_printable, finish-decode, any-take}
use authara.Session.Pages.{
  boundary_of, is_past, sort, up_to, account_sessions, list_user_sessions_page,
  list_active_sessions_page_by_user_id,
}
use authara.Session.Pages.Rows.{
  take-all, first_rows, last?-append, any-append-right, shorter, filter-true,
}
use authara.Session.Pages.Order.{
  is_unique, descends, sort-filter-last, sort-descends, any-sort, count_if-sort, length-sort,
}

abbrev pub joined : List Session → Option (List Session) → Option (List Session)
joined items none = none
joined items (some rest) = some (items ++ rest)

abbrev pub continued : Text → List Session → (Text → Option (List Session)) → Option (List Session)
continued [] items next = some items
continued (c ∷ cs) items next = joined items (next (c ∷ cs))

abbrev pub after : Reply (Page Session) → (Text → Option (List Session)) → Option (List Session)
after (reply page) next = continued page.next_cursor page.items next
after invalid_page next = none
after unencodable next = none
after panicked next = none

-- The sessions of at most so many pages, none if a page fails or there are more pages.
unfoldable pub walk : CursorCodec → ℕ → ℕ → ℕ → Db → ℕ → Text → Option (List Session)
walk codec user_id now limit d zero cursor = none
walk codec user_id now limit d (suc pages) cursor =
    after
      (list_user_sessions_page codec user_id now
        record { cursor = cursor; limit = some (pos limit) } d)
      (λ next. walk codec user_id now limit d pages next)

abbrev pub is_keyed : ℕ → Session → Bool
is_keyed latest s = is_printable latest (s.created_at, s.id)

-- A cursor that gives a boundary is not the empty one, so a walk goes on with it.
continued-joined :
    (codec : CursorCodec) (t kind : Text) (scope limit : ℕ) (b : Boundary)
    (items more : List Session) (next : Text → Option (List Session))
    → decode codec record { cursor = t; limit = some (pos limit) } kind scope
      ≡ reply (some b, limit)
    → next t ≡ some more
    → continued t items next ≡ some (items ++ more)
unfolding decode
continued-joined codec [] kind scope limit b items more next decoded rest = ground (arith, decoded)
continued-joined codec (c ∷ cs) kind scope limit b items more next decoded rest = cc rest

up_to-suc : (n : ℕ) (rows : List Session) → up_to (n + 1) rows ≡ take (n + 1) rows
up_to-suc n rows = ground arith

page-eq :
    (codec : CursorCodec) (user_id now limit : ℕ) (d : Db) (cursor : Text)
    (boundary : Option Boundary) (rest : List Session) (page : Page Session)
    → decode codec record { cursor = cursor; limit = some (pos limit) } account_sessions user_id
      ≡ reply (boundary, limit)
    → sort (filter (is_past boundary) (list_active_sessions_by_user_id user_id now d)) ≡ rest
    → finish codec
        (take (limit + 1) rest)
        limit
        account_sessions
        user_id
        (λ (s : Session). (s.created_at, s.id))
      ≡ reply page
    → list_user_sessions_page codec user_id now
        record { cursor = cursor; limit = some (pos limit) }
        d
      ≡ reply page
unfolding list_user_sessions_page list_active_sessions_page_by_user_id
page-eq codec user_id now limit d cursor boundary rest page decoded found finished =
    rw (decoded, found, up_to-suc limit rest, finished)

module _ (codec : CursorCodec)
    (parse-print : (c : Cursor) (t : Text) → codec.print c ≡ some t → codec.parse t ≡ some c)
    (parse-empty : codec.parse [] ≡ none) (latest : ℕ)
    (prints : (c : Cursor) → leb c.created_at latest ≡ true → (t : Text) × (codec.print c ≡ some t))
    (user_id now limit : ℕ) (d : Db) where
  module _ (positive : 1 ≤ limit) (small : limit ≤ max_limit)
      (unique : is_unique (list_active_sessions_by_user_id user_id now d) ≡ true) where
    -- From a cursor behind which the query finds `rest`, the last of all, the pages hold `rest`.
    walk_from :
        (pages : ℕ) (cursor : Text) (boundary : Option Boundary) (seen rest : List Session)
        → length rest < pages
        → any (λ s. not (is_keyed latest s)) rest ≡ false
        → decode codec record { cursor = cursor; limit = some (pos limit) } account_sessions user_id
          ≡ reply (boundary, limit)
        → sort (filter (is_past boundary) (list_active_sessions_by_user_id user_id now d)) ≡ rest
        → sort (list_active_sessions_by_user_id user_id now d) ≡ seen ++ rest
        → walk codec user_id now limit d pages cursor ≡ some rest
    unfolding walk
    walk_from zero cursor boundary seen rest enough keyed decoded found whole =
        ground (arith, enough)
    walk_from (suc pages) cursor boundary seen rest enough keyed decoded found whole =
        let (page, finished, leads) =
          finish-decode codec parse-print parse-empty latest (take (limit + 1) rest) limit
            account_sessions user_id (λ (s : Session). (s.created_at, s.id)) prints positive small
            (any-take (λ s. not (is_keyed latest s)) (limit + 1) rest keyed) in
        let shown =
          page-eq codec user_id now limit d cursor boundary rest page decoded found finished in
        elim leads [
          | inl (all, ended, short) ↦
              cc (shown, all, ended, take-all (limit + 1) rest (omega (arith, short)))
          | inr (x, tail, split, full, over, last, next) ↦
              let (more, parts) = first_rows (limit + 1) rest page.items tail split in
              let onward =
                walk_from pages page.next_cursor (some (boundary_of x)) (seen ++ page.items) more
                  (shorter limit pages rest page.items more positive enough full parts)
                  (any-append-right (λ s. not (is_keyed latest s)) page.items more
                    (cc (keyed, parts)))
                  next
                  (sort-filter-last (list_active_sessions_by_user_id user_id now d)
                    (seen ++ page.items) more x unique
                    (cc (whole, parts, append_assoc seen page.items more))
                    (last?-append seen page.items x last))
                  (cc (whole, parts, append_assoc seen page.items more)) in
              let joined_rest =
                continued-joined codec page.next_cursor account_sessions user_id limit
                  (boundary_of x) page.items more (λ t. walk codec user_id now limit d pages t) next
                  onward in
              cc (shown, joined_rest, parts)
        ]

    -- A client that starts without a cursor and follows the cursors of the pages gets to a last
    -- page, within one page more than there are active sessions. What it is shown, page after page,
    -- descends in time and id, and has each active session of the user exactly as often as the
    -- table does. This holds when the codec prints every cursor whose time is at most `latest`, its
    -- texts parse to what was printed and the empty text does not parse, the limit is between 1 and
    -- 100, no two active sessions of the user have the same id, each has a time from 1 to `latest`
    -- and an id that is not nil, and nothing is written between the pages.
    pub walk_complete :
        any (λ s. not (is_keyed latest s)) (list_active_sessions_by_user_id user_id now d) ≡ false
        → (shown : List Session) × (walk codec user_id now limit d
              (length (list_active_sessions_by_user_id user_id now d) + 1)
              []
            ≡ some shown)
          × (descends shown ≡ true)
          × ((p : Session → Bool)
              → count_if p shown ≡ count_if p (list_active_sessions_by_user_id user_id now d))
    unfolding decode
    walk_complete keyed =
        let active = list_active_sessions_by_user_id user_id now d in
        (
          sort active,
          walk_from (length active + 1) [] none [] (sort active) (omega (arith, length-sort active))
              (cc (any-sort (λ s. not (is_keyed latest s)) active, keyed))
              (ground (arith, positive, small)) (ap sort (filter-true active)) refl,
          sort-descends active unique,
          λ p. count_if-sort p active,
        )

-- ===== src/Session/Pages/Examples.antt =====
-- Tests of the pages of a user with three sessions, two of them from the same moment.
use authara.Prelude.{◌≡◌, refl, some, Bool, true, List, [], ◌∷◌, any, filter, count_if, arith}
use authara.Store.Rows.{Session}
use authara.Store.Exec.{Db}
use authara.Store.Sessions.{list_active_sessions_by_user_id}
use authara.Keyset.Fixtures.{fields, parse_fields-print_fields}
use authara.Session.Fixtures.{laptop, db}
use authara.Session.Pages.Order.{descends, is_unique}
use authara.Session.Pages.Walk.{walk, walk_complete}

abbrev three : Db
three = record db {
  sessions = laptop ∷ record laptop { id = 12 } ∷ record laptop { id = 11; created_at = 7 } ∷ [];
}

walk_complete_example :
    (shown : List Session) × (walk fields 1 20 2 three 4 [] ≡ some shown)
    × (descends shown ≡ true)
    × ((p : Session → Bool) → count_if p shown ≡ count_if p (three.sessions))
unfolding any is_unique filter list_active_sessions_by_user_id
walk_complete_example =
    walk_complete fields parse_fields-print_fields refl 100 (λ c small. (_, refl)) 1 20 2 three
      (omega arith) (omega arith) refl refl

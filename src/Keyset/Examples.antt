-- ===== src/Keyset/Examples.antt =====
-- Tests of pages on three items, and of a cursor for another user.
use authara.Prelude.{ℕ, ◌≡◌, refl, none, List, [], ◌∷◌, any, arith}
use authara.Prelude.Int.{pos}
use authara.Prelude.Text.{Text, codes, text_eq}
use authara.Keyset.{Cursor, Page, reply, invalid_page, decode, finish}
use authara.Keyset.Fixtures.{print_version, fields, parse_fields-print_fields}
use authara.Keyset.Cursors.{Leads, finish-decode, decode-foreign}

abbrev items : List (ℕ × ℕ)
items = (9, 3) ∷ (9, 2) ∷ (7, 5) ∷ []

abbrev account_sessions : Text
account_sessions = codes "account_sessions"

finish-decode_example :
    (page : Page (ℕ × ℕ)) × (finish fields items 2 account_sessions 11 (λ x. x) ≡ reply page)
    × Leads fields items 2 account_sessions 11 (λ x. x) page
unfolding any
finish-decode_example =
    finish-decode fields parse_fields-print_fields refl 100 items 2 account_sessions 11 (λ x. x)
      (λ c small. (_, refl)) (omega arith) (omega arith) refl

abbrev foreign : Cursor
foreign = record { version = pos 1; kind = account_sessions; scope = 11; created_at = 9; id = 2 }

decode-foreign_example :
    decode fields
      record { cursor = print_version (pos 1) (11 ∷ 9 ∷ 2 ∷ account_sessions); limit = none }
      account_sessions
      12
    ≡ invalid_page
unfolding text_eq
decode-foreign_example =
    decode-foreign fields parse_fields-print_fields refl foreign _ account_sessions 12 none refl
      refl

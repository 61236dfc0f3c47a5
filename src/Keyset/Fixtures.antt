-- ===== src/Keyset/Fixtures.antt =====
-- A codec that lists a cursor's fields, for tests.
use authara.Prelude.{ℕ, zero, suc, ◌≡◌, refl, Option, none, some, ◌∷◌}
use authara.Prelude.Int.{ℤ, pos, negsuc}
use authara.Prelude.Text.{Text}
use authara.Keyset.{Cursor, CursorCodec}

abbrev pub print_version : ℤ → Text → Text
print_version (pos n) t = 0 ∷ n ∷ t
print_version (negsuc n) t = 1 ∷ n ∷ t

abbrev pub parse_version : ℕ → ℕ → ℤ
parse_version zero n = pos n
parse_version (suc tag) n = negsuc n

abbrev pub print_fields : Cursor → Option Text
print_fields c = some (print_version c.version (c.scope ∷ c.created_at ∷ c.id ∷ c.kind))

abbrev pub parse_fields : Text → Option Cursor
parse_fields (tag ∷ n ∷ scope ∷ created_at ∷ id ∷ kind) = some record {
  version = parse_version tag n;
  kind = kind;
  scope = scope;
  created_at = created_at;
  id = id;
}
parse_fields _ = none

abbrev pub fields : CursorCodec
fields = record { print = print_fields; parse = parse_fields }

parse_fields-print_version :
    (v : ℤ) (scope created_at id : ℕ) (kind : Text)
    → parse_fields (print_version v (scope ∷ created_at ∷ id ∷ kind))
      ≡ some record { version = v; kind = kind; scope = scope; created_at = created_at; id = id }
parse_fields-print_version (pos n) scope created_at id kind = refl
parse_fields-print_version (negsuc n) scope created_at id kind = refl

pub parse_fields-print_fields :
    (c : Cursor) (t : Text) → print_fields c ≡ some t → parse_fields t ≡ some c
parse_fields-print_fields c t h =
    cc (h, parse_fields-print_version c.version c.scope c.created_at c.id c.kind)

-- ===== src/Keyset.antt =====
-- internal/keyset/pagination.go: the pages of a list, and the cursors that lead from one to the next.
pub mod Cursors
pub mod Fixtures
mod Examples
use authara.Prelude.{
  ℕ, ◌-◌, Option, none, some, Bool, false, not, ◌&&◌, ◌||◌, List, [], ◌∷◌, length, ◌==◌, ltb, leb,
  if◌then◌else◌,
}
use authara.Prelude.Int.{ℤ, pos, negsuc}
use authara.Prelude.Text.{Text, text_eq}

abbrev pub default_limit : ℕ
default_limit = 50

abbrev pub max_limit : ℕ
max_limit = 100

-- An empty cursor asks for the first page.
pub record Options : Type 0 where
  pub cursor : Text
  pub limit : Option ℤ

-- Times count from Go's zero time, and the nil UUID is 0.
pub record Boundary : Type 0 where
  pub created_at : ℕ
  pub id : ℕ

pub record Page {ℓ} (A : Type ℓ) : Type ℓ where
  pub items : List A
  pub next_cursor : Text

pub record Cursor : Type 0 where
  pub version : ℤ
  pub kind : Text
  pub scope : ℕ
  pub created_at : ℕ
  pub id : ℕ

-- What a call gives: a result, ErrInvalidPage, the error of json.Marshal, or a run-time panic.
pub data Reply {ℓ} (A : Type ℓ) : Type ℓ where
  reply : A → Reply A
  invalid_page : Reply A
  unencodable : Reply A
  panicked : Reply A

-- encoding/json behind encoding/base64. `parse` gives nothing when the text is not base64, the JSON
-- in it is not one object with the fields of a cursor and no others, or more follows the object.
pub record CursorCodec : Type 0 where
  pub print : Cursor → Option Text
  pub parse : Text → Option Cursor

abbrev given_limit : Option ℤ → ℤ
given_limit none = pos default_limit
given_limit (some n) = n

abbrev is_one : ℤ → Bool
is_one (pos n) = n == 1
is_one (negsuc n) = false

abbrev pub is_accepted : Text → ℕ → Cursor → Bool
is_accepted kind scope value =
    is_one value.version
    && text_eq value.kind kind
    && value.scope == scope
    && not (value.created_at == 0)
    && not (value.id == 0)

abbrev accept : Text → ℕ → ℕ → Option Cursor → Reply (Option Boundary × ℕ)
accept kind scope limit none = invalid_page
accept kind scope limit (some value) =
    if is_accepted kind scope value
    then reply (some record { created_at = value.created_at; id = value.id }, limit)
    else invalid_page

abbrev decode_within : CursorCodec → Text → Text → ℕ → ℕ → Reply (Option Boundary × ℕ)
decode_within codec [] kind scope limit = reply (none, limit)
decode_within codec (c ∷ cs) kind scope limit = accept kind scope limit (codec.parse (c ∷ cs))

abbrev decode_limited : CursorCodec → Text → Text → ℕ → ℤ → Reply (Option Boundary × ℕ)
decode_limited codec cursor kind scope (negsuc n) = invalid_page
decode_limited codec cursor kind scope (pos n) =
    if ltb n 1 || ltb max_limit n then invalid_page else decode_within codec cursor kind scope n

unfoldable pub decode : CursorCodec → Options → Text → ℕ → Reply (Option Boundary × ℕ)
decode codec options kind scope =
    decode_limited codec options.cursor kind scope (given_limit options.limit)

module _ {ℓ} {A : Type ℓ} where
  -- `xs[:n]` for an n that is at most the length.
  unfoldable pub take : ℕ → List A → List A
  take n [] = []
  take n (x ∷ xs) = let rest = take (n - 1) xs in if n == 0 then [] else x ∷ rest

  unfoldable pub last? : List A → Option A
  last? [] = none
  last? (x ∷ []) = some x
  last? (x ∷ y ∷ ys) = last? (y ∷ ys)

  abbrev finish_with : List A → Option Text → Reply (Page A)
  finish_with items none = unencodable
  finish_with items (some raw) = reply record { items = items; next_cursor = raw }

  -- The key of the last item that is shown: none makes the index of it -1.
  abbrev finish_at : CursorCodec → List A → Text → ℕ → (A → ℕ × ℕ) → Option A → Reply (Page A)
  finish_at codec items kind scope key none = panicked
  finish_at codec items kind scope key (some x) = finish_with items (
      codec.print record {
        version = pos 1;
        kind = kind;
        scope = scope;
        created_at = (key x).0;
        id = (key x).1;
      })

  unfoldable pub finish : CursorCodec → List A → ℕ → Text → ℕ → (A → ℕ × ℕ) → Reply (Page A)
  finish codec items limit kind scope key =
      if leb (length items) limit
      then reply record { items = items; next_cursor = [] }
      else (let shown = take limit items in finish_at codec shown kind scope key (last? shown))

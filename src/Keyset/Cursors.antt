-- ===== src/Keyset/Cursors.antt =====
-- internal/keyset/pagination.go: what the cursor of a page leads to, and which cursors are refused.
use authara.Prelude.{
  ℕ, ◌≤◌, ◌<◌, ◌-◌, ◌≡◌, refl, ◌⊎◌, inl, inr, Option, none, some, Bool, true, false, not, ◌&&◌,
  List, [], ◌∷◌, ◌++◌, any, length, arith, ◌==◌, ltb, leb, Bool-cases,
}
use authara.Prelude.Int.{pos, negsuc}
use authara.Prelude.Text.{Text, text_eq, text_eq_refl}
use authara.Keyset.{
  Page, Cursor, reply, invalid_page, CursorCodec, max_limit, is_accepted, decode, take, last?,
  finish,
}

-- A key that a cursor can hold: a time that is set and that JSON can print, and an id that is set.
abbrev pub is_printable : ℕ → ℕ × ℕ → Bool
is_printable latest key = not (key.0 == 0) && not (key.1 == 0) && leb key.0 latest

module _ {ℓ} {A : Type ℓ} where
  take-length : (n : ℕ) (xs : List A) → n ≤ length xs → length (take n xs) ≡ n
  unfolding take
  take-length n [] h = omega (arith, h)
  take-length n (x ∷ xs) h = ground (arith, h, take-length (n - 1) xs)

  pub take-append : (n : ℕ) (xs : List A) → (rest : List A) × (xs ≡ take n xs ++ rest)
  unfolding take
  take-append n [] = ([], refl)
  take-append n (x ∷ xs) = elim (Bool-cases (n == 0)) [
    | inl here ↦ (x ∷ xs, ground (arith, here))
    | inr more ↦ let (rest, split) = take-append (n - 1) xs in (rest, ground (arith, more, split))
  ]

  pub any-take : (q : A → Bool) (n : ℕ) (xs : List A) → any q xs ≡ false → any q (take n xs) ≡ false
  unfolding take any
  any-take q n [] h = refl
  any-take q n (x ∷ xs) h = ground (arith, h, any-take q (n - 1) xs)

  last?-any :
      (q : A → Bool) (xs : List A)
      → 1 ≤ length xs
      → any q xs ≡ false
      → (x : A) × (last? xs ≡ some x) × (q x ≡ false)
  unfolding last? any
  last?-any q [] h none_passes = ground (arith, h)
  last?-any q (x ∷ []) h none_passes = (x, refl, ground (arith, none_passes))
  last?-any q (x ∷ y ∷ ys) h none_passes =
      last?-any q (y ∷ ys) (omega arith) (ground (arith, none_passes))

-- The last item that is shown has a key that a cursor can hold, as all items have.
last_shown {ℓ} :
    {A : Type ℓ} (latest n : ℕ) (xs : List A) (key : A → ℕ × ℕ)
    → 1 ≤ n
    → n ≤ length xs
    → any (λ x. not (is_printable latest (key x))) xs ≡ false
    → (x : A) × (last? (take n xs) ≡ some x) × (is_printable latest (key x) ≡ true)
last_shown latest n xs key positive enough keyed =
    let (x, last, fine) =
      last?-any (λ x. not (is_printable latest (key x))) (take n xs)
        (omega (arith, positive, take-length n xs enough)) (any-take _ n xs keyed) in
    (x, last, ground (arith, fine))

-- What a page of a list shows and leads to.
abbrev pub Leads {ℓ} :
    {A : Type ℓ} → CursorCodec → List A → ℕ → Text → ℕ → (A → ℕ × ℕ) → Page A → Type ℓ
Leads {A = A} codec items limit kind scope key page =
    ((page.items ≡ items) × (page.next_cursor ≡ []) × (length items ≤ limit))
    ⊎ ((x : A) × (rest : List A) × (items ≡ page.items ++ rest)
        × (length page.items ≡ limit)
        × (limit < length items)
        × (last? page.items ≡ some x)
        × (decode codec record { cursor = page.next_cursor; limit = some (pos limit) } kind scope
            ≡ reply (some record { created_at = (key x).0; id = (key x).1 }, limit)))

module _ (codec : CursorCodec)
    (parse-print : (c : Cursor) (t : Text) → codec.print c ≡ some t → codec.parse t ≡ some c)
    (parse-empty : codec.parse [] ≡ none) where
  -- A text that the codec printed is not the empty cursor.
  decode-printed :
      (c : Cursor) (t : Text) (limit : ℕ)
      → codec.print c ≡ some t
      → 1 ≤ limit
      → limit ≤ max_limit
      → is_accepted c.kind c.scope c ≡ true
      → decode codec record { cursor = t; limit = some (pos limit) } c.kind c.scope
        ≡ reply (some record { created_at = c.created_at; id = c.id }, limit)
  unfolding decode
  decode-printed c [] limit printed positive small accepted =
      cc (parse-print c [] printed, parse-empty)
  decode-printed c (x ∷ xs) limit printed positive small accepted =
      ground (arith, parse-print c (x ∷ xs) printed, positive, small, accepted)

  -- A cursor that was printed for another list, of another kind or of another scope, is refused
  -- whatever the limit.
  pub decode-foreign :
      (c : Cursor) (t kind : Text) (scope : ℕ) (limit : Option _)
      → codec.print c ≡ some t
      → (text_eq c.kind kind && c.scope == scope) ≡ false
      → decode codec record { cursor = t; limit = limit } kind scope ≡ invalid_page
  unfolding decode
  decode-foreign c [] kind scope limit printed foreign = cc (parse-print c [] printed, parse-empty)
  decode-foreign c (x ∷ xs) kind scope none printed foreign =
      ground (arith, parse-print c (x ∷ xs) printed, foreign)
  decode-foreign c (x ∷ xs) kind scope (some (pos n)) printed foreign =
      ground (arith, parse-print c (x ∷ xs) printed, foreign)
  decode-foreign c (x ∷ xs) kind scope (some (negsuc n)) printed foreign = refl

  -- The key x of the last item, the limit and the cursor that goes with them.
  finish_at_last {ℓ} :
      {A : Type ℓ} (items : List A) (limit : ℕ) (kind : Text) (scope : ℕ) (key : A → ℕ × ℕ) (x : A)
      (t : Text)
      → ltb limit (length items) ≡ true
      → last? (take limit items) ≡ some x
      → codec.print record {
        version = pos 1;
        kind = kind;
        scope = scope;
        created_at = (key x).0;
        id = (key x).1;
      }
        ≡ some t
      → finish codec items limit kind scope key
        ≡ reply record { items = take limit items; next_cursor = t }
  unfolding finish
  finish_at_last items limit kind scope key x t more last printed =
      ground (arith, more, last, printed)

  -- When the codec prints every cursor whose time is at most `latest`, its texts parse to what was
  -- printed and the empty text does not parse, and when the limit is between 1 and 100 and every
  -- item has a key with a time from 1 to `latest` and an id that is not nil, then `finish` gives a
  -- page. It holds all items and has an empty cursor when the items are no more than the limit.
  -- Otherwise it holds exactly the first `limit` items, and its cursor, decoded for the same kind,
  -- scope and limit, is accepted and gives the key of the last item that is shown.
  pub finish-decode {ℓ} :
      {A : Type ℓ} (latest : ℕ) (items : List A) (limit : ℕ) (kind : Text) (scope : ℕ)
      (key : A → ℕ × ℕ)
      → ((c : Cursor) → leb c.created_at latest ≡ true → (t : Text) × (codec.print c ≡ some t))
      → 1 ≤ limit
      → limit ≤ max_limit
      → any (λ x. not (is_printable latest (key x))) items ≡ false
      → (page : Page A) × (finish codec items limit kind scope key ≡ reply page)
        × Leads codec items limit kind scope key page
  unfolding finish
  finish-decode latest items limit kind scope key prints positive small keyed =
      elim (Bool-cases (leb (length items) limit)) [
        | inl fits ↦ (
          record { items = items; next_cursor = [] },
          ground (arith, fits),
          inl (refl, refl, ground (arith, fits)),
        )
        | inr over ↦
            let more : ltb limit (length items) ≡ true = ground (arith, over) in
            let (x, last, fine) =
              last_shown latest limit items key positive (ground (arith, over)) keyed in
            let cursor : Cursor = record {
              version = pos 1;
              kind = kind;
              scope = scope;
              created_at = (key x).0;
              id = (key x).1;
            } in
            let (t, printed) = prints cursor (ground (arith, fine)) in
            let (rest, split) = take-append limit items in
            (
              record { items = take limit items; next_cursor = t },
              finish_at_last items limit kind scope key x t more last printed,
              inr (
                x,
                rest,
                split,
                take-length limit items (ground (arith, over)),
                ground (arith, over),
                last,
                decode-printed cursor t limit printed positive small
                    (ground (arith, fine, text_eq_refl kind)),
              ),
            )
      ]

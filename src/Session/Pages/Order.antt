-- ===== src/Session/Pages/Order.antt =====
-- internal/session/pagination.go: where a page of sessions begins.
use authara.Prelude.{
  ◌+◌, ◌≡◌, refl, inl, inr, some, Bool, true, false, not, ◌&&◌, ◌||◌, List, [], ◌∷◌, ◌++◌, any,
  filter, count_if, length, arith, ◌==◌, Bool-cases, if◌then◌else◌,
}
use authara.Store.Rows.{Session}
use authara.Keyset.{Boundary, last?}
use authara.Session.Pages.{boundary_of, is_before, insert, sort}

-- The rows before a boundary, of a list with one more row in its place.
filter-insert :
    (b : Boundary) (s : Session) (xs : List Session)
    → filter (is_before b) (insert s xs)
      ≡ (if is_before b s then insert s (filter (is_before b) xs) else filter (is_before b) xs)
unfolding insert filter
filter-insert b s [] = refl
filter-insert b s (x ∷ xs) = ground (arith, filter-insert b s xs)

filter-sort :
    (b : Boundary) (xs : List Session)
    → sort (filter (is_before b) xs) ≡ filter (is_before b) (sort xs)
unfolding sort filter
filter-sort b [] = refl
filter-sort b (x ∷ xs) = ground (arith, filter-sort b xs, filter-insert b x (sort xs))

-- Each row is before those in front of it.
unfoldable pub descends : List Session → Bool
descends [] = true
descends (x ∷ xs) = not (any (λ y. not (is_before (boundary_of x) y)) xs) && descends xs

any-insert :
    (q : Session → Bool) (s : Session) (xs : List Session) → any q (insert s xs) ≡ (q s || any q xs)
unfolding insert any
any-insert q s [] = refl
any-insert q s (x ∷ xs) = ground (arith, any-insert q s xs)

pub any-sort : (q : Session → Bool) (xs : List Session) → any q (sort xs) ≡ any q xs
unfolding sort any
any-sort q [] = refl
any-sort q (x ∷ xs) = ground (any-insert q x (sort xs), any-sort q xs, arith)

-- What is before a row is before what the row is before.
below :
    (s x : Session) (xs : List Session)
    → is_before (boundary_of s) x ≡ true
    → any (λ y. not (is_before (boundary_of x) y)) xs ≡ false
    → any (λ y. not (is_before (boundary_of s) y)) xs ≡ false
unfolding any
below s x [] h all = refl
below s x (y ∷ ys) h all = ground (arith, h, all, below s x ys h)

descends-insert :
    (s : Session) (xs : List Session)
    → any (λ (x : Session). x.id == s.id) xs ≡ false
    → descends xs ≡ true
    → descends (insert s xs) ≡ true
unfolding descends insert any
descends-insert s [] fresh down = refl
descends-insert s (x ∷ xs) fresh down = elim (Bool-cases (is_before (boundary_of s) x)) [
  | inl before ↦ ground (arith, before, down, below s x xs before)
  | inr after ↦ ground (
    arith,
    after,
    fresh,
    down,
    descends-insert s xs,
    any-insert (λ y. not (is_before (boundary_of x) y)) s xs,
  )
]

-- No two rows have the same id.
unfoldable pub is_unique : List Session → Bool
is_unique [] = true
is_unique (x ∷ xs) = not (any (λ (y : Session). y.id == x.id) xs) && is_unique xs

pub sort-descends : (xs : List Session) → is_unique xs ≡ true → descends (sort xs) ≡ true
unfolding sort is_unique descends
sort-descends [] unique = refl
sort-descends (x ∷ xs) unique =
    descends-insert x (sort xs)
      (ground (arith, unique, any-sort (λ (y : Session). y.id == x.id) xs))
      (sort-descends xs (ground (arith, unique)))

filter-all :
    (p : Session → Bool) (xs : List Session) → any (λ y. not (p y)) xs ≡ false → filter p xs ≡ xs
unfolding any filter
filter-all p [] all = refl
filter-all p (x ∷ xs) all = ground (arith, all, filter-all p xs)

last?-holds :
    (p : Session → Bool) (xs rest : List Session) (x : Session)
    → any (λ y. not (p y)) (xs ++ rest) ≡ false
    → last? xs ≡ some x
    → p x ≡ true
unfolding any last?
last?-holds p [] rest x all last = cc
last?-holds p (y ∷ []) rest x all last = ground (arith, all, last)
last?-holds p (y ∷ z ∷ zs) rest x all last =
    last?-holds p (z ∷ zs) rest x (ground (arith, all)) last

-- In a list that descends, the rows before the last of some first rows are those that follow them.
rows_after :
    (shown rest : List Session) (x : Session)
    → descends (shown ++ rest) ≡ true
    → last? shown ≡ some x
    → filter (is_before (boundary_of x)) (shown ++ rest) ≡ rest
unfolding descends filter last?
rows_after [] rest x down last = cc
rows_after (y ∷ []) rest x down last =
    ground (arith, down, last, filter-all (is_before (boundary_of y)) rest)
rows_after (y ∷ z ∷ zs) rest x down last =
    let before =
      last?-holds (is_before (boundary_of y)) (z ∷ zs) rest x (ground (arith, down)) last in
    ground (arith, before, rows_after (z ∷ zs) rest x (ground (arith, down)) last)

-- What the query finds behind a row, when it is the last of some first rows of all.
pub sort-filter-last :
    (xs shown rest : List Session) (x : Session)
    → is_unique xs ≡ true
    → sort xs ≡ shown ++ rest
    → last? shown ≡ some x
    → sort (filter (is_before (boundary_of x)) xs) ≡ rest
sort-filter-last xs shown rest x unique split last = cc (
  filter-sort (boundary_of x) xs,
  split,
  rows_after shown rest x (cc (sort-descends xs unique, split)) last,
)

count_if-insert :
    (p : Session → Bool) (s : Session) (xs : List Session)
    → count_if p (insert s xs) ≡ count_if p (s ∷ xs)
unfolding insert count_if
count_if-insert p s [] = refl
count_if-insert p s (x ∷ xs) = ground (arith, count_if-insert p s xs)

pub count_if-sort : (p : Session → Bool) (xs : List Session) → count_if p (sort xs) ≡ count_if p xs
unfolding sort count_if
count_if-sort p [] = refl
count_if-sort p (x ∷ xs) = ground (arith, count_if-insert p x (sort xs), count_if-sort p xs)

length-insert : (s : Session) (xs : List Session) → length (insert s xs) ≡ length xs + 1
unfolding insert
length-insert s [] = refl
length-insert s (x ∷ xs) = ground (arith, length-insert s xs)

pub length-sort : (xs : List Session) → length (sort xs) ≡ length xs
unfolding sort
length-sort [] = refl
length-sort (x ∷ xs) = omega (arith, length-insert x (sort xs), length-sort xs)

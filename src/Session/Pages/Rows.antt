-- ===== src/Session/Pages/Rows.antt =====
-- internal/session/pagination.go: the first rows of a list, and those that follow them.
use authara.Prelude.{
  ℕ, suc, ◌≤◌, ◌<◌, ◌-◌, ◌≡◌, refl, ap, some, Bool, true, false, List, [], ◌∷◌, ◌++◌, any, length,
  length-append, append_assoc, filter, arith,
}
use authara.Store.Rows.{Session}
use authara.Keyset.{take, last?}
use authara.Keyset.Cursors.{take-append}

-- Fewer rows than were asked for are all rows.
pub take-all : (n : ℕ) (xs : List Session) → length (take n xs) < n → take n xs ≡ xs
unfolding take
take-all n [] h = refl
take-all n (x ∷ xs) h = ground (arith, h, take-all (n - 1) xs)

-- The rows that a page shows are the first ones of all.
pub first_rows :
    (n : ℕ) (xs shown rest : List Session)
    → take n xs ≡ shown ++ rest
    → (more : List Session) × (xs ≡ shown ++ more)
first_rows n xs shown rest split =
    let (left, whole) = take-append n xs in
    (rest ++ left, cc (whole, split, append_assoc shown rest left))

pub last?-append :
    (xs ys : List Session) (x : Session) → last? ys ≡ some x → last? (xs ++ ys) ≡ some x
unfolding last?
last?-append [] ys x last = last
last?-append (a ∷ []) [] x last = cc
last?-append (a ∷ []) (y ∷ ys) x last = last
last?-append (a ∷ b ∷ xs) ys x last = last?-append (b ∷ xs) ys x last

pub any-append-right :
    (q : Session → Bool) (xs ys : List Session) → any q (xs ++ ys) ≡ false → any q ys ≡ false
unfolding any
any-append-right q [] ys h = h
any-append-right q (x ∷ xs) ys h = ground (arith, h, any-append-right q xs ys)

pub shorter :
    (limit pages : ℕ) (rest shown more : List Session)
    → 1 ≤ limit
    → length rest < suc pages
    → length shown ≡ limit
    → rest ≡ shown ++ more
    → length more < pages
shorter limit pages rest shown more positive enough full parts =
    omega (arith, positive, enough, full, ap length parts, length-append shown more)

pub filter-true : (xs : List Session) → filter (λ s. true) xs ≡ xs
unfolding filter
filter-true [] = refl
filter-true (x ∷ xs) = ap (λ ys. x ∷ ys) (filter-true xs)

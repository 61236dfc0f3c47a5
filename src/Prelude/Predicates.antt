-- ===== src/Prelude/Predicates.antt =====
-- What holds of each element of a list, by recursion on the list.
use mathlib.Core.Path.{◌≡◌, refl}
use mathlib.Core.Bool.{Bool, true, false}
use mathlib.Core.List.{List, [], ◌∷◌, ◌++◌, map}
use native.Mathlib.Omega.{arith}
use authara.Prelude.Tests.{if◌then◌else◌}
use authara.Prelude.Lists.{any, filter}

abbrev pub All {ℓ κ} : {A : Type ℓ} → (A → Type κ) → List A → Type κ
All P [] = Unit
All P (x ∷ xs) = P x × All P xs

module _ {ℓ κ} {A : Type ℓ} where
  pub All-imp : (P Q : A → Type κ) (xs : List A) → ((x : A) → P x → Q x) → All P xs → All Q xs
  All-imp P Q [] f h = h
  All-imp P Q (x ∷ xs) f (hx, h) = (f x hx, All-imp P Q xs f h)

  pub All-append : (P : A → Type κ) (xs ys : List A) → All P xs → All P ys → All P (xs ++ ys)
  All-append P [] ys hx hy = hy
  All-append P (x ∷ xs) ys (h, hx) hy = (h, All-append P xs ys hx hy)

  pub All-split : (P : A → Type κ) (xs ys : List A) → All P (xs ++ ys) → All P xs × All P ys
  All-split P [] ys h = (tt, h)
  All-split P (x ∷ xs) ys (h, hs) = let (hx, hy) = All-split P xs ys hs in ((h, hx), hy)

  All-kept :
      (P : A → Type κ) (b : Bool) (x : A) (xs : List A)
      → (b ≡ true → P x)
      → All P xs
      → All P (if b then x ∷ xs else xs)
  All-kept P true x xs hx h = (hx refl, h)
  All-kept P false x xs hx h = h

  -- A filter leaves what is so, and what passes.
  pub All-filter :
      (P Q : A → Type κ) (p : A → Bool) (xs : List A)
      → ((x : A) → p x ≡ true → P x → Q x)
      → All P xs
      → All Q (filter p xs)
  unfolding filter
  All-filter P Q p [] f h = h
  All-filter P Q p (x ∷ xs) f (hx, h) =
      All-kept Q (p x) x (filter p xs) (λ passes. f x passes hx) (All-filter P Q p xs f h)

  -- Elements that are changed where a test says so.
  pub All-update :
      (P Q : A → Type κ) (p : A → Bool) (f : A → A) (xs : List A)
      → ((x : A) → p x ≡ true → P x → Q (f x))
      → ((x : A) → p x ≡ false → P x → Q x)
      → All P xs
      → All Q (map (λ x. if p x then f x else x) xs)
  All-update P Q p f [] changed kept h = h
  All-update P Q p f (x ∷ xs) changed kept (hx, h) = (
    All-changed Q (p x) f x (λ e. changed x e hx) (λ e. kept x e hx),
    All-update P Q p f xs changed kept h,
  )
    where
      All-changed :
          (Q : A → Type κ) (b : Bool) (f : A → A) (x : A)
          → (b ≡ true → Q (f x))
          → (b ≡ false → Q x)
          → Q (if b then f x else x)
      All-changed Q true f x h g = h refl
      All-changed Q false f x h g = g refl

module _ {ℓ κ} {A : Type ℓ} where
  pub All-both : (P Q : A → Type κ) (xs : List A) → All P xs → All Q xs → All (λ x. P x × Q x) xs
  All-both P Q [] h g = tt
  All-both P Q (x ∷ xs) (hx, h) (gx, g) = ((hx, gx), All-both P Q xs h g)

module _ {ℓ} {A : Type ℓ} where
  -- An element that passes is one of which there is any.
  pub All-any : (p : A → Bool) (xs : List A) → All (λ x. p x ≡ true → any p xs ≡ true) xs
  unfolding any
  All-any p [] = tt
  All-any p (x ∷ xs) = (
    λ e. ground (arith, e),
    All-imp (λ x. p x ≡ true → any p xs ≡ true) _ xs (λ y h e. ground (arith, h e)) (All-any p xs),
  )

  pub All-none : (p : A → Bool) (xs : List A) → any p xs ≡ false → All (λ x. p x ≡ false) xs
  unfolding any
  All-none p [] h = tt
  All-none p (x ∷ xs) h = (ground (arith, h), All-none p xs (ground (arith, h)))

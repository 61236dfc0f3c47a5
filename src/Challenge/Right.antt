-- ===== src/Challenge/Right.antt =====
-- internal/challenge: methods that do not say that a code was wrong, by one rule for each way to
-- build a method.
use authara.Prelude.{ℕ, ◌≡◌, refl, Bool, true, false, if◌then◌else◌}
use authara.Store.Exec.{
  Db, World, Exec, Result, ok, err, Error, pure, raise, lift, reads, writes, updates, inserts,
  waits, continue, updated, or_else, ◌>>=◌,
}
use authara.Challenge.Verify.{is_invalid_code}

-- Whether a code was given that is not the challenge's.
abbrev pub is_wrong : {A : Type 0} → Result A → ℕ
is_wrong (ok a) = 0
is_wrong (err e) = if is_invalid_code e then 1 else 0

pub record Right {A : Type 0} (m : Exec A) : Type 0 where
  pub at : (w : World) → is_wrong (m w).0 ≡ 0

module _ {A : Type 0} where
  pub Right-pure : (a : A) → Right (pure a)
  Right-pure a = record { at = λ w. refl }

  pub Right-raise : (e : Error) → is_invalid_code e ≡ false → Right (raise {A = A} e)
  Right-raise e h = record { at = λ w. rw h refl }

  pub Right-lift : (r : Result A) → is_wrong r ≡ 0 → Right (lift r)
  Right-lift r h = record { at = λ w. h }

  pub Right-reads : (f : Db → Result A) → ((d : Db) → is_wrong (f d) ≡ 0) → Right (reads f)
  Right-reads f h = record { at = λ w. h w.db }

  pub Right-inserts : (f : Db → A × Db) → Right (inserts f)
  Right-inserts f = record { at = λ w. refl }

  pub Right-if : (b : Bool) {m n : Exec A} → Right m → Right n → Right (if b then m else n)
  Right-if true hm hn = hm
  Right-if false hm hn = hn

  -- A result of which the error is replaced.
  pub wrong-or_else :
      (r : Result A) (e : Error) → is_invalid_code e ≡ false → is_wrong (or_else r e) ≡ 0
  wrong-or_else (ok a) e h = refl
  wrong-or_else (err x) e h = rw h refl

pub Right-writes : (f : Db → Db) → Right (writes f)
Right-writes f = record { at = λ w. refl }

pub Right-updates : (f : Db → Result Db) → ((d : Db) → is_wrong (f d) ≡ 0) → Right (updates f)
Right-updates f h = record { at = λ w. by_result w (f w.db) (h w.db) }
  where
    by_result : (w : World) (r : Result Db) → is_wrong r ≡ 0 → is_wrong (updated r w).0 ≡ 0
    by_result w (ok d) e = refl
    by_result w (err x) e = e

pub Right-waits :
    (others : Db → Db) (found : Db → Result (Unit {0}))
    → ((d : Db) → is_wrong (found d) ≡ 0)
    → Right (waits others found)
Right-waits others found h = record { at = λ w. h (others w.committed) }

module _ {A B : Type 0} where
  Right-continue :
      (r : Result A) (f : A → Exec B) (w : World)
      → is_wrong r ≡ 0
      → ((a : A) → Right (f a))
      → is_wrong (continue r f w).0 ≡ 0
  Right-continue (ok a) f w h hf = (hf a).at w
  Right-continue (err e) f w h hf = h

  pub Right-bind :
      (m : Exec A) (f : A → Exec B) → Right m → ((a : A) → Right (f a)) → Right (m >>= f)
  Right-bind m f hm hf = record { at = λ w. Right-continue (m w).0 f (m w).1 (hm.at w) hf }

pub ruleset right_rules = (
  Right-pure, Right-raise, Right-inserts, Right-if, Right-writes, Right-bind, Right-reads,
  Right-lift, Right-updates, Right-waits, wrong-or_else,
)

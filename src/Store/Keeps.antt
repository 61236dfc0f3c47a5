-- ===== src/Store/Keeps.antt =====
-- Invariants of the database, for methods of which each step keeps them: one rule for each way to
-- build a method. The invariant holds both of what is committed and of what the transaction sees.
use authara.Prelude.{◌≡◌, refl, Bool, true, false, if◌then◌else◌}
use authara.Store.Exec.{
  Db, World, Exec, Result, ok, err, Error, pure, raise, lift, reads, writes, updates, waits,
  reads_for_update, with_transaction, ◌>>=◌, updated, settle, continue, branch, catch, inserts,
}

abbrev pub Both : (Db → Type 0) → World → Type 0
Both P w = P w.committed × P w.db

pub record Keeps {A : Type 0} (P : Db → Type 0) (m : Exec A) : Type 0 where
  pub at : (w : World) → Both P w → Both P (m w).1

settle-Both :
    {A : Type 0} (P : Db → Type 0) (r : Result A) (w : World) → Both P w → Both P (settle r w).1
settle-Both P (ok a) w h = (h.1, h.1)
settle-Both P (err e) w h = (h.0, h.0)

-- A transaction ends in a world where its body's invariant holds twice.
pub transaction-Both :
    {A : Type 0} (P : Db → Type 0) (m : Exec A) (w : World)
    → Both P (m w).1
    → Both P (with_transaction m w).1
unfolding with_transaction
transaction-Both P m w h = let (r, w') = m w in settle-Both P r w' h

-- What the body leaves counts only if it commits.
pub transaction-Both_ok :
    {A : Type 0} (P : Db → Type 0) (m : Exec A) (w : World)
    → P (m w).1.committed
    → ((a : A) → (m w).0 ≡ ok a → P (m w).1.db)
    → Both P (with_transaction m w).1
unfolding with_transaction
transaction-Both_ok P m w h step = by_result (m w).0 refl
  where
    by_result : (r : Result _) → (m w).0 ≡ r → Both P (settle r (m w).1).1
    by_result (ok a) e = (step a e, step a e)
    by_result (err x) e = (h, h)

Keeps-continue :
    {A B : Type 0} (P : Db → Type 0) (r : Result A) (f : A → Exec B) (w : World)
    → ((a : A) → Keeps P (f a))
    → Both P w
    → Both P (continue r f w).1
Keeps-continue P (ok a) f w kf h = (kf a).at w h
Keeps-continue P (err e) f w kf h = h

module _ {A : Type 0} {P : Db → Type 0} where
  pub Keeps-pure : (a : A) → Keeps P (pure a)
  Keeps-pure a = record { at = λ w h. h }

  pub Keeps-raise : (e : Error) → Keeps P (raise {A = A} e)
  Keeps-raise e = record { at = λ w h. h }

  pub Keeps-lift : (r : Result A) → Keeps P (lift r)
  Keeps-lift r = record { at = λ w h. h }

  pub Keeps-reads : (f : Db → Result A) → Keeps P (reads f)
  Keeps-reads f = record { at = λ w h. h }

  pub Keeps-if : (b : Bool) {m n : Exec A} → Keeps P m → Keeps P n → Keeps P (if b then m else n)
  Keeps-if true km kn = km
  Keeps-if false km kn = kn

  -- A transaction keeps what its body keeps, whether it commits or rolls back.
  pub Keeps-with_transaction : (m : Exec A) → Keeps P m → Keeps P (with_transaction m)
  Keeps-with_transaction m km = record { at = λ w h. transaction-Both P m w (km.at w h) }

module _ {P : Db → Type 0} where
  pub Keeps-writes : (f : Db → Db) → ((d : Db) → P d → P (f d)) → Keeps P (writes f)
  Keeps-writes f kf = record { at = λ w h. (h.0, kf w.db h.1) }

  pub Keeps-updates :
      (f : Db → Result Db) → ((d d' : Db) → f d ≡ ok d' → P d → P d') → Keeps P (updates f)
  Keeps-updates f kf = record { at = λ w h. by_result w (f w.db) refl h }
    where
      by_result : (w : World) (r : Result Db) → f w.db ≡ r → Both P w → Both P (updated r w).1
      by_result w (ok d) e h = (h.0, kf w.db d e h.1)
      by_result w (err x) e h = h

  -- The others keep it too.
  pub Keeps-waits :
      (others : Db → Db) (found : Db → Result (Unit {0}))
      → ((d : Db) → P d → P (others d))
      → Keeps P (waits others found)
  Keeps-waits others found rely = record { at = λ w h. (rely _ h.0, rely _ h.0) }

  pub Keeps-reads_for_update :
      {A : Type 0} (others : Db → Db) (f : Db → Result A)
      → ((d : Db) → P d → P (others d))
      → Keeps P (reads_for_update others f)
  Keeps-reads_for_update others f rely = record { at = λ w h. (rely _ h.0, rely _ h.0) }

module _ {A B : Type 0} {P : Db → Type 0} where
  pub Keeps-bind :
      (m : Exec A) (f : A → Exec B) → Keeps P m → ((a : A) → Keeps P (f a)) → Keeps P (m >>= f)
  Keeps-bind m f km kf = record { at = λ w h. Keeps-continue P (m w).0 f (m w).1 kf (km.at w h) }

  Keeps-branch :
      (r : Result A) (f : A → Exec B) (g : Error → Exec B)
      → ((a : A) → Keeps P (f a))
      → ((e : Error) → Keeps P (g e))
      → Keeps P (branch r f g)
  Keeps-branch (ok a) f g kf kg = kf a
  Keeps-branch (err e) f g kf kg = kg e

  pub Keeps-catch :
      (m : Exec A) (f : A → Exec B) (g : Error → Exec B)
      → Keeps P m
      → ((a : A) → Keeps P (f a))
      → ((e : Error) → Keeps P (g e))
      → Keeps P (catch m f g)
  Keeps-catch m f g km kf kg = record {
    at = λ w h. (Keeps-branch (m w).0 f g kf kg).at (m w).1 (km.at w h);
  }

module _ {A : Type 0} {P : Db → Type 0} where
  pub Keeps-inserts : (f : Db → A × Db) → ((d : Db) → P d → P (f d).1) → Keeps P (inserts f)
  Keeps-inserts f kf = record { at = λ w h. (h.0, kf w.db h.1) }

pub ruleset keeps_rules = (
  Keeps-pure, Keeps-raise, Keeps-lift, Keeps-reads, Keeps-if, Keeps-with_transaction, Keeps-bind,
  Keeps-catch,
)

module _ {A B : Type 0} (P : Db → Type 0) (m : Exec A) (f : A → Exec B) (w : World) where
  -- Where only the first step needs its own argument.
  pub Both-bind : Both P (m w).1 → ((a : A) → Keeps P (f a)) → Both P ((m >>= f) w).1
  Both-bind h kf = Keeps-continue P (m w).0 f (m w).1 kf h

  -- Where the first step only reads.
  pub Both-bind_read :
      (m w).1 ≡ w
      → Both P w
      → ((a : A) → (m w).0 ≡ ok a → Both P (f a w).1)
      → Both P ((m >>= f) w).1
  Both-bind_read same h step = by_result (m w).0 refl
    where
      by_result : (r : Result A) → (m w).0 ≡ r → Both P (continue r f (m w).1).1
      by_result (ok a) e = rw same (step a e)
      by_result (err x) e = rw same h

  -- Where the rest needs to know what the first step returned.
  pub Both-bind_ok :
      Both P (m w).1 → ((a : A) → (m w).0 ≡ ok a → Both P (f a (m w).1).1) → Both P ((m >>= f) w).1
  Both-bind_ok h step = by_result (m w).0 refl
    where
      by_result : (r : Result A) → (m w).0 ≡ r → Both P (continue r f (m w).1).1
      by_result (ok a) e = step a e
      by_result (err x) e = h

-- Ways through a method whose steps depend on what the earlier ones found.
module _ {B : Type 0} (P : Db → Type 0) where
  pub Both-waits :
      (others : Db → Db) (found : Db → Result (Unit {0})) (f : Unit {0} → Exec B) (w : World)
      → let d = others w.committed in
        P d
        → (found d ≡ ok tt → Both P (f tt (record w { committed = d; db = d })).1)
        → Both P ((waits others found >>= f) w).1
  Both-waits others found f w h step =
      Both-bind_ok P (waits others found) f w (h, h) (λ _ e. step e)

  pub Both-guard :
      (b : Bool) (e : Error) (f : Unit {0} → Exec B) (w : World)
      → Both P w
      → (b ≡ false → Both P (f tt w).1)
      → Both P (((if b then raise e else pure tt) >>= f) w).1
  Both-guard true e f w h step = h
  Both-guard false e f w h step = step refl

  pub Both-require :
      (b : Bool) (e : Error) (f : Unit {0} → Exec B) (w : World)
      → Both P w
      → (b ≡ true → Both P (f tt w).1)
      → Both P (((if b then pure tt else raise e) >>= f) w).1
  Both-require true e f w h step = step refl
  Both-require false e f w h step = h

  pub Both-either :
      (b : Bool) (m n : Exec B) (w : World)
      → (b ≡ true → Both P (m w).1)
      → (b ≡ false → Both P (n w).1)
      → Both P ((if b then m else n) w).1
  Both-either true m n w l r = l refl
  Both-either false m n w l r = r refl

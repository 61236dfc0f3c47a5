-- ===== src/Session/Token/Keeps.antt =====
-- internal/session/token/revocations.go: a cut-off changes nothing in the database.
use authara.Prelude.{ℕ, ◌≡◌, refl}
use authara.Store.Exec.{Db, World, Scope, revocation_store_unavailable}
use authara.Store.Keeps.{Keeps, Keeps-pure, Keeps-raise}
use authara.Session.Token.{Cache, absent, unreachable, reachable, revoke_scope}

pub revoke_scope-Keeps :
    {P : Db → Type 0} (c : Cache) (scope : Scope) (at : ℕ) → Keeps P (revoke_scope c scope at)
unfolding revoke_scope
revoke_scope-Keeps absent scope at = Keeps-pure tt
revoke_scope-Keeps unreachable scope at = Keeps-raise revocation_store_unavailable
revoke_scope-Keeps reachable scope at = record { at = λ w h. h }

pub revoke_scope-world :
    (c : Cache) (scope : Scope) (at : ℕ) (w : World)
    → let w' = (revoke_scope c scope at w).1 in (w'.committed ≡ w.committed) × (w'.db ≡ w.db)
unfolding revoke_scope
revoke_scope-world absent scope at w = (refl, refl)
revoke_scope-world unreachable scope at w = (refl, refl)
revoke_scope-world reachable scope at w = (refl, refl)

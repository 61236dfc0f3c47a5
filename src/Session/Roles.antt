-- ===== src/Session/Roles.antt =====
-- internal/session/roles/roles.go
use authara.Prelude.{Bool, false, ◌||◌, List, [], ◌∷◌, ◌++◌, any, if◌then◌else◌}
use authara.Prelude.Text.{Text, codes, text_eq}
use authara.Store.Exec.{Result, ok, err, unknown_role}

abbrev pub Role : Type 0
Role = Text

abbrev pub authara_admin : Role
authara_admin = codes "authara:admin"

abbrev pub authara_operator : Role
authara_operator = codes "authara:operator"

abbrev pub db_admin_role_name : Text
db_admin_role_name = codes "admin"

abbrev pub db_operator_role_name : Text
db_operator_role_name = codes "operator"

-- `Roles`: the slice behind it.
abbrev pub Roles : Type 0
Roles = List Role

-- `slices.Contains`, as `Has` calls it.
unfoldable pub has : Roles → Role → Bool
unfolding text_eq
has rs role = any (λ (r : Role). text_eq r role) rs

unfoldable pub add : Role → Roles → Roles
add role rs = if has rs role then rs else rs ++ role ∷ []

unfoldable pub has_any : Roles → List Role → Bool
has_any rs [] = false
has_any rs (role ∷ allowed) = has rs role || has_any rs allowed

-- `validate`.
unfoldable pub is_valid : Role → Bool
is_valid role = text_eq role authara_admin || text_eq role authara_operator

-- The loops over the slice `r`.
unfoldable pub from_claims_onto : Roles → List Role → Result Roles
from_claims_onto r [] = ok r
from_claims_onto r (role ∷ claims) =
    let rest = from_claims_onto (add role r) claims in
    if is_valid role then rest else err unknown_role

unfoldable pub from_claims : List Role → Result Roles
unfolding from_claims_onto
from_claims claims = from_claims_onto [] claims

unfoldable pub from_db_role_names_onto : Roles → List Text → Result Roles
from_db_role_names_onto r [] = ok r
from_db_role_names_onto r (name ∷ names) =
    let as_admin = from_db_role_names_onto (add authara_admin r) names in
    let as_operator = from_db_role_names_onto (add authara_operator r) names in
    if text_eq name db_admin_role_name
    then as_admin
    else (if text_eq name db_operator_role_name then as_operator else err unknown_role)

unfoldable pub from_db_role_names : List Text → Result Roles
unfolding from_db_role_names_onto
from_db_role_names names = from_db_role_names_onto [] names

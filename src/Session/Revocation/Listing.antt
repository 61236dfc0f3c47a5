-- ===== src/Session/Revocation/Listing.antt =====
-- internal/session/service.go: the order of `ListUserSessions`.
use authara.Prelude.{
  ℕ, ◌+◌, ◌==◌, ◌≡◌, ◌⊎◌, refl, inl, inr, Bool-cases, Option, none, some, Bool, true, false, List,
  [], ◌∷◌, arith, any, count_if, if◌then◌else◌,
}
use authara.Store.Rows.{Session}
use authara.Store.Exec.{Db}
use authara.Store.Sessions.{list_active_sessions_by_user_id}
use authara.Session.Revocation.{take_out, list_user_sessions}

-- How often a session that passes a test is in front and in the rest.
abbrev counted : (Session → Bool) → Option Session → ℕ
counted p none = 0
counted p (some x) = if p x then 1 else 0

take_out-count_if :
    (id : ℕ) (p : Session → Bool) (ss : List Session)
    → let (found, rest) = take_out id ss in counted p found + count_if p rest ≡ count_if p ss
unfolding take_out count_if
take_out-count_if id p [] = refl
take_out-count_if id p (x ∷ xs) = ground (arith, take_out-count_if id p xs)

take_out-found :
    (id : ℕ) (ss : List Session)
    → any (λ (x : Session). x.id == id) ss ≡ true
    → (c : Session) × ((take_out id ss).0 ≡ some c) × (c.id ≡ id)
unfolding take_out any
take_out-found id [] h = cc
take_out-found id (x ∷ xs) h = elim (Bool-cases (x.id == id)) [
  | inl here ↦ (x, ground (arith, here), ground (arith, here))
  | inr not_here ↦
      let (c, found, same) = take_out-found id xs (ground (arith, h, not_here)) in
      (c, ground (arith, found, not_here), same)
]

-- The listing holds the active sessions of the user, each as often as the table does, and starts
-- with the current session unless none is named or it is not among them.
pub list_user_sessions-reordered :
    (user_id current now : ℕ) (d : Db)
    → let listed = list_user_sessions user_id current now d in
      let active = list_active_sessions_by_user_id user_id now d in
      ((p : Session → Bool) → count_if p listed ≡ count_if p active)
      × ((current ≡ 0)
          ⊎ (any (λ (x : Session). x.id == current) active ≡ false)
          ⊎ ((c : Session) × (rest : List Session) × (listed ≡ c ∷ rest) × (c.id ≡ current)))
unfolding list_user_sessions count_if
list_user_sessions-reordered user_id current now d =
    let active = list_active_sessions_by_user_id user_id now d in
    (
      λ p. ground (arith, take_out-count_if current p active),
      elim (Bool-cases (current == 0)) [
        | inl unset ↦ inl (ground (arith, unset))
        | inr set ↦ elim (Bool-cases (any (λ (x : Session). x.id == current) active)) [
          | inr missing ↦ inr (inl missing)
          | inl there ↦
              let (c, found, same) = take_out-found current active there in
              inr (inr (c, (take_out current active).1, ground (arith, found, set), same))
        ]
      ],
    )

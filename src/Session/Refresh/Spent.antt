-- ===== src/Session/Refresh/Spent.antt =====
-- internal/store/sessions.go: a refresh token that is consumed stays so under the statements.
use authara.Prelude.{ℕ, ◌≡◌, refl, none, some, List, [], ◌∷◌, ◌++◌, arith, find?}
use authara.Prelude.Text.{Text, text_eq}
use authara.Store.Rows.{RefreshToken, SecurityEvent}
use authara.Store.Exec.{Db, ok}
use authara.Store.Sessions.{
  get_refresh_token_by_hash, consume_refresh_token, create_refresh_token, update_where,
}
use authara.Store.Sessions.Live.{to_consume, consumed}

-- The row of a hash is there and is consumed.
pub record IsSpent (hashed : Text) (d : Db) : Type 0 where
  pub rt : RefreshToken
  pub at : ℕ
  pub found : get_refresh_token_by_hash hashed d ≡ ok rt
  pub consumed_at : rt.consumed_at ≡ some at

find?-consumed :
    (hashed : Text) (at : ℕ) (ts : List RefreshToken) (rt : RefreshToken)
    → find? (λ (t : RefreshToken). text_eq t.token_hash hashed) ts ≡ some rt
    → rt.consumed_at ≡ none
    → find?
        (λ (t : RefreshToken). text_eq t.token_hash hashed)
        (update_where (to_consume rt.id) (consumed at) ts)
      ≡ some (consumed at rt)
unfolding find?
find?-consumed hashed at [] rt found fresh = cc
find?-consumed hashed at (t ∷ ts) rt found fresh = ground (arith, find?-consumed hashed at ts rt)

pub consume-IsSpent :
    (hashed : Text) (rt : RefreshToken) (at : ℕ) (d d' : Db)
    → get_refresh_token_by_hash hashed d ≡ ok rt
    → rt.consumed_at ≡ none
    → consume_refresh_token rt.id at d ≡ ok d'
    → IsSpent hashed d'
unfolding get_refresh_token_by_hash consume_refresh_token
consume-IsSpent hashed rt at d d' found fresh e = record {
  rt = consumed at rt;
  at = at;
  found = ground (arith, find?-consumed hashed at d.refresh_tokens rt);
  consumed_at = refl;
}

find?-append :
    (hashed : Text) (ts us : List RefreshToken) (rt : RefreshToken)
    → find? (λ (t : RefreshToken). text_eq t.token_hash hashed) ts ≡ some rt
    → find? (λ (t : RefreshToken). text_eq t.token_hash hashed) (ts ++ us) ≡ some rt
unfolding find?
find?-append hashed [] us rt h = cc
find?-append hashed (t ∷ ts) us rt h = ground (arith, find?-append hashed ts us rt)

get-appended :
    (hashed : Text) (d : Db) (us : List RefreshToken) (n : ℕ) (rt : RefreshToken)
    → get_refresh_token_by_hash hashed d ≡ ok rt
    → get_refresh_token_by_hash hashed
        (record d { refresh_tokens = d.refresh_tokens ++ us; next_id = n })
      ≡ ok rt
unfolding get_refresh_token_by_hash
get-appended hashed d us n rt h = ground (arith, find?-append hashed d.refresh_tokens us rt)

pub create-IsSpent :
    (hashed : Text) (db_now : ℕ) (t : RefreshToken) (d : Db)
    → IsSpent hashed d
    → IsSpent hashed (create_refresh_token db_now t d)
unfolding create_refresh_token
create-IsSpent hashed db_now t d sp = record {
  rt = sp.rt;
  at = sp.at;
  found = get-appended hashed d _ _ sp.rt sp.found;
  consumed_at = sp.consumed_at;
}

pub event-IsSpent :
    (hashed : Text) (es : List SecurityEvent) (d : Db)
    → IsSpent hashed d
    → IsSpent hashed (record d { security_events = es })
unfolding get_refresh_token_by_hash
event-IsSpent hashed es d sp = record {
  rt = sp.rt;
  at = sp.at;
  found = sp.found;
  consumed_at = sp.consumed_at;
}

-- ===== src/RefreshToken/Redeemed.antt =====
-- A token that may be rotated is rotated.
use sassy_auth.Common.{
  ℕ, ◌≤◌, String, false, some, none, [], ◌∷◌, ◌≡◌, refl, arith, ◌&&◌, ok, find?, any, count_where,
}
use sassy_auth.Json.{JsonText}
use sassy_auth.RefreshToken.{
  SaRefreshToken, Table, has_hash, is_live, create, successor, consume, rotate_tx, rotate_commit,
  rotated, rotate,
}
use sassy_auth.RefreshToken.Rows.{any_hash-consume}
use sassy_auth.RefreshToken.Rotation.{IsRedeemable, rotate_check_complete, rotate-of_check}
use sassy_auth.RefreshToken.Family.{IsValid}

no_row :
    (h : String) (t : Table)
    → count_where (has_hash h) t ≡ 0
    → count_where (λ r. has_hash h r && is_live r) t ≡ 0
no_row h [] e = refl
no_row h (r ∷ t) e = ground (arith, no_row h t)

one_live_row :
    (h : String) (t : Table) (row : SaRefreshToken)
    → find? (has_hash h) t ≡ some row
    → row.revoked_at ≡ none
    → count_where (has_hash h) t ≤ 1
    → count_where (λ r. has_hash h r && is_live r) t ≡ 1
one_live_row h [] row found live le = cc
one_live_row h (r ∷ t) row found live le = ground (arith, no_row h t, one_live_row h t row)

-- A live token, presented for its app inside both windows, is rotated whenever the new token's
-- hash is not taken (the table is valid): the request answers the new token with the old one's
-- claims.
pub rotate_completes :
    (json : JsonText) (hash_token : String → String) (presented app new_token : String) (now : ℕ)
    (t : Table) (row : SaRefreshToken)
    → IsValid t
    → IsRedeemable hash_token presented app now t row
    → any (has_hash (hash_token new_token)) t ≡ false
    → rotate json hash_token presented app new_token now t ≡ (
      ok (rotated json row new_token),
      successor hash_token row new_token now ∷ consume hash_token presented new_token now t,
    )
unfolding rotate_commit rotate_tx create successor
rotate_completes json hash_token presented app new_token now t row v ready fresh =
    let one =
      one_live_row (hash_token presented) t row ready.found ready.unrevoked
        (v.one_row (hash_token presented)) in
    let checked = rotate_check_complete hash_token presented app now t row ready in
    let rest = rotate-of_check hash_token presented app now json new_token t row checked in
    ground (arith, any_hash-consume hash_token presented new_token now (hash_token new_token) t)

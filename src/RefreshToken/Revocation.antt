-- ===== src/RefreshToken/Revocation.antt =====
-- Logging out and deactivating a user revoke the user's refresh tokens.
use sassy_auth.Common.{
  ℕ, String, true, not, ◌&&◌, some, [], ◌∷◌, ◌==◌, ◌≡◌, refl, arith, Bool, count_where, find?, ok,
  filter, is_some, ◌===◌, ◌≢◌, inl, subst, sym, inr,
}
use sassy_auth.Json.{JsonText}
use sassy_auth.RefreshToken.{
  SaRefreshToken, Table, has_hash, is_live, revoke_where, rotate, revoke_for_user,
  revoke_for_user_app, RotatedRefreshToken, rotated,
}
use sassy_auth.RefreshToken.Rotation.{rotate_cases}

revoke_user-rows :
    (u now : ℕ) (t : Table)
    → (count_where
          (λ r. r.sa_user_id == u && is_live r)
          (revoke_where (λ r. r.sa_user_id == u) now t)
        ≡ 0)
      × (filter (λ r. not (r.sa_user_id == u)) (revoke_where (λ r. r.sa_user_id == u) now t)
          ≡ filter (λ r. not (r.sa_user_id == u)) t)
unfolding revoke_where
revoke_user-rows u now [] = (refl, refl)
revoke_user-rows u now (r ∷ t) = ground (arith, revoke_user-rows u now t)

-- Deactivation leaves no live refresh token of the user, and no other user's row is touched.
pub revoke_for_user_lem :
    (u now : ℕ) (t : Table)
    → let (r, t') = revoke_for_user u now t in
      (r ≡ ok tt)
      × (count_where (λ x. x.sa_user_id == u && is_live x) t' ≡ 0)
      × (filter (λ x. not (x.sa_user_id == u)) t' ≡ filter (λ x. not (x.sa_user_id == u)) t)
unfolding revoke_for_user
revoke_for_user_lem u now t = let (a, b) = revoke_user-rows u now t in (refl, a, b)

abbrev pub is_grant_of : String → String → SaRefreshToken → Bool
is_grant_of user app r = r.user_public_id === user && r.app_public_id === app

revoke_grant-rows :
    (user app : String) (now : ℕ) (t : Table)
    → (count_where
          (λ r. is_grant_of user app r && is_live r)
          (revoke_where (is_grant_of user app) now t)
        ≡ 0)
      × (filter (λ r. not (is_grant_of user app r)) (revoke_where (is_grant_of user app) now t)
          ≡ filter (λ r. not (is_grant_of user app r)) t)
unfolding revoke_where
revoke_grant-rows user app now [] = (refl, refl)
revoke_grant-rows user app now (r ∷ t) = ground (arith, revoke_grant-rows user app now t)

-- Logging out of an app leaves no live refresh token of the user for that app, and touches no
-- other row.
pub revoke_for_user_app_lem :
    (user app : String) (now : ℕ) (t : Table)
    → let (r, t') = revoke_for_user_app user app now t in
      (r ≡ ok tt)
      × (count_where (λ x. is_grant_of user app x && is_live x) t' ≡ 0)
      × (filter (λ x. not (is_grant_of user app x)) t'
          ≡ filter (λ x. not (is_grant_of user app x)) t)
unfolding revoke_for_user_app
revoke_for_user_app_lem user app now t =
    let (a, b) = revoke_grant-rows user app now t in (refl, a, b)

revoke-find :
    (h : String) (u now : ℕ) (t : Table) (row : SaRefreshToken)
    → find? (has_hash h) (revoke_where (λ r. r.sa_user_id == u) now t) ≡ some row
    → row.sa_user_id ≡ u
    → is_some row.revoked_at ≡ true
unfolding revoke_where
revoke-find h u now [] row e same = cc
revoke-find h u now (r ∷ t) row e same = ground (arith, revoke-find h u now t row)

-- After a user is deactivated, no refresh token of that user rotates, for whatever app and
-- whenever it is presented.
pub deactivated_user_cannot_rotate :
    (json : JsonText) (hash_token : String → String) (presented app new_token : String)
    (u at now : ℕ) (t t' : Table) (r : RotatedRefreshToken)
    → rotate json hash_token presented app new_token now (revoke_for_user u at t).1 ≡ (ok r, t')
    → r.sa_user_id ≢ u
unfolding revoke_for_user rotated
deactivated_user_cannot_rotate json hash_token presented app new_token u at now t t' r e same =
    elim (rotate_cases hash_token presented app now json new_token
      (revoke_where (λ x. x.sa_user_id == u) at t)) [
        | inl (row, x, (ready, tx, done)) ↦
            let answer : rotated json row new_token ≡ r = ground arith in
            let owner : row.sa_user_id ≡ u = subst (λ y. y.sa_user_id ≡ u) (sym answer) same in
            let revoked = revoke-find (hash_token presented) u at t row ready.found owner in
            let live = ready.unrevoked in ground arith
        | inr (inl (x, kind, failed)) ↦ cc
        | inr (inr (row, reused, failed)) ↦ cc
      ]

-- ===== src/TokenEndpoint/RefreshGrant.antt =====
-- Who gets tokens for a refresh token.
use sassy_auth.Common.{
  ℕ, String, true, false, some, ◌≡◌, ◌⊎◌, inl, inr, refl, arith, Option-cases, Bool-cases,
  Result-cases, ok, >>=-eq-ok, subst,
}
use sassy_auth.Db.{SaApp, SaUser, UserStatus, active, pending, inactive, unverified}
use sassy_auth.RefreshToken.{SaRefreshToken, RotatedRefreshToken, rotate, rotated}
use sassy_auth.RefreshToken.Rotation.{IsRedeemable}
use sassy_auth.RefreshToken.Reuse.{rotate_sound}
use sassy_auth.Queries.{find_user}
use sassy_auth.Platform.{Platform}
use sassy_auth.TokenService.{issue_jwt}
use sassy_auth.World.{World}
use sassy_auth.TokenEndpoint.{
  RefreshRequest, TokenResponse, may_redeem, tokens_of_rotated, refresh_grant_for, refresh_grant,
  find_client, jwt_of_rotated,
}
use sassy_auth.TokenEndpoint.Clients.{
  IsClient, IsAuthenticated, IsPublic, find_client-eq-ok, require_secret-eq-ok,
}

may_redeem-false : (s : UserStatus) → may_redeem false s ≡ true → s ≡ active
unfolding may_redeem
may_redeem-false active h = refl
may_redeem-false pending h = cc
may_redeem-false inactive h = cc
may_redeem-false unverified h = cc

module _ (p : Platform) (now : ℕ) where
  tokens_of_rotated-eq-ok :
      (x : RotatedRefreshToken) (w w' : World) (r : TokenResponse)
      → tokens_of_rotated p x now w ≡ (ok r, w')
      → (user : SaUser) × (find_user x.user_public_id w.db ≡ some user)
        × (user.status ≡ active)
        × ((issue_jwt p (jwt_of_rotated p x) now w.db).0 ≡ ok r.access_token)
        × (r.scope ≡ x.scope)
        × (r.refresh_token ≡ some x.token)
        × (w'.refresh ≡ w.refresh)
  unfolding tokens_of_rotated
  tokens_of_rotated-eq-ok x w w' r h = elim (Option-cases (find_user x.user_public_id w.db)) [
    | inl missing ↦ ground arith
    | inr (user, found) ↦ elim (Bool-cases (may_redeem false user.status)) [
      | inl may ↦ (
        user,
        found,
        may_redeem-false user.status may,
        ground arith,
        ground arith,
        ground arith,
        ground arith,
      )
      | inr may_not ↦ ground arith
    ]
  ]

  -- What holds of a refresh request that is answered with tokens.
  pub record IsRefreshed (g : RefreshRequest) (new_token : String) (w : World) (r : TokenResponse)
      (w' : World) : Type 0 where
    pub app : SaApp
    pub row : SaRefreshToken
    pub user : SaUser
    pub client : IsClient p w.db g.client.client_id app
    pub secret : IsPublic app ⊎ IsAuthenticated p g.client app
    pub ready : IsRedeemable p.hash_token g.refresh_token g.client.client_id now w.refresh row
    pub found : find_user row.user_public_id w.db ≡ some user
    pub is_active : user.status ≡ active
    pub token :
        (issue_jwt p (jwt_of_rotated p (rotated p.json row new_token)) now w.db).0
        ≡ ok r.access_token
    pub scope : r.scope ≡ row.scope
    pub next : r.refresh_token ≡ some new_token
    pub rotation :
        rotate p.json p.hash_token g.refresh_token g.client.client_id new_token now w.refresh
        ≡ (ok (rotated p.json row new_token), w'.refresh)

  -- `rotated` copies the row's claims.
  rotated-fields :
      (row : SaRefreshToken) (new_token : String) (x : RotatedRefreshToken)
      → x ≡ rotated p.json row new_token
      → (x.user_public_id ≡ row.user_public_id) × (x.scope ≡ row.scope) × (x.token ≡ new_token)
  unfolding rotated
  rotated-fields row new_token x e = ground arith

  refresh_grant_for-eq-ok :
      (g : RefreshRequest) (new_token : String) (app : SaApp) (w w' : World) (r : TokenResponse)
      → IsClient p w.db g.client.client_id app
      → refresh_grant_for p g new_token now app w ≡ (ok r, w')
      → IsRefreshed g new_token w r w'
  unfolding refresh_grant_for
  refresh_grant_for-eq-ok g new_token app w w' r client h =
      let rotation = rotate p.json p.hash_token g.refresh_token g.client.client_id new_token now in
      elim (Result-cases (rotation w.refresh).0) [
        | inr (e, failed) ↦ ground arith
        | inl (x, done) ↦
            let after : World = record w { refresh = (rotation w.refresh).1 } in
            let rest : tokens_of_rotated p x now after ≡ (ok r, w') = ground arith in
            let (user, found, is_active, token, scope, next, kept) =
              tokens_of_rotated-eq-ok x after w' r rest in
            let whole : rotation w.refresh ≡ (ok x, w'.refresh) = ground arith in
            let (row, s, ready, same, _, _, _) =
              rotate_sound p.hash_token g.refresh_token g.client.client_id new_token now p.json
                w.refresh w'.refresh x whole in
            let (same_user, same_scope, same_token) = rotated-fields row new_token x same in
            record {
              app = app;
              row = row;
              user = user;
              client = client;
              secret = require_secret-eq-ok p g.client app (ground arith);
              ready = ready;
              found = subst (λ u. find_user u w.db ≡ some user) same_user found;
              is_active = is_active;
              token =
                  subst (λ y. (issue_jwt p (jwt_of_rotated p y) now w.db).0 ≡ ok r.access_token)
                    same token;
              scope = ground arith;
              next = ground arith;
              rotation = subst (λ y. rotation w.refresh ≡ (ok y, w'.refresh)) same whole;
            }
      ]

  -- Tokens are answered to a refresh token only where all of this holds: the client id names an
  -- app, which presented its secret if it has one; the refresh token is stored, live, issued to
  -- that app and inside both of its windows; and its user exists and is active. The access token
  -- is the one that is issued for the claims of that row, and the refresh token is rotated.
  pub refresh_grant_sound :
      (g : RefreshRequest) (new_token : String) (w w' : World) (r : TokenResponse)
      → refresh_grant p g new_token now w ≡ (ok r, w')
      → IsRefreshed g new_token w r w'
  unfolding refresh_grant
  refresh_grant_sound g new_token w w' r h =
      let (app, s, found, rest) =
        >>=-eq-ok (find_client p g.client.client_id) (refresh_grant_for p g new_token now) w w' r
          h in
      let (client, same) = find_client-eq-ok p g.client.client_id w s app found in
      refresh_grant_for-eq-ok g new_token app w w' r client
        (subst (λ v. refresh_grant_for p g new_token now app v ≡ (ok r, w')) same rest)

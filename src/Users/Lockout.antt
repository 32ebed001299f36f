-- ===== src/Users/Lockout.antt =====
-- A deactivated user gets no more tokens.
use sassy_auth.Common.{ℕ, String, some, ◌≡◌, ◌≢◌, ok, find?, subst, ◌∙◌, arith, refl, ap}
use sassy_auth.Db.{SaUser, inactive}
use sassy_auth.Queries.{find_user}
use sassy_auth.RefreshToken.{SaRefreshToken, has_hash, rotated, rotate}
use sassy_auth.RefreshToken.Revocation.{deactivated_user_cannot_rotate}
use sassy_auth.Platform.{Platform}
use sassy_auth.World.{World}
use sassy_auth.TokenEndpoint.{RefreshRequest, TokenResponse, refresh_grant}
use sassy_auth.TokenEndpoint.RefreshGrant.{refresh_grant_sound}
use sassy_auth.Users.Accounts.{UpdateUserDto, UserView, update_user}
use sassy_auth.Users.Deactivation.{update_user-deactivates}

rotated-sa_user_id :
    (p : Platform) (row : SaRefreshToken) (new_token : String)
    → (rotated p.json row new_token).sa_user_id ≡ row.sa_user_id
unfolding rotated
rotated-sa_user_id p row new_token = refl

-- After an update that deactivated a user, no refresh request is answered with tokens for a token
-- of that user, by whatever client and whenever it comes, as long as the tables are as the update
-- left them.
pub deactivated_gets_no_tokens :
    (p : Platform) (caller public_id : String) (dto : UpdateUserDto) (now later : ℕ)
    (w w' w'' : World) (v : UserView) (g : RefreshRequest) (new_token : String) (r : TokenResponse)
    (row : SaRefreshToken) (user : SaUser)
    → dto.status ≡ some inactive
    → update_user caller public_id dto now w ≡ (ok v, w')
    → find? (has_hash (p.hash_token g.refresh_token)) w'.refresh ≡ some row
    → find_user public_id w.db ≡ some user
    → row.sa_user_id ≡ user.id
    → refresh_grant p g new_token later w' ≢ (ok r, w'')
deactivated_gets_no_tokens p caller public_id dto now later w w' w'' v g new_token r row user asked
      done stored there owner granted =
    let (u, (found, _, _, _), _, burned) =
      update_user-deactivates caller public_id dto now w w' v asked done in
    let x = refresh_grant_sound p later g new_token w' w'' r granted in
    let same_row : x.row ≡ row = let present = x.ready.found in ground arith in
    let same_user : user.id ≡ u.id = ground arith in
    let rotation =
      subst
        (λ t.
          rotate p.json p.hash_token g.refresh_token g.client.client_id new_token later t
          ≡ (ok (rotated p.json x.row new_token), w''.refresh))
        burned x.rotation in
    deactivated_user_cannot_rotate p.json p.hash_token g.refresh_token g.client.client_id new_token
      u.id now later w.refresh w''.refresh (rotated p.json x.row new_token) rotation
      (rotated-sa_user_id p x.row new_token ∙ ap (λ y. y.sa_user_id) same_row ∙ owner ∙ same_user)

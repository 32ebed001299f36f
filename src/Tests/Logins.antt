-- ===== src/Tests/Logins.antt =====
-- Direct logins of the sample deployment.
use sassy_auth.Common.{true, none, some, [], ◌∷◌, ◌≡◌, ◌≢◌, refl, ok, err, ◌+◌}
use sassy_auth.Db.{SaApp, SaUser}
use sassy_auth.SignIn.{is_two_factor_required}
use sassy_auth.Queries.{find_app_by_id, find_org_by_id}
use sassy_auth.TokenClaims.{resolve_permissions, resolve_roles, find_user_by_id}
use sassy_auth.RefreshToken.{SaRefreshToken, issue, issued, create, sliding_ttl_ms, absolute_ttl_ms}
use sassy_auth.TokenService.{find_ba_user, issue_jwt, access_payload}
use sassy_auth.World.{World}
use sassy_auth.TokenEndpoint.Clients.{IsClient}
use sassy_auth.TokenEndpoint.DirectLogin.{
  LoginRequest, LoginResponse, Login, find_identified, detect_identifier_type, login_email,
  credential_account, stored_password, is_enrolled, password_matches, code_matches, second_factor,
  find_login_app, check_password, check_user, check_login, tokens_of_login, direct_login_for,
  direct_login, jwt_of_login, record_login, invalid_credentials,
}
use sassy_auth.TokenEndpoint.LoginChecks.{MayLogin, direct_login_sound, direct_login_opaque}
use sassy_auth.Tests.Data.{db, shop}
use sassy_auth.Tests.RefreshTokens
use sassy_auth.Tests.Endpoint.{platform, world, randoms}

abbrev login_request : LoginRequest
login_request = record {
  identifier = "anna@north";
  password = "s3cret";
  app_id = "shop";
  totp_code = none;
}

abbrev issued_row : SaRefreshToken
issued_row = record RefreshTokens.row {
  token_hash = "t";
  family_id = "g";
  scope = "";
  auth_time = 200;
  expires_at = 200 + sliding_ttl_ms;
  absolute_expires_at = 200 + absolute_ttl_ms;
}

abbrev after_login : World
after_login = record (record_login 2 200 world) { refresh = issued_row ∷ RefreshTokens.row ∷ [] }

abbrev login_response : LoginResponse
login_response = record {
  access_token = "";
  token_type = "Bearer";
  expires_in = 3600;
  refresh_token = "t";
}

logged_in : direct_login platform login_request randoms 200 world ≡ (ok login_response, after_login)
unfolding direct_login direct_login_for find_login_app find_app_by_id check_login check_password
    check_user find_identified detect_identifier_type password_matches stored_password login_email
    credential_account find_org_by_id second_factor is_two_factor_required is_enrolled find_ba_user
    code_matches tokens_of_login issue_jwt access_payload resolve_permissions resolve_roles
    find_user_by_id issue issued create
logged_in = refl

direct_login_sound_example :
    (app : SaApp) × (l : Login) × IsClient platform db "shop" app
    × MayLogin platform login_request 200 db app l
    × ((issue_jwt platform (jwt_of_login platform l) 200 (record_login l.user.id 200 world).db).0
        ≡ ok "")
direct_login_sound_example =
    direct_login_sound platform login_request 200 randoms world after_login login_response logged_in

-- Ben's account has no password.
direct_login_opaque_example :
    direct_login platform (record login_request { identifier = "ben@north" }) randoms 200 world
    ≡ (err invalid_credentials, world)
unfolding find_app_by_id find_identified detect_identifier_type password_matches stored_password
    login_email credential_account
direct_login_opaque_example =
    direct_login_opaque platform (record login_request { identifier = "ben@north" }) 200 randoms
      world shop (2, refl, refl) nobody
  where
    nobody :
        (user : SaUser)
        → find_identified (detect_identifier_type "ben@north") "ben@north" db ≡ some user
        → password_matches platform (record login_request { identifier = "ben@north" }) user db
          ≢ true
    nobody user e h = cc

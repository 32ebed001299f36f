-- ===== src/Tests/Authorize.antt =====
-- Requests to the authorization endpoint of the sample deployment.
use sassy_auth.Common.{false, none, some, [], ◌∷◌, ◌≡◌, ◌⊎◌, refl, ok}
use sassy_auth.RedirectUri.{
  assert_post_logout_redirect_uri_allowed, assert_redirect_uri_allowed, allowed_by, is_exact_match,
  same_url, registered,
}
use sassy_auth.Access.{find_user_by_ba_id}
use sassy_auth.Db.{SaApp, Db}
use sassy_auth.OauthCode.{s256, SaOauthCode, create, generate_code, generated}
use sassy_auth.Queries.{find_app, find_app_by_id, find_org_by_id}
use sassy_auth.SignIn.{is_two_factor_required}
use sassy_auth.TokenService.{parse_scopes, asks_for}
use sassy_auth.World.{World}
use sassy_auth.TokenEndpoint.{find_client, join_words, CodeRequest, TokenResponse}
use sassy_auth.TokenEndpoint.Logout.{
  LogoutRequest, LogoutCalls, to_relying_party, handle_oauth_logout, verify_access_token, leave,
  leave_for, revoke_hinted, end_session, redirect_after,
}
use sassy_auth.RefreshToken.{revoke_for_user_app}
use sassy_auth.TokenEndpoint.Authorize.{
  AuthorizeRequest, AuthSession, Visit, to_client, derive_auth_methods, check_pkce, resolve_client,
  client_redirect, is_stale, usable_session,
}
use sassy_auth.TokenEndpoint.Authorize.Handler.{
  granted_scopes, code_request, issue_code, check_session_user, with_session, with_client,
  oauth_authorize,
}
use sassy_auth.TokenEndpoint.Authorize.Stages.{IsResolved}
use sassy_auth.TokenEndpoint.Authorize.Issued.{IsIssued, oauth_authorize_issues}
use sassy_auth.TokenEndpoint.Authorize.Redirects.{oauth_authorize_redirects}
use sassy_auth.Tests.Endpoint.{platform, world}
use sassy_auth.Tests.Data.{json}

abbrev request : AuthorizeRequest
request = record {
  client_id = "shop";
  redirect_uri = "https://shop/callback";
  code_challenge = some "verifier";
  code_challenge_method = some "S256";
  state = "xyz";
  scope = "openid";
  nonce = "n";
  prompt = "";
  max_age = "";
}

abbrev annas_session : AuthSession
annas_session = record {
  user_id = "anna";
  two_factor_enabled = false;
  sign_in_method = some "ext:google";
  created_at = some 90;
}

abbrev visit : Visit
visit = record {
  session = some annas_session;
  admin_url = some "https://admin";
  number = λ s. none;
  new_code = "fresh";
  now = 100;
}

abbrev entry : SaOauthCode
entry = record {
  code = "fresh";
  user_id = "u2";
  app_public_id = "shop";
  redirect_uri = "https://shop/callback";
  code_challenge = some "verifier";
  code_challenge_method = some s256;
  amr = json.stringify ("ext" ∷ []);
  nonce = some "n";
  scope = "openid";
  auth_time = 90;
  idp = some "google";
  expires_at = 300100;
}

abbrev after : World
after = record world { codes = entry ∷ world.codes }

issued :
    oauth_authorize platform request visit world
    ≡ (ok (to_client "https://shop/callback" (("code", "fresh") ∷ ("state", "xyz") ∷ [])), after)
unfolding oauth_authorize resolve_client find_client find_app_by_id check_pkce
    assert_redirect_uri_allowed allowed_by is_exact_match same_url registered with_client
    usable_session is_stale with_session check_session_user find_user_by_ba_id find_org_by_id
    is_two_factor_required issue_code code_request derive_auth_methods granted_scopes parse_scopes
    asks_for join_words generate_code generated create client_redirect
issued = refl

oauth_authorize_issues_example :
    (after ≡ world)
    ⊎ ((app : SaApp) × IsResolved platform request world.db app
        × IsIssued platform request visit app world
            (ok (to_client "https://shop/callback" (("code", "fresh") ∷ ("state", "xyz") ∷ [])))
            after)
oauth_authorize_issues_example =
    oauth_authorize_issues platform request visit world after
      (ok (to_client "https://shop/callback" (("code", "fresh") ∷ ("state", "xyz") ∷ []))) issued

oauth_authorize_redirects_example :
    ("https://shop/callback" ≡ request.redirect_uri)
    × (app : SaApp) × IsResolved platform request world.db app
oauth_authorize_redirects_example =
    oauth_authorize_redirects platform request visit "https://shop/callback"
      (("code", "fresh") ∷ ("state", "xyz") ∷ []) world after issued

abbrev token_request : CodeRequest
token_request = record {
  client = record { client_id = "shop"; secret = some "s3cret" };
  code = "fresh";
  redirect_uri = "https://shop/callback";
  code_verifier = some "verifier";
}

abbrev tokens : TokenResponse
tokens = record {
  access_token = "openid";
  token_type = "Bearer";
  expires_in = 3600;
  scope = "openid";
  id_token = some "id";
  refresh_token = none;
}

abbrev logout_request : LogoutRequest
logout_request = record {
  id_token_hint = "hint";
  post_logout_redirect_uri = "https://shop/bye";
  state = "xyz";
}

abbrev calls : LogoutCalls
calls = record {
  jwt_verify = λ s. some (record { aud = "shop"; sub = "u2" });
  sign_out = λ d. (ok ("session=; Max-Age=0" ∷ []), record d { sessions = [] });
}

-- The sample logout goes back to the shop, with the cookie of the library.
shop_logout :
    (handle_oauth_logout platform calls logout_request 200 world).0
    ≡ ok (record {
      cookies = "session=; Max-Age=0" ∷ [];
      redirect = to_relying_party "https://shop/bye" (("state", "xyz") ∷ []);
    })
unfolding handle_oauth_logout end_session redirect_after verify_access_token leave leave_for
    revoke_hinted revoke_for_user_app find_app assert_post_logout_redirect_uri_allowed
    is_exact_match same_url registered
shop_logout = refl

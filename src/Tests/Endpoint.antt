-- ===== src/Tests/Endpoint.antt =====
-- Token requests of the sample deployment.
use sassy_auth.Common.{
  if◌then◌else◌, false, String, none, some, Option, [], ◌∷◌, ◌≡◌, ◌≢◌, refl, ok, ◌===◌,
}
use sassy_auth.RedirectUri.{
  Url, registered, assert_redirect_uri_allowed, allowed_by, is_exact_match, same_url,
}
use sassy_auth.Json.{safe_parse_amr}
use sassy_auth.OauthCode.{exchange_code, exchanged, delete, passes_pkce}
use sassy_auth.RefreshToken.{
  create, rotate, rotate_check, rotate_commit, rotate_tx, consume, successor, rotated,
}
use sassy_auth.Queries.{find_app_by_id, find_user, find_org_by_id}
use sassy_auth.Platform.{Platform}
use sassy_auth.TokenService.{
  issue_jwt, issue_id_token, id_payload, build_scoped_claims, access_payload, asks_for,
}
use sassy_auth.World.{World}
use sassy_auth.TokenEndpoint.{
  Client, CodeRequest, RefreshRequest, TokenResponse, Randoms, find_client, verify_client_secret,
  may_redeem, id_token_for, refresh_token_for, tokens_of_code, redeem, code_grant_for, code_grant,
  tokens_of_rotated, refresh_grant_for, refresh_grant,
}
use sassy_auth.TokenEndpoint.CodeGrant.{IsGranted, code_grant_sound, code_grant_once}
use sassy_auth.TokenEndpoint.RefreshGrant.{IsRefreshed, refresh_grant_sound}
use sassy_auth.TokenClaims.{resolve_permissions, resolve_roles, find_user_by_id}
use sassy_auth.Tests.Data.{db, json, sorting}
use sassy_auth.Tests.Codes
use sassy_auth.Tests.RefreshTokens

-- A parser for the URLs of the sample: no query, and the origin is the text itself.
abbrev pub parse_url : String → Option Url
parse_url s =
    some (record { protocol = "https:"; host = "shop"; pathname = s; search = ""; origin = s })

abbrev pub platform : Platform
platform = record {
  json = json;
  sorting = sorting;
  parse_url = parse_url;
  decode_sqid = λ s. if s === "platform" then some 1 else some 2;
  words = λ s. s ∷ [];
  trim = λ s. s;
  verify_password = λ secret hash. secret === "s3cret";
  totp_valid = λ secret given now. given === "123456";
  platform_requires_two_factor = false;
  hash_token = λ s. s;
  s256_of = λ s. s;
  at_hash = λ s. s;
  sign_access = λ payload. payload.scope;
  sign_id = λ payload. "id";
  sign_service = λ payload. "service";
  issuer = "https://auth";
}

abbrev client : Client
client = record { client_id = "shop"; secret = some "s3cret" }

abbrev pub world : World
world = record { db = db; codes = Codes.entry ∷ []; refresh = RefreshTokens.table }

abbrev code_request : CodeRequest
code_request = record {
  client = client;
  code = "code";
  redirect_uri = "https://shop/callback";
  code_verifier = some "verifier";
}

abbrev pub randoms : Randoms
randoms = record { token = "t"; family = "g" }

abbrev after_code : World
after_code = record world { codes = [] }

abbrev code_response : TokenResponse
code_response = record {
  access_token = "openid orders";
  token_type = "Bearer";
  expires_in = 3600;
  scope = "openid orders";
  id_token = none;
  refresh_token = none;
}

code_granted : code_grant platform code_request randoms 200 world ≡ (ok code_response, after_code)
unfolding code_grant code_grant_for find_client find_app_by_id assert_redirect_uri_allowed
    allowed_by is_exact_match same_url registered verify_client_secret exchange_code delete
    passes_pkce exchanged safe_parse_amr redeem find_user find_org_by_id may_redeem tokens_of_code
    issue_jwt access_payload resolve_permissions resolve_roles find_user_by_id id_token_for
    refresh_token_for
code_granted = refl

code_grant_sound_example :
    IsGranted platform randoms 200 code_request world code_response after_code
code_grant_sound_example =
    code_grant_sound platform randoms 200 code_request world after_code code_response code_granted

code_grant_once_example :
    code_grant platform code_request randoms 201 after_code ≢ (ok code_response, after_code)
code_grant_once_example =
    code_grant_once platform code_request code_request randoms randoms 200 201 world after_code
      after_code code_response code_response refl code_granted

abbrev refresh_request : RefreshRequest
refresh_request = record { client = client; refresh_token = "a" }

abbrev after_refresh : World
after_refresh = record world { refresh = RefreshTokens.rotated_table }

abbrev refresh_response : TokenResponse
refresh_response = record {
  access_token = "openid";
  token_type = "Bearer";
  expires_in = 3600;
  scope = "openid";
  id_token = some "id";
  refresh_token = some "b";
}

refreshed :
    refresh_grant platform refresh_request "b" 200 world ≡ (ok refresh_response, after_refresh)
unfolding refresh_grant refresh_grant_for find_client find_app_by_id verify_client_secret rotate
    rotate_check rotate_commit rotate_tx consume successor create rotated safe_parse_amr find_user
    may_redeem tokens_of_rotated issue_jwt access_payload resolve_permissions resolve_roles
    find_user_by_id id_token_for issue_id_token id_payload build_scoped_claims asks_for
refreshed = refl

refresh_grant_sound_example :
    IsRefreshed platform 200 refresh_request "b" world refresh_response after_refresh
refresh_grant_sound_example =
    refresh_grant_sound platform 200 refresh_request "b" world after_refresh refresh_response
      refreshed

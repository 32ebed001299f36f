-- ===== src/Tests/Service.antt =====
-- A service token of the sample deployment, from its grant to its use.
use Prim.Native.String
use sassy_auth.Common.{String, Option, none, some, [], ◌∷◌, ◌≡◌, refl, ok, ap, arith}
use sassy_auth.Json.{Json, array, str}
use sassy_auth.Platform.{Platform}
use sassy_auth.Queries.{find_app_by_id}
use sassy_auth.TokenService.{service_payload, parse_service_scopes, asks_for}
use sassy_auth.TokenEndpoint.{
  ServiceRequest, TokenResponse, service_grant, find_client, verify_client_secret, service_scopes,
  join_words,
}
use sassy_auth.ServiceGuard.{VerifyJwt, Claims, split_spaces, bearer_of, can_activate}
use sassy_auth.ServiceGuard.Access.{Verifies, granted_token_activates}
use sassy_auth.Tests.Data.{json, shop}
use sassy_auth.Tests.Endpoint.{platform, world}

-- A signature that lists the claims.
abbrev signing : Platform
signing = record platform {
  sign_service = λ payload. json.stringify (payload.azp ∷ payload.scope ∷ payload.token_use ∷ []);
}

abbrev claims_of : Option Json → Option Claims
claims_of (some (array (str a ∷ str s ∷ str u ∷ []))) =
    some (record { azp = some a; scope = some s; token_use = some u })
claims_of _ = none

abbrev verify_jwt : VerifyJwt
verify_jwt issuer audience now token = claims_of (json.parse token)

signing-Verifies : Verifies signing verify_jwt
signing-Verifies = record {
  signed = λ payload now live.
      ap claims_of (json.parse-stringify (payload.azp ∷ payload.scope ∷ payload.token_use ∷ []));
  word = refl;
}

abbrev request : ServiceRequest
request = record {
  client = record { client_id = "shop"; secret = some "s3cret" };
  scope = some "roles:write";
}

abbrev token : String
token = json.stringify ("shop" ∷ "roles:write" ∷ "service" ∷ [])

abbrev response : TokenResponse
response = record {
  access_token = token;
  token_type = "Bearer";
  expires_in = 300;
  scope = "roles:write";
  id_token = none;
  refresh_token = none;
}

granted : service_grant signing request 2000 world ≡ (ok response, world)
unfolding service_grant find_client find_app_by_id verify_client_secret service_scopes
    parse_service_scopes asks_for join_words service_payload
granted = refl

abbrev header : String
header = String.◌++◌ "Bearer " token

granted_token_activates_example :
    can_activate signing verify_jwt 200000 header
    ≡ ok (record { app_id = 2; app_public_id = "shop" })
unfolding find_app_by_id bearer_of split_spaces
granted_token_activates_example =
    granted_token_activates signing verify_jwt request 2000 200000 world world response shop header
      signing-Verifies (2, refl, refl) (λ e. cc) refl granted refl (omega arith) refl

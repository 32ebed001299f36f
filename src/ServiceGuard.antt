-- ===== src/ServiceGuard.antt =====
-- service-users/service-token.guard.ts, and `verifyServiceAccessToken` of token/token.service.ts:
-- which app a request to the service users' routes acts for. `jwt.verify` is the library's.
pub mod Access
use Prim.Native.Char.{code}
use Prim.Native.String
use sassy_auth.Common.{
  ℕ, String, Bool, true, false, not, ◌&&◌, Option, none, some, List, [], ◌∷◌, ◌==◌, ◌===◌,
  if◌then◌else◌, lower, codes, same_codes, get_or, is_truthy, is_text, bare, plain, Exception,
  unauthorized, forbidden, Result, ok, err,
}
use sassy_auth.Platform.{Platform}
use sassy_auth.TokenService.{asks_for, service_token_audience}

-- The claims that the code reads from a verified token.
pub record Claims : Type 0 where
  pub azp : Option String
  pub scope : Option String
  pub token_use : Option String

-- `jwt.verify` with the server's key and RS256: the issuer and the audience that it asks for, the
-- clock, and the token; `none` where it throws.
abbrev pub VerifyJwt : Type 0
VerifyJwt = String → String → ℕ → String → Option Claims

abbrev pub invalid_request : Exception
invalid_request = unauthorized (plain "invalid_request")

abbrev pub invalid_grant : Exception
invalid_grant = unauthorized (plain "invalid_grant")

-- One more character at the front of the first part.
abbrev pub begin_part : String → List String → List String
begin_part c [] = c ∷ []
begin_part c (s ∷ ss) = String.◌++◌ c s ∷ ss

-- `header.split(' ')`
unfoldable pub split_spaces : String → List String
split_spaces String.[] = String.[] ∷ []
split_spaces (String.◌∷◌ c s) =
    let rest = split_spaces s in
    if code c == b' ' then String.[] ∷ rest else begin_part (String.◌∷◌ c String.[]) rest

-- The token of `Authorization: Bearer <token>`.
unfoldable pub bearer_of : List String → Option String
bearer_of [] = none
bearer_of (scheme ∷ []) = none
bearer_of (scheme ∷ raw ∷ _) =
    if same_codes (lower scheme) (codes "bearer") && not (raw === "") then some raw else none

-- `request.serviceApp`
pub record ServiceApp : Type 0 where
  pub app_id : ℕ
  pub app_public_id : String

-- The app of the verified claims.
unfoldable pub app_of_claims : Platform → Claims → Result ServiceApp
app_of_claims p claims =
    if not (asks_for p.words (get_or claims.scope "") "roles:write")
    then err (forbidden bare)
    else elim claims.azp [
      | none ↦ err invalid_grant
      | some azp ↦ if azp === "" then err invalid_grant else elim (p.decode_sqid azp) [
        | none ↦ err invalid_grant
        | some i ↦ ok (record { app_id = i; app_public_id = azp })
      ]
    ]

module _ (p : Platform) (verify_jwt : VerifyJwt) (now : ℕ) where
  -- `verifyServiceAccessToken`
  unfoldable pub verify_service_access_token : String → Option Claims
  verify_service_access_token token = elim (verify_jwt p.issuer service_token_audience now token) [
    | none ↦ none
    | some claims ↦ if is_text claims.token_use "service" then some claims else none
  ]

  -- `ServiceTokenGuard.canActivate`, on the `Authorization` header (`''` where it is absent).
  unfoldable pub can_activate : String → Result ServiceApp
  can_activate header = elim (bearer_of (split_spaces header)) [
    | none ↦ err invalid_request
    | some raw ↦ elim (verify_service_access_token raw) [
      | none ↦ err invalid_grant
      | some claims ↦ app_of_claims p claims
    ]
  ]

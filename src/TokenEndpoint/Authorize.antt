-- ===== src/TokenEndpoint/Authorize.antt =====
-- GET /api/token/oauth/authorize: `oauthAuthorize` of
-- apps/auth-server/src/token/token.controller.ts, with derive-auth-methods.ts and
-- oauth-error-redirect.ts. A redirect is modelled by its page and its query parameters, before they
-- are encoded; the session that BetterAuth found, the random code and the clock are arguments.
pub mod Handler
pub mod Stages
pub mod Keys
pub mod Entry
pub mod Issued
pub mod Redirects
pub mod Redeemed
use Prim.Native.String.{len, slice}
use sassy_auth.Common.{
  ℕ, ◌+◌, ◌*◌, String, starts_with, Bool, true, false, not, ◌&&◌, ◌||◌, Option, none, some, List,
  [], ◌∷◌, ⊤, ◌==◌, ◌===◌, ltb, is_some, is_truthy, get_or, if◌then◌else◌, filter, contains, bare,
  plain, Exception, bad_request, unauthorized, forbidden, not_found, conflict, unprocessable,
  prisma_error, api_error, type_error, Message, Result, ok, err, Action, ◌>>=◌, ◌>>◌, pure, throw,
  gets, or_throw, throw_if, try_catch,
}
use sassy_auth.Db.{SaApp, SaUser, SaOrg}
use sassy_auth.Access.{find_user_by_ba_id}
use sassy_auth.OauthCode
use sassy_auth.OauthCode.{s256, generate_code}
use sassy_auth.Platform.{Platform}
use sassy_auth.Queries.{find_org_by_id}
use sassy_auth.SignIn.{is_active, is_two_factor_required}
use sassy_auth.TokenEndpoint.{find_client, require_redirect, no_such_user, join_words}
use sassy_auth.TokenService.{parse_scopes, truthy_claim}
use sassy_auth.World.{World, on_codes}

-- The parameters of the query string.
pub record AuthorizeRequest : Type 0 where
  pub client_id : String
  pub redirect_uri : String
  pub code_challenge : Option String
  pub code_challenge_method : Option String
  pub state : String
  pub scope : String
  pub nonce : String
  pub prompt : String
  pub max_age : String

-- The session of the request's cookies, with the columns of its user that the handler reads.
pub record AuthSession : Type 0 where
  pub user_id : String
  pub two_factor_enabled : Bool
  pub sign_in_method : Option String
  pub created_at : Option ℕ

-- A finite number, as a fraction: the numerator, and a positive denominator.
pub data Number : Type 0 where
  plus minus : ℕ → ℕ → Number

-- What the handler finds besides the tables. `number` is `Number(max_age)`, `none` where that is
-- not finite.
pub record Visit : Type 0 where
  pub session : Option AuthSession
  pub admin_url : Option String
  pub number : String → Option Number
  pub new_code : String
  pub now : ℕ

abbrev pub Params : Type 0
Params = List (String × String)

-- Where the browser is sent: back to the client, or to a page of the admin console.
pub data Redirect : Type 0 where
  to_client : String → Params → Redirect
  to_login to_enrollment : String → Params → Redirect
  to_error_page : String → Params → Redirect

abbrev pub user_org_mismatch : Exception
user_org_mismatch = forbidden (plain "USER_ORG_MISMATCH")

abbrev pub invalid_request : Exception
invalid_request = bad_request (plain "invalid_request")

-- `deriveAuthMethods`: `amr`, and `idp`.
unfoldable pub derive_auth_methods : Option String → Bool → List String × Option String
derive_auth_methods method two_factor =
    let second = if two_factor then "otp" ∷ "mfa" ∷ [] else [] in
    let given = get_or method "" in
    if starts_with given "ext:"
    then ("ext" ∷ second, some (slice given 4 (len given)))
    else ("pwd" ∷ second, none)

abbrev pub known_codes : List String
known_codes =
    "USER_ORG_MISMATCH" ∷ "APP_NOT_FOUND" ∷ "USER_NOT_FOUND" ∷ "INVALID_CREDENTIALS"
    ∷ "invalid_request" ∷ "invalid_redirect_uri" ∷ "invalid_grant" ∷ "invalid_client"
    ∷ "unauthorized_client" ∷ "TWO_FACTOR_REQUIRED" ∷ []

unfoldable pub known_code : Message → Option String
known_code (plain m) = if contains known_codes m then some m else none
known_code _ = none

-- `extractTokenErrorCode`
unfoldable pub extract_token_error_code : Exception → Option String
extract_token_error_code (bad_request m) = known_code m
extract_token_error_code (forbidden m) = known_code m
extract_token_error_code (not_found m) = known_code m
extract_token_error_code (conflict m) = known_code m
extract_token_error_code (unprocessable m) = known_code m
extract_token_error_code (unauthorized m) = none
extract_token_error_code (prisma_error c) = none
extract_token_error_code (api_error s c) = none
extract_token_error_code type_error = none

-- `(now - at) / 1000 > seconds`, written out with sums.
unfoldable pub is_older : ℕ → ℕ → Number → Bool
is_older at now (plus n d) = ltb (at * d + n * 1000) (now * d)
is_older at now (minus n d) = ltb (at * d) (now * d + n * 1000)

-- The entry of a parameter that is set where it is not empty.
abbrev pub unless_empty : String → String → Params
unless_empty key value = if value === "" then [] else (key, value) ∷ []

abbrev pub concat_params : Params → Params → Params
concat_params [] qs = qs
concat_params (p ∷ ps) qs = p ∷ concat_params ps qs

module _ (p : Platform) (q : AuthorizeRequest) where
  -- `isConfidential`, and the check of the challenge.
  unfoldable pub check_pkce : SaApp → Action World ⊤
  check_pkce app =
      throw_if
        (if is_truthy q.code_challenge
          then not (get_or q.code_challenge_method "" === "S256")
          else not (is_some app.client_secret_hash))
        invalid_request

  -- The client, up to `redirectUriValidated = true`.
  unfoldable pub resolve_client : Action World SaApp
  resolve_client = do
    app ← find_client p q.client_id
    check_pkce app
    require_redirect p q.redirect_uri app
    pure app

  -- `new URL(redirectUri)` with the parameters that are set on it, and `state`.
  unfoldable pub client_redirect : Params → Action World Redirect
  client_redirect params = do
    url ← or_throw (p.parse_url q.redirect_uri) type_error
    pure (to_client q.redirect_uri (concat_params params (unless_empty "state" q.state)))

  -- `buildClientErrorRedirectUrl`
  unfoldable pub client_error : String → String → Action World Redirect
  client_error error description =
      client_redirect (("error", error) ∷ ("error_description", description) ∷ [])

  -- `promptValues.has(v)`
  abbrev pub prompts : String → Bool
  prompts v = contains (filter (λ w. not (w === "")) (p.words q.prompt)) v

  -- `staleForMaxAge`: a session without its time of creation is infinitely old.
  unfoldable pub is_stale : Visit → AuthSession → Bool
  is_stale v s = if q.max_age === "" then false else elim (v.number q.max_age) [
    | none ↦ false
    | some seconds ↦ elim s.created_at [ none ↦ true | some at ↦ is_older at v.now seconds ]
  ]

  -- The session that the flow goes on with: `mustReauthenticate` is false.
  unfoldable pub usable_session : Visit → Option AuthSession
  usable_session v = elim v.session [
    | none ↦ none
    | some s ↦ if prompts "login" || is_stale v s then none else some s
  ]

-- ===== src/TokenEndpoint.antt =====
-- POST /api/token/oauth/token: `oauthToken`, `refreshTokenGrant` and `handleClientCredentials` of
-- apps/auth-server/src/token/token.controller.ts, and `verifyClientSecret` of client-auth.ts. A
-- request is modelled behind its validation, one record for each grant type; `secret` is what
-- `extractClientSecret` answers. The random values and the clock are arguments; logging is left
-- out, and a refused request's WWW-Authenticate header too.
pub mod Clients
pub mod CodeGrant
pub mod RefreshGrant
pub mod ServiceGrant
pub mod DirectLogin
pub mod LoginChecks
pub mod Authorize
pub mod Logout
use Prim.Native.String
use sassy_auth.Common.{
  ℕ, String, Bool, true, false, not, ◌&&◌, ◌||◌, Option, none, some, List, [], ◌∷◌, ⊤, ◌===◌,
  is_truthy, get_or, if◌then◌else◌, contains, bare, plain, Exception, bad_request, unauthorized,
  forbidden, not_found, Result, ok, err, Action, ◌>>=◌, ◌>>◌, pure, gets, or_throw, throw_if,
}
use sassy_auth.Db.{SaApp, SaUser, SaOrg, UserStatus, active, pending, inactive, unverified, Db}
use sassy_auth.World.{World, on_db, on_codes, on_refresh}
use sassy_auth.RedirectUri.{assert_redirect_uri_allowed}
use sassy_auth.OauthCode
use sassy_auth.OauthCode.{Exchanged, exchange_code}
use sassy_auth.RefreshToken
use sassy_auth.RefreshToken.{IssueRefreshTokenParams, RotatedRefreshToken, issue, rotate}
use sassy_auth.Queries.{find_app_by_id, find_org_by_id, find_user}
use sassy_auth.Platform.{Platform, ServicePayload}
use sassy_auth.TokenService.{
  IssueJwtParams, IssueIdTokenParams, issue_jwt, issue_id_token, service_payload, truthy_claim,
  parse_service_scopes, service_token_ttl_seconds,
}

abbrev pub no_such_app : Exception
no_such_app = not_found (plain "APP_NOT_FOUND")

abbrev pub invalid_client : Exception
invalid_client = unauthorized (plain "invalid_client")

abbrev pub no_such_user : Exception
no_such_user = forbidden (plain "USER_NOT_FOUND")

-- `verifyClientSecret`: the presented secret and the stored hash.
unfoldable pub verify_client_secret : Platform → Option String → Option String → Bool
verify_client_secret p none hash = false
verify_client_secret p (some secret) none = false
verify_client_secret p (some secret) (some hash) =
    if secret === "" || hash === "" then false else p.verify_password secret hash

-- `client_id` and the client's secret, as every grant presents them.
pub record Client : Type 0 where
  pub client_id : String
  pub secret : Option String

pub record CodeRequest : Type 0 where
  pub client : Client
  pub code : String
  pub redirect_uri : String
  pub code_verifier : Option String

pub record RefreshRequest : Type 0 where
  pub client : Client
  pub refresh_token : String

pub record ServiceRequest : Type 0 where
  pub client : Client
  pub scope : Option String

pub record TokenResponse : Type 0 where
  pub access_token : String
  pub token_type : String
  pub expires_in : ℕ
  pub scope : String
  pub id_token : Option String
  pub refresh_token : Option String

-- The values of `randomBytes` for a new refresh token and its family.
pub record Randoms : Type 0 where
  pub token : String
  pub family : String

-- The answer of a status check on the user of a code: a code that a signup issued may be redeemed
-- before the user is active.
unfoldable pub may_redeem : Bool → UserStatus → Bool
may_redeem true inactive = false
may_redeem true _ = true
may_redeem false active = true
may_redeem false _ = false

abbrev pub space : String
space = " "

-- `granted.join(' ')`
unfoldable pub join_words : List String → String
join_words [] = ""
join_words (w ∷ []) = w
join_words (w ∷ ws) = String.◌++◌ w (String.◌++◌ space (join_words ws))

module _ (p : Platform) where
  abbrev pub authenticates : Client → SaApp → Bool
  authenticates c app = verify_client_secret p c.secret app.client_secret_hash

  -- The app of a `client_id`.
  unfoldable pub find_client : String → Action World SaApp
  find_client client_id = do
    i ← or_throw (p.decode_sqid client_id) (bad_request (plain "APP_NOT_FOUND"))
    or_throw (← gets (λ w. find_app_by_id i w.db)) no_such_app

  -- A confidential app has to present its secret.
  abbrev pub require_secret : Client → SaApp → Action World ⊤
  require_secret c app =
      throw_if (is_truthy app.client_secret_hash && not (authenticates c app)) invalid_client

  abbrev pub require_redirect : String → SaApp → Action World ⊤
  require_redirect uri app w = (assert_redirect_uri_allowed p.parse_url uri app.redirects, w)

  -- `idToken`, where the scope has `openid`.
  unfoldable pub id_token_for : IssueIdTokenParams → ℕ → Action Db (Option String)
  id_token_for params now =
      if contains (p.words params.scope) "openid"
      then (do pure (some (← issue_id_token p params now)))
      else pure none

  -- `refreshToken`, where the scope has `offline_access`.
  unfoldable pub refresh_token_for :
      IssueRefreshTokenParams → Randoms → ℕ → Action RefreshToken.Table (Option String)
  refresh_token_for params rnd now =
      if contains (p.words params.scope) "offline_access"
      then (do pure (some (← issue p.json p.hash_token params rnd.token rnd.family now)))
      else pure none

  abbrev pub jwt_of_code : SaApp → SaUser → SaOrg → Exchanged → IssueJwtParams
  jwt_of_code app user org x = record {
    sa_user_id = user.id;
    user_public_id = user.public_id;
    org_public_id = org.public_id;
    app_public_id = x.app_public_id;
    app_id = app.id;
    scope = x.scope;
    amr = x.amr;
    idp = x.idp;
  }

  -- The answer to an authorization code: tokens for its user.
  unfoldable pub tokens_of_code :
      SaApp → SaUser → SaOrg → Exchanged → Randoms → ℕ → Action World TokenResponse
  tokens_of_code app user org x rnd now = do
    token ← on_db (issue_jwt p (jwt_of_code app user org x) now)
    id_token ← on_db (
        id_token_for
          (record {
            sa_user_id = user.id;
            user_public_id = user.public_id;
            org_public_id = org.public_id;
            app_public_id = x.app_public_id;
            scope = x.scope;
            nonce = x.nonce;
            auth_time = x.auth_time;
            amr = x.amr;
            access_token = token;
          })
          now)
    refresh_token ← on_refresh (
        refresh_token_for
          (record {
            sa_user_id = user.id;
            user_public_id = user.public_id;
            org_public_id = org.public_id;
            app_id = app.id;
            app_public_id = x.app_public_id;
            scope = x.scope;
            amr = x.amr;
            idp = x.idp;
            auth_time = x.auth_time;
          })
          rnd now)
    pure (record {
      access_token = token;
      token_type = "Bearer";
      expires_in = 3600;
      scope = x.scope;
      id_token = truthy_claim id_token;
      refresh_token = truthy_claim refresh_token;
    })

  -- The user of the code; the foreign key makes the organisation `some`.
  unfoldable pub redeem : SaApp → Exchanged → Randoms → ℕ → Action World TokenResponse
  redeem app x rnd now = do
    user ← or_throw (← gets (λ w. find_user x.user_id w.db)) no_such_user
    org ← or_throw (← gets (λ w. find_org_by_id user.org_id w.db)) no_such_user
    throw_if (not (may_redeem (contains x.amr "signup") user.status)) no_such_user
    tokens_of_code app user org x rnd now

  -- `oauthToken`, for grant_type=authorization_code: behind the lookup of the app, and whole.
  unfoldable pub code_grant_for : CodeRequest → Randoms → ℕ → SaApp → Action World TokenResponse
  code_grant_for g rnd now app = do
    require_redirect g.redirect_uri app
    require_secret g.client app
    x ← on_codes (
        exchange_code p.json p.s256_of g.code g.client.client_id g.redirect_uri g.code_verifier now)
    throw_if (not x.had_challenge && not (authenticates g.client app)) invalid_client
    redeem app x rnd now

  unfoldable pub code_grant : CodeRequest → Randoms → ℕ → Action World TokenResponse
  code_grant g rnd now = do app ← find_client g.client.client_id; code_grant_for g rnd now app

  abbrev pub jwt_of_rotated : RotatedRefreshToken → IssueJwtParams
  jwt_of_rotated r = record {
    sa_user_id = r.sa_user_id;
    user_public_id = r.user_public_id;
    org_public_id = r.org_public_id;
    app_public_id = r.app_public_id;
    app_id = r.app_id;
    scope = r.scope;
    amr = r.amr;
    idp = r.idp;
  }

  -- The answer to a refresh token that was rotated.
  unfoldable pub tokens_of_rotated : RotatedRefreshToken → ℕ → Action World TokenResponse
  tokens_of_rotated r now = do
    user ← or_throw (← gets (λ w. find_user r.user_public_id w.db)) no_such_user
    throw_if (not (may_redeem false user.status)) no_such_user
    token ← on_db (issue_jwt p (jwt_of_rotated r) now)
    id_token ← on_db (
        id_token_for
          (record {
            sa_user_id = r.sa_user_id;
            user_public_id = r.user_public_id;
            org_public_id = r.org_public_id;
            app_public_id = r.app_public_id;
            scope = r.scope;
            nonce = none;
            auth_time = r.auth_time;
            amr = r.amr;
            access_token = token;
          })
          now)
    pure (record {
      access_token = token;
      token_type = "Bearer";
      expires_in = 3600;
      scope = r.scope;
      id_token = truthy_claim id_token;
      refresh_token = some r.token;
    })

  -- `refreshTokenGrant`: behind the lookup of the app, and whole.
  unfoldable pub refresh_grant_for :
      RefreshRequest → String → ℕ → SaApp → Action World TokenResponse
  refresh_grant_for g new_token now app = do
    require_secret g.client app
    r ← on_refresh (rotate p.json p.hash_token g.refresh_token g.client.client_id new_token now)
    tokens_of_rotated r now

  unfoldable pub refresh_grant : RefreshRequest → String → ℕ → Action World TokenResponse
  refresh_grant g new_token now = do
    app ← find_client g.client.client_id
    refresh_grant_for g new_token now app

  -- The scopes that a service token carries.
  unfoldable pub service_scopes : SaApp → Option String → List String
  service_scopes app requested =
      if app.can_manage_own_roles then parse_service_scopes p.words requested else []

  -- `handleClientCredentials`
  unfoldable pub service_grant : ServiceRequest → ℕ → Action World TokenResponse
  service_grant g now = do
    app ← find_client g.client.client_id
    throw_if (not (is_truthy app.client_secret_hash)) invalid_client
    throw_if (not (authenticates g.client app)) invalid_client
    let scope = join_words (service_scopes app g.scope)
    pure (record {
      access_token = p.sign_service (service_payload p app.public_id scope now);
      token_type = "Bearer";
      expires_in = service_token_ttl_seconds;
      scope = scope;
      id_token = none;
      refresh_token = none;
    })

-- ===== src/TokenService.antt =====
-- apps/auth-server/src/token/token.service.ts: the tokens that are signed; scopes.ts and
-- service-scopes.ts of the same folder. The clock is an argument, in milliseconds; telemetry is
-- left out.
pub mod Scopes
use Prim.Native.String
use sassy_auth.Common.{
  ℕ, ◌+◌, ◌/◌, String, Bool, true, false, not, ◌&&◌, Option, none, some, List, [], ◌∷◌, ◌==◌, ◌===◌,
  if◌then◌else◌, find?, filter, contains, is_truthy, Action, ◌>>=◌, pure, gets, or_throw, ⊤,
}
use sassy_auth.Db.{SaUser, BaUser, Db}
use sassy_auth.TokenClaims.{find_user_by_id, resolve_permissions, resolve_roles, user_not_found}
use sassy_auth.Platform.{
  Platform, AccessPayload, IdPayload, ServicePayload, ScopedClaims, ProfileClaims, EmailClaims,
}

abbrev pub token_ttl_seconds : ℕ
token_ttl_seconds = 3600

abbrev pub service_token_ttl_seconds : ℕ
service_token_ttl_seconds = 300

abbrev pub service_token_audience : String
service_token_audience = "sassy-auth-management-api"

pub record IssueJwtParams : Type 0 where
  pub sa_user_id : ℕ
  pub user_public_id : String
  pub org_public_id : String
  pub app_public_id : String
  pub app_id : ℕ
  pub scope : String
  pub amr : List String
  pub idp : Option String

pub record IssueIdTokenParams : Type 0 where
  pub sa_user_id : ℕ
  pub user_public_id : String
  pub org_public_id : String
  pub app_public_id : String
  pub scope : String
  pub nonce : Option String
  pub auth_time : ℕ
  pub amr : List String
  pub access_token : String

-- `...(params.amr && params.amr.length ? { amr: params.amr } : {})`
abbrev pub amr_claim : List String → Option (List String)
amr_claim [] = none
amr_claim (m ∷ ms) = some (m ∷ ms)

-- `...(s ? { … } : {})`
abbrev pub truthy_claim : Option String → Option String
truthy_claim s = if is_truthy s then s else none

-- `new Set(scope.split(/\s+/).filter(Boolean)).has(s)`
unfoldable pub asks_for : (String → List String) → String → String → Bool
asks_for words scope s = contains (filter (λ w. not (w === "")) (words scope)) s

-- `SUPPORTED_SCOPES`
abbrev pub supported_scopes : List String
supported_scopes = "openid" ∷ "profile" ∷ "email" ∷ "offline_access" ∷ []

-- `parseScopes`
unfoldable pub parse_scopes : (String → List String) → Option String → List String
parse_scopes words none = []
parse_scopes words (some requested) =
    if requested === "" then [] else filter (asks_for words requested) supported_scopes

-- `parseServiceScopes`
unfoldable pub parse_service_scopes : (String → List String) → Option String → List String
parse_service_scopes words none = []
parse_service_scopes words (some requested) =
    if requested === "" then [] else filter (asks_for words requested) ("roles:write" ∷ [])

unfoldable pub find_ba_user : String → Db → Option BaUser
find_ba_user i db = find? (λ u. u.id === i) db.ba_users

module _ (p : Platform) where
  unfoldable pub access_payload : IssueJwtParams → ℕ → List String → List String → AccessPayload
  access_payload params now permissions roles = record {
    sub = params.user_public_id;
    aud = params.app_public_id;
    org = params.org_public_id;
    iss = p.issuer;
    iat = now / 1000;
    exp = now / 1000 + token_ttl_seconds;
    scope = params.scope;
    permissions = permissions;
    roles = roles;
    amr = amr_claim params.amr;
    idp = truthy_claim params.idp;
  }

  -- `issueJwt`
  unfoldable pub issue_jwt : IssueJwtParams → ℕ → Action Db String
  issue_jwt params now = do
    permissions ← resolve_permissions p.sorting params.sa_user_id params.app_id
    roles ← resolve_roles p.sorting params.sa_user_id params.app_id
    pure (p.sign_access (access_payload params now permissions roles))

  abbrev pub profile_claims : SaUser → ProfileClaims
  profile_claims u = record {
    name = p.trim (String.◌++◌ u.first_name (String.◌++◌ " " u.last_name));
    given_name = u.first_name;
    family_name = u.last_name;
  }

  abbrev pub email_claims : BaUser → EmailClaims
  email_claims b = record { email = b.email; email_verified = b.email_verified }

  -- `buildScopedClaims`; the foreign key makes the row of BetterAuth `some`.
  unfoldable pub build_scoped_claims : ℕ → String → Action Db ScopedClaims
  build_scoped_claims sa_user_id scope =
      let profile = asks_for p.words scope "profile" in
      let email = asks_for p.words scope "email" in
      if not profile && not email then pure (record { profile = none; email = none }) else do
        user ← or_throw (← gets (find_user_by_id sa_user_id)) user_not_found
        ba ← or_throw (← gets (find_ba_user user.better_auth_user_id)) user_not_found
        pure (record {
          profile = if profile then some (profile_claims user) else none;
          email = if email then some (email_claims ba) else none;
        })

  unfoldable pub id_payload : IssueIdTokenParams → ℕ → ScopedClaims → IdPayload
  id_payload params now scoped = record {
    sub = params.user_public_id;
    aud = params.app_public_id;
    iss = p.issuer;
    iat = now / 1000;
    exp = now / 1000 + 3600;
    auth_time = params.auth_time / 1000;
    amr = params.amr;
    at_hash = p.at_hash params.access_token;
    org = params.org_public_id;
    nonce = truthy_claim params.nonce;
    scoped = scoped;
  }

  -- `issueIdToken`
  unfoldable pub issue_id_token : IssueIdTokenParams → ℕ → Action Db String
  issue_id_token params now = do
    scoped ← build_scoped_claims params.sa_user_id params.scope
    pure (p.sign_id (id_payload params now scoped))

  -- The payload that `issueServiceJwt` signs.
  unfoldable pub service_payload : String → String → ℕ → ServicePayload
  service_payload app_public_id scope now = record {
    azp = app_public_id;
    aud = service_token_audience;
    iss = p.issuer;
    iat = now / 1000;
    exp = now / 1000 + service_token_ttl_seconds;
    scope = scope;
    token_use = "service";
  }

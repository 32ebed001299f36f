-- ===== src/Platform.antt =====
-- What the token code takes from node, its libraries and the environment: an interface with no
-- law. A function that can throw is `none` or `false` there.
use sassy_auth.Common.{ℕ, String, Bool, Option, List}
use sassy_auth.Json.{JsonText}
use sassy_auth.RedirectUri.{Url}
use sassy_auth.TokenClaims.{Sorting}

-- The payload of an access token. `amr` and `idp` are left out where they are `none`.
pub record AccessPayload : Type 0 where
  pub sub : String
  pub aud : String
  pub org : String
  pub iss : String
  pub iat : ℕ
  pub exp : ℕ
  pub scope : String
  pub permissions : List String
  pub roles : List String
  pub amr : Option (List String)
  pub idp : Option String

pub record ProfileClaims : Type 0 where
  pub name : String
  pub given_name : String
  pub family_name : String

pub record EmailClaims : Type 0 where
  pub email : String
  pub email_verified : Bool

-- The claims that the scopes `profile` and `email` add.
pub record ScopedClaims : Type 0 where
  pub profile : Option ProfileClaims
  pub email : Option EmailClaims

pub record IdPayload : Type 0 where
  pub sub : String
  pub aud : String
  pub iss : String
  pub iat : ℕ
  pub exp : ℕ
  pub auth_time : ℕ
  pub amr : List String
  pub at_hash : String
  pub org : String
  pub nonce : Option String
  pub scoped : ScopedClaims

pub record ServicePayload : Type 0 where
  pub azp : String
  pub aud : String
  pub iss : String
  pub iat : ℕ
  pub exp : ℕ
  pub scope : String
  pub token_use : String

pub record Platform : Type 0 where
  pub json : JsonText
  pub sorting : Sorting
  pub parse_url : String → Option Url
  -- `SqidService.decode`
  pub decode_sqid : String → Option ℕ
  -- `s.split(/\s+/)`
  pub words : String → List String
  -- `s.trim()`
  pub trim : String → String
  -- `verifyPassword` of BetterAuth: the plain text, then the hash
  pub verify_password : String → String → Bool
  -- `symmetricDecrypt` and the library's TOTP check: the encrypted secret, the code, the clock
  pub totp_valid : String → String → ℕ → Bool
  -- `isPlatformTwoFactorRequired()`
  pub platform_requires_two_factor : Bool
  pub hash_token : String → String
  pub s256_of : String → String
  pub at_hash : String → String
  -- `jwt.sign` with the server's key
  pub sign_access : AccessPayload → String
  pub sign_id : IdPayload → String
  pub sign_service : ServicePayload → String
  -- `resolveIssuer()`
  pub issuer : String

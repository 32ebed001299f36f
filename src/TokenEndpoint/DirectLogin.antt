-- ===== src/TokenEndpoint/DirectLogin.antt =====
-- POST /api/token/direct/login: `directLoginInner` of
-- apps/auth-server/src/token/token.controller.ts, `verifyUserTotp` of auth/verify-user-totp.ts and
-- `detectIdentifierType` of packages/types/index.ts. The password work that only evens out response
-- times is left out; the write of the login's time, which the code starts and does not wait for,
-- is made where it starts.
use sassy_auth.Common.{
  ℕ, String, Bool, false, not, ◌&&◌, ◌||◌, Option, none, some, List, [], ◌∷◌, ◌==◌, ◌===◌, leb,
  is_text, if◌then◌else◌, any, all, find?, codes, length, update_where, plain, Exception,
  unauthorized, forbidden, Action, ◌>>=◌, ◌>>◌, pure, gets, modify, or_throw, throw_if,
  contains_number,
}
use sassy_auth.Db.{SaApp, SaUser, SaOrg, Account, Db}
use sassy_auth.SignIn.{is_active, is_two_factor_required}
use sassy_auth.Queries.{find_app_by_id, find_org_by_id}
use sassy_auth.RefreshToken.{issue, IssueRefreshTokenParams}
use sassy_auth.Platform.{Platform}
use sassy_auth.TokenService.{IssueJwtParams, issue_jwt, find_ba_user}
use sassy_auth.World.{World, on_db, on_refresh}
use sassy_auth.TokenEndpoint.{Randoms, no_such_app}

pub record LoginRequest : Type 0 where
  pub identifier : String
  pub password : String
  pub app_id : String
  pub totp_code : Option String

pub record LoginResponse : Type 0 where
  pub access_token : String
  pub token_type : String
  pub expires_in : ℕ
  pub refresh_token : String

abbrev pub invalid_credentials : Exception
invalid_credentials = unauthorized (plain "INVALID_CREDENTIALS")

abbrev pub two_factor_required : Exception
two_factor_required = forbidden (plain "TWO_FACTOR_REQUIRED")

pub data IdentifierType : Type 0 where
  email phone username : IdentifierType

-- The white space of a regular expression.
abbrev pub is_space : ℕ → Bool
is_space c =
    leb 9 c && leb c 13
    || leb 8192 c && leb c 8202
    || contains_number (32 ∷ 160 ∷ 5760 ∷ 8232 ∷ 8233 ∷ 8239 ∷ 8287 ∷ 12288 ∷ 65279 ∷ []) c

-- `[\d\s\-().]`
abbrev pub is_phone_code : ℕ → Bool
is_phone_code c =
    leb b'0' c && leb c b'9' || is_space c || c == b'-' || c == b'(' || c == b')' || c == b'.'

-- `/^\+?[\d\s\-().]{7,}$/`
unfoldable pub is_phone : List ℕ → Bool
is_phone [] = false
is_phone (c ∷ cs) =
    if c == b'+'
    then all is_phone_code cs && leb 7 (length cs)
    else all is_phone_code (c ∷ cs) && leb 6 (length cs)

-- `detectIdentifierType`
unfoldable pub detect_identifier_type : String → IdentifierType
detect_identifier_type identifier =
    if any (λ c. c == b'@') (codes identifier)
    then email
    else if is_phone (codes identifier)
    then phone
    else username

-- `betterAuthUser: { email }`, on the id of a user of BetterAuth
abbrev pub has_email : Db → String → String → Bool
has_email db ba e = any (λ b. b.id === ba && b.email === e) db.ba_users

-- The user of an identifier.
unfoldable pub find_identified : IdentifierType → String → Db → Option SaUser
find_identified email identifier db =
    find? (λ u. has_email db u.better_auth_user_id identifier) db.users
find_identified username identifier db = find? (λ u. is_text u.username identifier) db.users
find_identified phone identifier db = find? (λ u. is_text u.phone_number identifier) db.users

-- `betterAuthEmail`; the foreign key makes the user of BetterAuth `some`.
unfoldable pub login_email : IdentifierType → String → SaUser → Db → Option String
login_email email identifier user db = some identifier
login_email _ identifier user db = elim (find_ba_user user.better_auth_user_id db) [
  | none ↦ none
  | some b ↦ some b.email
]

-- `account.findFirst({ where: { user: { email }, providerId: 'credential' } })`
unfoldable pub credential_account : String → Db → Option Account
credential_account e db =
    find? (λ a. a.provider_id === "credential" && has_email db a.user_id e) db.accounts

-- The password's hash, where the account has one.
unfoldable pub stored_password : IdentifierType → String → SaUser → Db → Option String
stored_password type identifier user db = elim (login_email type identifier user db) [
  | none ↦ none
  | some e ↦ elim (credential_account e db) [ none ↦ none | some a ↦ a.password ]
]

-- `twoFactorEnabled`
unfoldable pub is_enrolled : String → Db → Bool
is_enrolled ba db = elim (find_ba_user ba db) [ none ↦ false | some b ↦ b.two_factor_enabled ]

-- Who logs in, where, and by which methods.
pub record Login : Type 0 where
  pub app : SaApp
  pub user : SaUser
  pub org : SaOrg
  pub amr : List String

-- `saUser.update({ data: { lastLoginAt } })`
abbrev pub record_login : ℕ → ℕ → World → World
record_login user now w = record w {
  db = record w.db {
    users =
        update_where (λ u. u.id == user) (λ u. record u { last_login_at = some now }) w.db.users;
  };
}

module _ (p : Platform) where
  -- The password, against the stored hash; an account without one never matches.
  unfoldable pub password_matches : LoginRequest → SaUser → Db → Bool
  password_matches g user db =
      elim (stored_password (detect_identifier_type g.identifier) g.identifier user db) [
        | none ↦ false
        | some hash ↦ if hash === "" then false else p.verify_password g.password hash
      ]

  -- `verifyUserTotp`
  unfoldable pub verify_user_totp : String → String → ℕ → Db → Bool
  verify_user_totp ba given now db = elim (find? (λ t. t.user_id === ba) db.two_factors) [
    | none ↦ false
    | some t ↦ p.totp_valid t.secret given now
  ]

  -- `dto.totpCode && verifyUserTotp(…)`
  unfoldable pub code_matches : LoginRequest → SaUser → ℕ → Db → Bool
  code_matches g user now db = elim g.totp_code [
    | none ↦ false
    | some given ↦
        if given === "" then false else verify_user_totp user.better_auth_user_id given now db
  ]

  abbrev pub requires_two_factor : SaApp → Bool
  requires_two_factor app =
      is_two_factor_required p.platform_requires_two_factor app.require_two_factor app.is_platform

  -- The second factor: the methods that the tokens name.
  unfoldable pub second_factor : LoginRequest → SaApp → SaUser → ℕ → Action World (List String)
  second_factor g app user now = do
    enrolled ← gets (λ w. is_enrolled user.better_auth_user_id w.db)
    matches ← gets (λ w. code_matches g user now w.db)
    if requires_two_factor app || enrolled
        then (do
          throw_if (not enrolled) two_factor_required
          throw_if (not matches) two_factor_required
          pure ("pwd" ∷ "otp" ∷ "mfa" ∷ []))
        else pure ("pwd" ∷ [])

  -- `sqidService.decode` and the lookup of the app
  unfoldable pub find_login_app : String → Action World SaApp
  find_login_app app_id = do
    i ← or_throw (p.decode_sqid app_id) no_such_app
    or_throw (← gets (λ w. find_app_by_id i w.db)) no_such_app

  -- The user of the identifier, whose password the request presents.
  unfoldable pub check_password : LoginRequest → Action World SaUser
  check_password g = do
    user ←
        or_throw
          (← gets (λ w. find_identified (detect_identifier_type g.identifier) g.identifier w.db))
          invalid_credentials
    throw_if (not (← gets (λ w. password_matches g user w.db))) invalid_credentials
    pure user

  -- The checks behind the password; the foreign key makes the organisation `some`.
  unfoldable pub check_user : LoginRequest → ℕ → SaApp → SaUser → Action World Login
  check_user g now app user = do
    org ← or_throw (← gets (λ w. find_org_by_id user.org_id w.db)) invalid_credentials
    throw_if (not (org.app_id == app.id)) invalid_credentials
    throw_if (not (is_active user.status)) invalid_credentials
    amr ← second_factor g app user now
    pure (record { app = app; user = user; org = org; amr = amr })

  -- All checks, in the code's order.
  unfoldable pub check_login : LoginRequest → ℕ → SaApp → Action World Login
  check_login g now app = do user ← check_password g; check_user g now app user

  abbrev pub jwt_of_login : Login → IssueJwtParams
  jwt_of_login l = record {
    sa_user_id = l.user.id;
    user_public_id = l.user.public_id;
    org_public_id = l.org.public_id;
    app_public_id = l.app.public_id;
    app_id = l.app.id;
    scope = "";
    amr = l.amr;
    idp = none;
  }

  abbrev pub refresh_of_login : Login → ℕ → IssueRefreshTokenParams
  refresh_of_login l now = record {
    sa_user_id = l.user.id;
    user_public_id = l.user.public_id;
    org_public_id = l.org.public_id;
    app_id = l.app.id;
    app_public_id = l.app.public_id;
    scope = "";
    amr = l.amr;
    idp = none;
    auth_time = now;
  }

  -- The tokens of a login.
  unfoldable pub tokens_of_login : Login → Randoms → ℕ → Action World LoginResponse
  tokens_of_login l rnd now = do
    modify (record_login l.user.id now)
    token ← on_db (issue_jwt p (jwt_of_login l) now)
    refresh_token ←
        on_refresh (issue p.json p.hash_token (refresh_of_login l now) rnd.token rnd.family now)
    pure (record {
      access_token = token;
      token_type = "Bearer";
      expires_in = 3600;
      refresh_token = refresh_token;
    })

  -- `directLogin`: behind the lookup of the app, and whole.
  unfoldable pub direct_login_for : LoginRequest → Randoms → ℕ → SaApp → Action World LoginResponse
  direct_login_for g rnd now app = do l ← check_login g now app; tokens_of_login l rnd now

  unfoldable pub direct_login : LoginRequest → Randoms → ℕ → Action World LoginResponse
  direct_login g rnd now = do app ← find_login_app g.app_id; direct_login_for g rnd now app

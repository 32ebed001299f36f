-- ===== src/Db.antt =====
-- The tables of packages/db/schema.prisma, with the columns that the modelled services read or
-- write. A table is the list of its rows, an instant is a number of milliseconds, and an
-- autoincrement column has its next value beside the tables. A Prisma call is the query that its
-- arguments state; the constraints that can make it throw are those that the schema declares.
use sassy_auth.Common.{ℕ, String, Bool, Option, List}
use sassy_auth.RedirectUri.{RedirectUriApp}
use sassy_auth.PasswordPolicy.{PasswordPolicy}
use sassy_auth.Consent.{ConsentAppUrls, SaUserConsent}

pub data UserStatus : Type 0 where
  active pending inactive unverified : UserStatus

pub data EmailVerificationMethod : Type 0 where
  link code : EmailVerificationMethod

-- The columns of an app that only its pages show.
pub record Appearance : Type 0 where
  pub logo : Option String
  pub favicon : Option String
  pub page_light_background_color : Option String
  pub page_dark_background_color : Option String
  pub card_light_background_color : Option String
  pub card_dark_background_color : Option String

-- `ActivationEmailBranding`
pub record ActivationEmailBranding : Type 0 where
  pub from_name : Option String
  pub from_address : Option String
  pub subject : Option String
  pub message : Option String

-- The columns of an app for the activation of its users.
pub record Activation : Type 0 where
  pub webhook_url : Option String
  pub webhook_secret : Option String
  pub email_override : Option ActivationEmailBranding
  pub email_verification_method : EmailVerificationMethod

pub record SaApp : Type 0 where
  pub id : ℕ
  pub public_id : String
  pub name : String
  pub is_platform : Bool
  pub default_org_id : Option ℕ
  pub default_role_id : Option ℕ
  pub require_two_factor : Bool
  pub allow_offline_access : Bool
  pub can_manage_own_roles : Bool
  pub client_secret_hash : Option String
  pub client_secret_updated_at : Option ℕ
  pub two_factor_trust_days : Option ℕ
  pub two_factor_prompt_enabled : Option Bool
  pub appearance : Appearance
  pub activation : Activation
  pub consent_urls : ConsentAppUrls
  pub password_policy_override : Option PasswordPolicy
  -- The column `url`, and the rows of the relation `redirectUris`.
  pub redirects : RedirectUriApp

pub record SaOrg : Type 0 where
  pub id : ℕ
  pub public_id : String
  pub name : String
  pub app_id : ℕ
  pub is_platform : Bool

pub record SaUser : Type 0 where
  pub id : ℕ
  pub public_id : String
  pub better_auth_user_id : String
  pub org_id : ℕ
  pub first_name : String
  pub last_name : String
  pub marketing_opt_in : Bool
  pub phone_number : Option String
  pub username : Option String
  pub status : UserStatus
  pub last_login_at : Option ℕ

pub record SaRole : Type 0 where
  pub id : ℕ
  pub public_id : String
  pub name : String
  pub app_id : ℕ

pub record SaPermission : Type 0 where
  pub id : ℕ
  pub public_id : String
  pub name : String
  pub app_id : ℕ
  pub is_system : Bool

pub record SaRolePermission : Type 0 where
  pub role_id : ℕ
  pub permission_id : ℕ

pub record SaUserRole : Type 0 where
  pub user_id : ℕ
  pub role_id : ℕ

pub record SaUserPermission : Type 0 where
  pub user_id : ℕ
  pub permission_id : ℕ

-- The table `user` of BetterAuth.
pub record BaUser : Type 0 where
  pub id : String
  pub email : String
  pub email_verified : Bool
  pub two_factor_enabled : Bool

-- The table `account` of BetterAuth.
pub record Account : Type 0 where
  pub user_id : String
  pub provider_id : String
  pub password : Option String

-- The table `twoFactor` of BetterAuth; the secret is encrypted.
pub record TwoFactor : Type 0 where
  pub user_id : String
  pub secret : String

-- The table `session` of BetterAuth.
pub record BaSession : Type 0 where
  pub token : String
  pub user_id : String

pub record SaInvitation : Type 0 where
  pub id : ℕ
  pub public_id : String
  pub token : String
  pub user_id : ℕ
  pub expires_at : ℕ
  pub used_at : Option ℕ

pub record Db : Type 0 where
  pub apps : List SaApp
  pub orgs : List SaOrg
  pub users : List SaUser
  pub roles : List SaRole
  pub permissions : List SaPermission
  pub role_permissions : List SaRolePermission
  pub user_roles : List SaUserRole
  pub user_permissions : List SaUserPermission
  pub ba_users : List BaUser
  pub accounts : List Account
  pub sessions : List BaSession
  pub two_factors : List TwoFactor
  pub invitations : List SaInvitation
  pub consents : List SaUserConsent
  pub next_app_id : ℕ
  pub next_user_id : ℕ
  pub next_org_id : ℕ
  pub next_role_id : ℕ
  pub next_permission_id : ℕ

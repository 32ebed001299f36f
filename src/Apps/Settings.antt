-- ===== src/Apps/Settings.antt =====
-- apps/auth-server/src/apps: the requests that create and update an app, and what they make of its
-- row. The checks of the DTO classes are the framework's. An override is what the DTO's type says,
-- an object or null: other values, of which the falsy ones pass unchecked, are left out.
use sassy_auth.Common.{
  ℕ, String, Bool, false, not, ◌||◌, Option, none, some, List, [], is_some, get_or,
}
use sassy_auth.Consent.{ConsentAppUrls}
use sassy_auth.PasswordPolicy.{PasswordPolicy}
use sassy_auth.Db.{SaApp, Appearance, Activation, ActivationEmailBranding, link}
use sassy_auth.Apps.Validation.{
  RedirectUriDto, PasswordPolicyDto, policy_of, ActivationEmailDto, branding_of, method_of,
}

pub record CreateAppDto : Type 0 where
  pub name : String
  pub url : String
  pub appearance : Appearance
  pub two_factor_trust_days : Option ℕ
  pub two_factor_prompt_enabled : Option Bool
  pub require_two_factor : Option Bool
  pub allow_offline_access : Option Bool
  pub redirect_uris : Option (List RedirectUriDto)

-- An absent field is `none`, and `null` is `some none`.
pub record AppearanceDto : Type 0 where
  pub logo : Option (Option String)
  pub favicon : Option (Option String)
  pub page_light_background_color : Option (Option String)
  pub page_dark_background_color : Option (Option String)
  pub card_light_background_color : Option (Option String)
  pub card_dark_background_color : Option (Option String)

pub record ConsentUrlsDto : Type 0 where
  pub privacy_policy_url : Option (Option String)
  pub terms_url : Option (Option String)
  pub gdpr_url : Option (Option String)

pub record UpdateAppDto : Type 0 where
  pub name : Option String
  pub url : Option String
  pub appearance : AppearanceDto
  pub two_factor_trust_days : Option (Option ℕ)
  pub two_factor_prompt_enabled : Option (Option Bool)
  pub require_two_factor : Option Bool
  pub allow_offline_access : Option Bool
  pub redirect_uris : Option (List RedirectUriDto)
  pub default_org_id : Option (Option String)
  pub default_role_id : Option (Option String)
  pub password_policy_override : Option (Option PasswordPolicyDto)
  pub activation_webhook_url : Option (Option String)
  pub consent_urls : ConsentUrlsDto
  pub activation_email_override : Option (Option ActivationEmailDto)
  pub email_verification_method : Option String

-- The first test of `updateApp`: no field is given.
unfoldable pub names_nothing : UpdateAppDto → Bool
names_nothing dto = not (
    is_some dto.name
    || is_some dto.url
    || is_some dto.appearance.logo
    || is_some dto.appearance.favicon
    || is_some dto.appearance.page_light_background_color
    || is_some dto.appearance.page_dark_background_color
    || is_some dto.appearance.card_light_background_color
    || is_some dto.appearance.card_dark_background_color
    || is_some dto.two_factor_trust_days
    || is_some dto.two_factor_prompt_enabled
    || is_some dto.require_two_factor
    || is_some dto.allow_offline_access
    || is_some dto.redirect_uris
    || is_some dto.default_org_id
    || is_some dto.default_role_id
    || is_some dto.password_policy_override
    || is_some dto.activation_webhook_url
    || is_some dto.consent_urls.privacy_policy_url
    || is_some dto.consent_urls.terms_url
    || is_some dto.consent_urls.gdpr_url
    || is_some dto.activation_email_override
    || is_some dto.email_verification_method)

-- The spread of the given columns of the pages over a row.
unfoldable pub set_appearance : AppearanceDto → Appearance → Appearance
set_appearance dto a = record {
  logo = get_or dto.logo a.logo;
  favicon = get_or dto.favicon a.favicon;
  page_light_background_color =
      get_or dto.page_light_background_color a.page_light_background_color;
  page_dark_background_color = get_or dto.page_dark_background_color a.page_dark_background_color;
  card_light_background_color =
      get_or dto.card_light_background_color a.card_light_background_color;
  card_dark_background_color = get_or dto.card_dark_background_color a.card_dark_background_color;
}

-- `...(dto.activationWebhookUrl === null && { activationWebhookSecret: null })`
unfoldable pub webhook_secret_after : Option (Option String) → Option String → Option String
webhook_secret_after (some none) secret = none
webhook_secret_after _ secret = secret

unfoldable pub email_override_after :
    Option (Option ActivationEmailDto)
    → Option ActivationEmailBranding
    → Option ActivationEmailBranding
email_override_after none o = o
email_override_after (some none) o = none
email_override_after (some (some dto)) o = some (branding_of dto)

unfoldable pub set_activation : UpdateAppDto → Activation → Activation
set_activation dto a = record {
  webhook_url = get_or dto.activation_webhook_url a.webhook_url;
  webhook_secret = webhook_secret_after dto.activation_webhook_url a.webhook_secret;
  email_override = email_override_after dto.activation_email_override a.email_override;
  email_verification_method = elim dto.email_verification_method [
    | none ↦ a.email_verification_method
    | some m ↦ method_of m
  ];
}

unfoldable pub set_consent_urls : ConsentUrlsDto → ConsentAppUrls → ConsentAppUrls
set_consent_urls dto u = record {
  privacy_policy_url = get_or dto.privacy_policy_url u.privacy_policy_url;
  terms_url = get_or dto.terms_url u.terms_url;
  gdpr_url = get_or dto.gdpr_url u.gdpr_url;
}

unfoldable pub set_password_policy :
    Option (Option PasswordPolicyDto) → Option PasswordPolicy → Option PasswordPolicy
set_password_policy none p = p
set_password_policy (some none) p = none
set_password_policy (some (some dto)) p = some (policy_of dto)

-- The `data` of `tx.saApp.update` on a row.
unfoldable pub updated_app : UpdateAppDto → Option (Option ℕ) → Option (Option ℕ) → SaApp → SaApp
updated_app dto org role a = record a {
  name = get_or dto.name a.name;
  redirects = record a.redirects { url = get_or dto.url a.redirects.url };
  appearance = set_appearance dto.appearance a.appearance;
  two_factor_trust_days = get_or dto.two_factor_trust_days a.two_factor_trust_days;
  two_factor_prompt_enabled = get_or dto.two_factor_prompt_enabled a.two_factor_prompt_enabled;
  require_two_factor = get_or dto.require_two_factor a.require_two_factor;
  allow_offline_access = get_or dto.allow_offline_access a.allow_offline_access;
  default_org_id = get_or org a.default_org_id;
  default_role_id = get_or role a.default_role_id;
  password_policy_override =
      set_password_policy dto.password_policy_override a.password_policy_override;
  activation = set_activation dto a.activation;
  consent_urls = set_consent_urls dto.consent_urls a.consent_urls;
}

-- The row of the draft that `createApp` inserts.
unfoldable pub draft_app : CreateAppDto → String → ℕ → SaApp
draft_app dto pending i = record {
  id = i;
  public_id = pending;
  name = dto.name;
  is_platform = false;
  default_org_id = none;
  default_role_id = none;
  require_two_factor = get_or dto.require_two_factor false;
  allow_offline_access = get_or dto.allow_offline_access false;
  can_manage_own_roles = false;
  client_secret_hash = none;
  client_secret_updated_at = none;
  two_factor_trust_days = dto.two_factor_trust_days;
  two_factor_prompt_enabled = dto.two_factor_prompt_enabled;
  appearance = dto.appearance;
  activation = record {
    webhook_url = none;
    webhook_secret = none;
    email_override = none;
    email_verification_method = link;
  };
  consent_urls = record { privacy_policy_url = none; terms_url = none; gdpr_url = none };
  password_policy_override = none;
  redirects = record { url = dto.url; redirect_uris = [] };
}

-- What the rotations of the two secrets write.
unfoldable pub set_client_secret : String → ℕ → SaApp → SaApp
set_client_secret hash now a = record a {
  client_secret_hash = some hash;
  client_secret_updated_at = some now;
}

unfoldable pub set_webhook_secret : String → SaApp → SaApp
set_webhook_secret secret a = record a {
  activation = record a.activation { webhook_secret = some secret };
}

-- ===== src/Apps/Reading.antt =====
-- apps/auth-server/src/apps/apps.service.ts: what is shown of an app, one by one and in the list.
use sassy_auth.Common.{
  ℕ, String, Bool, true, ◌||◌, Option, none, some, List, [], ◌∷◌, map, ◌==◌, ◌===◌, if◌then◌else◌,
  find?, count_where, is_truthy, get_or, Action, ◌>>=◌, ◌>>◌, gets, or_throw, not_found, bare,
}
use sassy_auth.Access.{check_permission}
use sassy_auth.Consent.{ConsentAppUrls}
use sassy_auth.RedirectUri.{RedirectUri}
use sassy_auth.PasswordPolicy.{PasswordPolicy, resolve_password_policy}
use sassy_auth.Db.{SaApp, Appearance, ActivationEmailBranding, EmailVerificationMethod, Db, link}
use sassy_auth.Queries.{
  Externals, find_app, find_org_by_id, ListQuery, Page, rows_of_page, escape_like,
}

-- The answer that `formatApp` makes of a row.
pub record AppView : Type 0 where
  pub public_id : String
  pub name : String
  pub url : String
  pub is_platform : Bool
  pub appearance : Appearance
  pub two_factor_trust_days : Option ℕ
  pub two_factor_prompt_enabled : Option Bool
  pub require_two_factor : Bool
  pub allow_offline_access : Bool
  pub redirect_uris : List RedirectUri
  pub is_confidential : Bool
  pub client_secret_updated_at : Option ℕ
  pub default_org_id : Option String
  pub default_role_id : Option String
  pub password_policy_override : Option PasswordPolicy
  pub effective_password_policy : PasswordPolicy
  pub activation_webhook_url : Option String
  pub has_activation_webhook_secret : Bool
  pub activation_email_override : Option ActivationEmailBranding
  pub consent_urls : ConsentAppUrls
  pub email_verification_method : EmailVerificationMethod

-- `include: { defaultOrg: { select: { publicId: true } } }`
unfoldable pub org_public_id : Option ℕ → Db → Option String
org_public_id none db = none
org_public_id (some i) db = elim (find_org_by_id i db) [ none ↦ none | some o ↦ some o.public_id ]

unfoldable pub role_public_id : Option ℕ → Db → Option String
role_public_id none db = none
role_public_id (some i) db = elim (find? (λ r. r.id == i) db.roles) [
  | none ↦ none
  | some r ↦ some r.public_id
]

-- `formatApp`, with the policy of the environment
unfoldable pub format_app : PasswordPolicy → Db → SaApp → AppView
format_app policy db a = record {
  public_id = a.public_id;
  name = a.name;
  url = a.redirects.url;
  is_platform = a.is_platform;
  appearance = a.appearance;
  two_factor_trust_days = a.two_factor_trust_days;
  two_factor_prompt_enabled = a.two_factor_prompt_enabled;
  require_two_factor = a.require_two_factor;
  allow_offline_access = a.allow_offline_access;
  redirect_uris = a.redirects.redirect_uris;
  is_confidential = is_truthy a.client_secret_hash;
  client_secret_updated_at = a.client_secret_updated_at;
  default_org_id = org_public_id a.default_org_id db;
  default_role_id = role_public_id a.default_role_id db;
  password_policy_override = a.password_policy_override;
  effective_password_policy = resolve_password_policy policy a.password_policy_override;
  activation_webhook_url = a.activation.webhook_url;
  has_activation_webhook_secret = is_truthy a.activation.webhook_secret;
  activation_email_override = a.activation.email_override;
  consent_urls = a.consent_urls;
  email_verification_method = a.activation.email_verification_method;
}

abbrev pub apps_read : List String
apps_read =
    "platform.apps.manage" ∷ "platform.orgs.manage" ∷ "platform.permissions.manage"
    ∷ "platform.roles.manage" ∷ []

unfoldable pub get_app : PasswordPolicy → String → String → Action Db AppView
get_app policy caller public_id = do
  check_permission caller apps_read none
  app ← or_throw (← gets (find_app public_id)) (not_found bare)
  gets (λ db. format_app policy db app)

-- A row of the list: no pictures, and `emailVerificationMethod` is not selected, so its default is
-- shown.
unfoldable pub list_view : PasswordPolicy → Db → SaApp → AppView
list_view policy db a =
    let v = format_app policy db a in
    record v {
      appearance = record v.appearance { logo = none; favicon = none };
      email_verification_method = link;
    }

-- `OR: [{ name: { contains } }, { url: { contains } }]`
unfoldable pub app_selected : Externals → Option String → SaApp → Bool
app_selected ext none a = true
app_selected ext (some q) a =
    if q === ""
    then true
    else ext.name_matches a.name (escape_like q) || ext.name_matches a.redirects.url (escape_like q)

unfoldable pub list_apps :
    Externals → PasswordPolicy → String → ListQuery → Action Db (Page AppView)
list_apps ext policy caller q = do
  check_permission caller apps_read none
  let page = get_or q.page 1
  let size = get_or q.page_size 25
  let selected = app_selected ext q.q
  gets (λ db. record {
    items = map (list_view policy db) (rows_of_page (λ a. a.id) selected page size db.apps);
    total = count_where selected db.apps;
    page = page;
    page_size = size;
  })

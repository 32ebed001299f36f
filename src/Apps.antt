-- ===== src/Apps.antt =====
-- apps/auth-server/src/apps/apps.service.ts: apps, their settings and their secrets.
-- `new URL`, `hashPassword` of BetterAuth and the environment's password policy are parameters;
-- the random secrets, the pending public id and the clock are arguments.
pub mod Validation
pub mod Rows
pub mod Settings
pub mod Reading
pub mod Redirects
pub mod Overrides
pub mod Valid
pub mod Writes
pub mod Invariant
pub mod Kept
pub mod Updates
pub mod Operations
pub mod History
pub mod Secrets
use sassy_auth.Common.{
  ℕ, String, Bool, true, false, not, ◌&&◌, ◌||◌, Option, none, some, List, [], ◌∷◌, map, ⊤, ◌==◌,
  ◌===◌, if◌then◌else◌, find?, count_where, is_some, is_truthy, get_or, Result, ok, err, Action,
  ◌>>=◌, ◌>>◌, pure, throw, gets, or_throw, throw_if, commit, try_catch, is_prisma_code, p2002,
  p2003, bad_request, forbidden, not_found, conflict, bare, plain, Exception,
}
use sassy_auth.Access.{check_permission}
use sassy_auth.Consent.{ConsentAppUrls}
use sassy_auth.RedirectUri.{Url, RedirectUri}
use sassy_auth.PasswordPolicy.{PasswordPolicy, resolve_password_policy}
use sassy_auth.Db.{
  SaApp, Appearance, Activation, ActivationEmailBranding, EmailVerificationMethod, SaOrg, SaRole,
  Db, link,
}
use sassy_auth.Queries.{
  Externals, find_app, find_org, find_org_by_id, find_role, ListQuery, Page, rows_of_page,
  escape_like,
}
use sassy_auth.Queries.Tables.{Write, ◌>>>◌, write_if}
use sassy_auth.Apps.Validation.{
  RedirectUriDto, redirect_row, assert_valid_redirect_uris, PasswordPolicyDto, policy_of,
  assert_valid_password_policy_override, ActivationEmailDto, branding_of,
  assert_valid_activation_email_override, assert_valid_email_verification_method, method_of,
}
use sassy_auth.Apps.Settings.{
  CreateAppDto, UpdateAppDto, names_nothing, updated_app, draft_app, set_client_secret,
  set_webhook_secret,
}
use sassy_auth.Apps.Reading.{AppView, format_app}
use sassy_auth.Apps.Rows.{insert_app, update_app_row, replace_redirects, delete_app_row}

abbrev pub apps_manage : List String
apps_manage = "platform.apps.manage" ∷ []

abbrev pub app_name_taken : Exception
app_name_taken = conflict (plain "App with this name already exists")

abbrev pub nothing_given : Exception
nothing_given = bad_request (
    plain
      "At least one of name, url, logo, favicon, pageLightBackgroundColor, pageDarkBackgroundColor, cardLightBackgroundColor, cardDarkBackgroundColor, twoFactorTrustDays, twoFactorPromptEnabled, requireTwoFactor, allowOfflineAccess, redirectUris, defaultOrgId, defaultRoleId, passwordPolicyOverride, activationWebhookUrl, privacyPolicyUrl, termsUrl, gdprUrl, activationEmailOverride, or emailVerificationMethod must be provided")

abbrev pub platform_app : Exception
platform_app = forbidden (plain "Platform app cannot be modified")

-- A check that reads no table.
abbrev pub check : Result ⊤ → Action Db ⊤
check r db = (r, db)

-- `if (value) assert…(value)`
abbrev pub check_given : {A : Type 0} → (A → Result ⊤) → Option A → Result ⊤
check_given f none = ok tt
check_given f (some a) = f a

-- The value of a field that may be absent or `null`.
abbrev pub present : {A : Type 0} → Option (Option A) → Option A
present none = none
present (some o) = o

-- `resolveDefaultOrgId`
unfoldable pub resolve_default_org_id : ℕ → Option (Option String) → Action Db (Option (Option ℕ))
resolve_default_org_id app_id none = pure none
resolve_default_org_id app_id (some none) = pure (some none)
resolve_default_org_id app_id (some (some i)) = do
  org ← or_throw (← gets (find_org i)) (not_found (plain "Default org not found"))
  throw_if (not (org.app_id == app_id)) (bad_request (plain "Default org must belong to this app"))
  pure (some (some org.id))

-- `resolveDefaultRoleId`
unfoldable pub resolve_default_role_id : ℕ → Option (Option String) → Action Db (Option (Option ℕ))
resolve_default_role_id app_id none = pure none
resolve_default_role_id app_id (some none) = pure (some none)
resolve_default_role_id app_id (some (some i)) = do
  role ← or_throw (← gets (find_role i)) (not_found (plain "Default role not found"))
  throw_if (not (role.app_id == app_id))
      (bad_request (plain "Default role must belong to this app"))
  pure (some (some role.id))

-- `if (dto.redirectUris) { deleteMany; createMany }`
unfoldable pub write_redirects : ℕ → Option (List RedirectUriDto) → Write
write_redirects i none db = ok (tt, db)
write_redirects i (some rows) db = replace_redirects i (map redirect_row rows) db

-- The transaction of `createApp`.
unfoldable pub create_app_tx : Externals → CreateAppDto → String → Write
create_app_tx ext dto pending db =
    let i = db.next_app_id in
    (insert_app (draft_app dto pending i)
        >>> update_app_row i (λ a. record a { public_id = ext.encode i })
        >>> write_redirects i dto.redirect_uris)
      db

-- The transaction of `updateApp`.
unfoldable pub update_app_tx : UpdateAppDto → ℕ → Option (Option ℕ) → Option (Option ℕ) → Write
update_app_tx dto i org role =
    update_app_row i (updated_app dto org role) >>> write_redirects i dto.redirect_uris

unfoldable pub find_managed_app : String → String → Action Db SaApp
find_managed_app caller public_id = do
  check_permission caller apps_manage none
  or_throw (← gets (find_app public_id)) (not_found bare)

-- `throw isPrismaCode(e, 'P2002') ? new ConflictException(…) : e`
abbrev pub or_name_taken : Action Db ⊤ → Action Db ⊤
or_name_taken m =
    try_catch m (λ e. if is_prisma_code e p2002 then throw app_name_taken else throw e)

-- The answer after a write: the row of an id.
unfoldable pub view_of_id : PasswordPolicy → ℕ → Action Db AppView
view_of_id policy i = do
  app ← or_throw (← gets (λ db. find? (λ a. a.id == i) db.apps)) (not_found bare)
  gets (λ db. format_app policy db app)

-- `resolvedDefaultOrgId` and `resolvedDefaultRoleId`
pub record UpdateCheck : Type 0 where
  pub org : Option (Option ℕ)
  pub role : Option (Option ℕ)

unfoldable pub resolve_defaults : UpdateAppDto → ℕ → Action Db UpdateCheck
resolve_defaults dto i = do
  org ← resolve_default_org_id i dto.default_org_id
  role ← resolve_default_role_id i dto.default_role_id
  pure (record { org = org; role = role })

module _ (parse_url : String → Option Url) where
  -- The checks of `updateApp` that read no table.
  unfoldable pub check_fields : UpdateAppDto → SaApp → Action Db ⊤
  check_fields dto existing = do
    throw_if existing.is_platform platform_app
    check (check_given (assert_valid_redirect_uris parse_url) dto.redirect_uris)
    check (check_given assert_valid_password_policy_override (present dto.password_policy_override))
    check
        (check_given assert_valid_activation_email_override (present dto.activation_email_override))
    check (check_given assert_valid_email_verification_method dto.email_verification_method)

  -- `updateApp` between the query of the row and the transaction.
  unfoldable pub check_update : UpdateAppDto → SaApp → Action Db UpdateCheck
  check_update dto existing = check_fields dto existing >> resolve_defaults dto existing.id

  unfoldable pub write_update :
      PasswordPolicy → UpdateAppDto → SaApp → UpdateCheck → Action Db AppView
  write_update policy dto existing c = do
    or_name_taken (commit (update_app_tx dto existing.id c.org c.role))
    view_of_id policy existing.id

  unfoldable pub update_managed_app : PasswordPolicy → UpdateAppDto → SaApp → Action Db AppView
  update_managed_app policy dto existing =
      check_update dto existing >>= write_update policy dto existing

  unfoldable pub update_app : PasswordPolicy → String → String → UpdateAppDto → Action Db AppView
  update_app policy caller public_id dto = do
    throw_if (names_nothing dto) nothing_given
    find_managed_app caller public_id >>= update_managed_app policy dto

  unfoldable pub write_app : Externals → PasswordPolicy → CreateAppDto → String → Action Db AppView
  write_app ext policy dto pending = do
    i ← gets (λ db. db.next_app_id)
    or_name_taken (commit (create_app_tx ext dto pending))
    view_of_id policy i

  unfoldable pub create_app :
      Externals → PasswordPolicy → String → CreateAppDto → String → Action Db AppView
  create_app ext policy caller dto pending = do
    check_permission caller apps_manage none
    check (check_given (assert_valid_redirect_uris parse_url) dto.redirect_uris)
    write_app ext policy dto pending

-- `rotateClientSecret` on the row: the hash is that of the new secret.
unfoldable pub write_client_secret : (String → String) → String → ℕ → SaApp → Action Db String
write_client_secret hash_password secret now existing = do
  commit (update_app_row existing.id (set_client_secret (hash_password secret) now))
  pure secret

unfoldable pub rotate_client_secret :
    (String → String) → String → String → String → ℕ → Action Db String
rotate_client_secret hash_password caller public_id secret now =
    find_managed_app caller public_id >>= write_client_secret hash_password secret now

unfoldable pub write_webhook_secret : String → SaApp → Action Db String
write_webhook_secret secret existing = do
  throw_if (not (is_truthy existing.activation.webhook_url))
      (bad_request (plain "Set a webhook URL before generating a webhook secret"))
  commit (update_app_row existing.id (set_webhook_secret secret))
  pure secret

unfoldable pub rotate_webhook_secret : String → String → String → Action Db String
rotate_webhook_secret caller public_id secret =
    find_managed_app caller public_id >>= write_webhook_secret secret

abbrev pub refuse_dependents : Exception → Action Db ⊤
refuse_dependents e =
    if is_prisma_code e p2003
    then throw (conflict (plain "App has dependent organizations, roles, or permissions"))
    else throw e

unfoldable pub delete_managed_app : SaApp → Action Db ⊤
delete_managed_app existing = do
  throw_if existing.is_platform platform_app
  try_catch (commit (delete_app_row existing.id)) refuse_dependents

unfoldable pub delete_app : String → String → Action Db ⊤
delete_app caller public_id = find_managed_app caller public_id >>= delete_managed_app

-- ===== src/Tests/Apps.antt =====
-- The settings of the shop, changed by an administrator of apps.
use sassy_auth.Common.{
  String, true, false, none, some, [], ◌∷◌, ◌≡◌, refl, sym, subst, arith, inl, inr, ok, eq_iff,
  Memᴰ, is_truthy,
}
use mathlib.Core.List.Memᴰ
use sassy_auth.RedirectUri.{Url, login}
use sassy_auth.Db.{SaApp, Db}
use sassy_auth.Access.{
  check_permission, find_user_by_ba_id, permission_names, permissions_of_role, roles_of_user,
  direct_permissions_of_user, find_role_by_id, find_permission_by_id, is_platform_permission,
  holds_platform, allows,
}
use sassy_auth.PasswordPolicy.{PasswordPolicy}
use sassy_auth.Queries.{find_app, find_org}
use sassy_auth.TokenEndpoint.{authenticates}
use sassy_auth.Apps.Validation.{assert_valid_redirect_uris, check_redirect_uris, redirect_row}
use sassy_auth.Apps.Settings.{
  UpdateAppDto, names_nothing, updated_app, set_appearance, set_activation, webhook_secret_after,
  email_override_after, set_consent_urls, set_password_policy, set_client_secret,
}
use sassy_auth.Apps.Rows.{update_app_row, replace_redirects, has_repeat, set_redirects}
use sassy_auth.Apps.Valid.{IsValidApp}
use sassy_auth.Apps.Invariant.{IsConsistent}
use sassy_auth.Apps.History.{here, after, update, reached-IsConsistent}
use sassy_auth.Apps.Secrets.{rotate_client_secret-authenticates}
use sassy_auth.Apps.{
  find_managed_app, update_managed_app, check_update, check_fields, resolve_defaults,
  resolve_default_org_id, resolve_default_role_id, write_update, update_app_tx, write_redirects,
  view_of_id, write_client_secret, update_app, rotate_client_secret,
}
use sassy_auth.Tests.Data.{db, shop, clerk}
use sassy_auth.Tests.Endpoint.{parse_url, platform}

-- The administrator may manage apps.
abbrev pub apps_db : Db
apps_db = record db {
  permissions =
      record {
        id = 8;
        public_id = "p8";
        name = "platform.apps.manage";
        app_id = 1;
        is_system = true;
      }
      ∷ db.permissions;
  role_permissions = record { role_id = 1; permission_id = 8 } ∷ db.role_permissions;
}

abbrev policy : PasswordPolicy
policy = record {
  min_length = 12;
  require_uppercase = false;
  require_lowercase = false;
  require_number = false;
  require_special = false;
  min_numbers = 0;
  min_special = 0;
}

abbrev nothing : UpdateAppDto
nothing = record {
  name = none;
  url = none;
  appearance = record {
    logo = none;
    favicon = none;
    page_light_background_color = none;
    page_dark_background_color = none;
    card_light_background_color = none;
    card_dark_background_color = none;
  };
  two_factor_trust_days = none;
  two_factor_prompt_enabled = none;
  require_two_factor = none;
  allow_offline_access = none;
  redirect_uris = none;
  default_org_id = none;
  default_role_id = none;
  password_policy_override = none;
  activation_webhook_url = none;
  consent_urls = record { privacy_policy_url = none; terms_url = none; gdpr_url = none };
  activation_email_override = none;
  email_verification_method = none;
}

-- New redirect URIs, a default organisation, and a webhook.
abbrev parsed : String → Url
parsed s = record { protocol = "https:"; host = "shop"; pathname = s; search = ""; origin = s }

abbrev settings : UpdateAppDto
settings = record nothing {
  redirect_uris = some (record { uri = "https://shop/new"; kind = "login" } ∷ []);
  default_org_id = some (some "o2");
  activation_webhook_url = some (some "https://shop/hook");
}

abbrev shop_after : SaApp
shop_after = record shop {
  default_org_id = some 2;
  activation = record shop.activation { webhook_url = some "https://shop/hook" };
  redirects = record shop.redirects {
    redirect_uris = record { uri = "https://shop/new"; kind = login } ∷ [];
  };
}

settings_written :
    find_app "shop" (update_app parse_url policy "root" "shop" settings apps_db).1 ≡ some shop_after
unfolding update_app names_nothing find_managed_app check_permission find_user_by_ba_id
    permission_names permissions_of_role roles_of_user direct_permissions_of_user find_role_by_id
    find_permission_by_id is_platform_permission holds_platform allows find_app update_managed_app
    check_update check_fields assert_valid_redirect_uris check_redirect_uris resolve_defaults
    resolve_default_org_id resolve_default_role_id find_org write_update update_app_tx
    update_app_row updated_app write_redirects replace_redirects has_repeat redirect_row
    set_redirects set_appearance set_activation webhook_secret_after email_override_after
    set_consent_urls set_password_policy view_of_id
settings_written = refl

pub consistent : IsConsistent parse_url apps_db.orgs apps_db.roles apps_db
consistent = record {
  same_orgs = refl;
  same_roles = refl;
  each = λ a m. elim (Memᴰ.cases_cons m) [
    | inl e ↦ subst (IsValidApp parse_url apps_db.orgs apps_db.roles) (sym e) (record {
      webs = tt;
      once = tt;
      default_org = (
        record { id = 1; public_id = "o1"; name = "Platform"; app_id = 1; is_platform = true },
        Memᴰ.head refl,
        refl,
        refl,
      );
      default_role = tt;
      policy = tt;
      branding = tt;
      webhook = λ e. refl;
    })
    | inr k ↦ elim (Memᴰ.cases_cons k) [
      | inl e ↦ subst (IsValidApp parse_url apps_db.orgs apps_db.roles) (sym e) (record {
        webs = (
          (parsed "https://shop/callback", refl, refl),
          ((parsed "https://shop/bye", refl, refl), tt),
        );
        once = (
          λ m. elim (Memᴰ.cases_cons m) [
            | inl e ↦ ground (arith, eq_iff "https://shop/callback" "https://shop/bye")
            | inr k ↦ elim k [ ]
          ],
          (λ m. elim m [ ], tt),
        );
        default_org = tt;
        default_role = (clerk, Memᴰ.tail (Memᴰ.tail (Memᴰ.head refl)), refl, refl);
        policy = tt;
        branding = tt;
        webhook = λ e. refl;
      })
      | inr j ↦ elim j [ ]
    ]
  ];
  keys = refl;
}

reached-IsConsistent_example :
    let updated = (update_app parse_url policy "root" "shop" settings apps_db).1 in
    IsConsistent parse_url apps_db.orgs apps_db.roles updated
reached-IsConsistent_example =
    reached-IsConsistent parse_url apps_db.orgs apps_db.roles
      (after here (update policy "root" "shop" settings)) consistent

abbrev hash : String → String
hash secret = "hash"

rotated_s3cret :
    let r = rotate_client_secret hash "root" "shop" "s3cret" 5 apps_db in r ≡ (ok "s3cret", r.1)
unfolding rotate_client_secret write_client_secret find_managed_app check_permission
    find_user_by_ba_id permission_names permissions_of_role roles_of_user direct_permissions_of_user
    find_role_by_id find_permission_by_id is_platform_permission holds_platform allows find_app
    update_app_row set_client_secret
rotated_s3cret = refl

rotate_client_secret-authenticates_example :
    let r = rotate_client_secret hash "root" "shop" "s3cret" 5 apps_db in
    (a : SaApp) × (find_app "shop" r.1 ≡ some a)
    × (is_truthy a.client_secret_hash ≡ true)
    × (authenticates platform (record { client_id = "shop"; secret = some "s3cret" }) a ≡ true)
    × (authenticates platform (record { client_id = "shop"; secret = some "old" }) a ≡ false)
rotate_client_secret-authenticates_example =
    rotate_client_secret-authenticates platform hash "root" "shop" "s3cret" "old" "shop" 5 apps_db
      (rotate_client_secret hash "root" "shop" "s3cret" 5 apps_db).1 "s3cret" refl
      (λ e. ground (arith, eq_iff "s3cret" "")) (λ e. ground (arith, eq_iff "hash" "")) refl
      rotated_s3cret

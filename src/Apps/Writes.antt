-- ===== src/Apps/Writes.antt =====
-- The changes that the operations make of the row of an app keep what holds of it.
use sassy_auth.Common.{
  ℕ, String, Option, none, some, List, map, ⊤, ◌≡◌, refl, sym, subst, inl, inr, arith, ok, ◌==◌,
  ◌===◌, get_or, find?_sound, ==_iff, Option-cases, Bool-cases, find?, find?_sound,
}
use sassy_auth.RedirectUri.{Url}
use sassy_auth.PasswordPolicy.{PasswordPolicy}
use sassy_auth.Db.{ActivationEmailBranding, SaOrg, SaRole, Db}
use sassy_auth.Queries.{find_org, find_role}
use sassy_auth.Apps.Validation.{
  RedirectUriDto, PasswordPolicyDto, ActivationEmailDto, redirect_row, assert_valid_redirect_uris,
  assert_valid_password_policy_override, assert_valid_activation_email_override,
}
use sassy_auth.Apps.Settings.{
  CreateAppDto, UpdateAppDto, updated_app, draft_app, set_activation, webhook_secret_after,
  email_override_after, set_client_secret, set_password_policy,
}
use sassy_auth.Apps.Rows.{set_redirects}
use sassy_auth.Apps.Redirects.{redirect_rows_lem}
use sassy_auth.Apps.Overrides.{IsSane, IsSafe, policy_of-IsSane, branding_of-IsSafe}
use sassy_auth.Apps.Valid.{OrgOf, RoleOf, Holds, IsValidApp, Keeps}
use sassy_auth.Apps.{check_given, present, resolve_default_org_id, resolve_default_role_id}

-- A value for the column, where one was given, is a default of the app.
abbrev pub GivenOrg : List SaOrg → ℕ → Option (Option ℕ) → Type 0
GivenOrg orgs i none = ⊤
GivenOrg orgs i (some o) = OrgOf orgs i o

abbrev pub GivenRole : List SaRole → ℕ → Option (Option ℕ) → Type 0
GivenRole roles i none = ⊤
GivenRole roles i (some o) = RoleOf roles i o

pub resolve_default_org_id_lem :
    (i : ℕ) (given : Option (Option String)) (db db' : Db) (org : Option (Option ℕ))
    → resolve_default_org_id i given db ≡ (ok org, db')
    → (db ≡ db') × GivenOrg db.orgs i org
unfolding resolve_default_org_id find_org
resolve_default_org_id_lem i none db db' org h = ground arith
resolve_default_org_id_lem i (some none) db db' org h = ground arith
resolve_default_org_id_lem i (some (some given)) db db' org h =
    elim (Option-cases (find? (λ o. o.public_id === given) db.orgs)) [
      | inl missing ↦ ground arith
      | inr (o, found) ↦ elim (Bool-cases (o.app_id == i)) [
        | inl same ↦
            let (m, q) = find?_sound (λ o. o.public_id === given) db.orgs found in
            let e : some (some o.id) ≡ org = ground arith in
            (ground arith, subst (GivenOrg db.orgs i) e (o, m, refl, (==_iff o.app_id i).0 same))
        | inr foreign ↦ ground arith
      ]
    ]

pub resolve_default_role_id_lem :
    (i : ℕ) (given : Option (Option String)) (db db' : Db) (role : Option (Option ℕ))
    → resolve_default_role_id i given db ≡ (ok role, db')
    → (db ≡ db') × GivenRole db.roles i role
unfolding resolve_default_role_id find_role
resolve_default_role_id_lem i none db db' role h = ground arith
resolve_default_role_id_lem i (some none) db db' role h = ground arith
resolve_default_role_id_lem i (some (some given)) db db' role h =
    elim (Option-cases (find? (λ r. r.public_id === given) db.roles)) [
      | inl missing ↦ ground arith
      | inr (r, found) ↦ elim (Bool-cases (r.app_id == i)) [
        | inl same ↦
            let (m, q) = find?_sound (λ r. r.public_id === given) db.roles found in
            let e : some (some r.id) ≡ role = ground arith in
            (ground arith, subst (GivenRole db.roles i) e (r, m, refl, (==_iff r.app_id i).0 same))
        | inr foreign ↦ ground arith
      ]
    ]

get_or-OrgOf :
    (orgs : List SaOrg) (i : ℕ) (org : Option (Option ℕ)) (old : Option ℕ)
    → GivenOrg orgs i org
    → OrgOf orgs i old
    → OrgOf orgs i (get_or org old)
get_or-OrgOf orgs i none old g v = v
get_or-OrgOf orgs i (some o) old g v = g

get_or-RoleOf :
    (roles : List SaRole) (i : ℕ) (role : Option (Option ℕ)) (old : Option ℕ)
    → GivenRole roles i role
    → RoleOf roles i old
    → RoleOf roles i (get_or role old)
get_or-RoleOf roles i none old g v = v
get_or-RoleOf roles i (some o) old g v = g

set_password_policy-IsSane :
    (given : Option (Option PasswordPolicyDto)) (old : Option PasswordPolicy)
    → check_given assert_valid_password_policy_override (present given) ≡ ok tt
    → Holds IsSane old
    → Holds IsSane (set_password_policy given old)
unfolding set_password_policy
set_password_policy-IsSane none old c v = v
set_password_policy-IsSane (some none) old c v = tt
set_password_policy-IsSane (some (some d)) old c v = policy_of-IsSane d c

email_override_after-IsSafe :
    (given : Option (Option ActivationEmailDto)) (old : Option ActivationEmailBranding)
    → check_given assert_valid_activation_email_override (present given) ≡ ok tt
    → Holds IsSafe old
    → Holds IsSafe (email_override_after given old)
unfolding email_override_after
email_override_after-IsSafe none old c v = v
email_override_after-IsSafe (some none) old c v = tt
email_override_after-IsSafe (some (some d)) old c v = branding_of-IsSafe d c

-- The secret goes with the URL.
webhook_secret_after_lem :
    (given : Option (Option String)) (url secret : Option String)
    → (url ≡ none → secret ≡ none)
    → get_or given url ≡ none
    → webhook_secret_after given secret ≡ none
unfolding webhook_secret_after
webhook_secret_after_lem none url secret v e = v e
webhook_secret_after_lem (some none) url secret v e = refl
webhook_secret_after_lem (some (some u)) url secret v e = cc

module _ (parse_url : String → Option Url) (orgs : List SaOrg) (roles : List SaRole) where
  -- The checks of a request that was accepted, for the app of the id.
  pub record IsChecked (dto : UpdateAppDto) (i : ℕ) (org role : Option (Option ℕ)) : Type 0 where
    pub redirects : check_given (assert_valid_redirect_uris parse_url) dto.redirect_uris ≡ ok tt
    pub policy :
        check_given assert_valid_password_policy_override (present dto.password_policy_override)
        ≡ ok tt
    pub branding :
        check_given assert_valid_activation_email_override (present dto.activation_email_override)
        ≡ ok tt
    pub of_org : GivenOrg orgs i org
    pub of_role : GivenRole roles i role

  pub updated_app-Keeps :
      (dto : UpdateAppDto) (i : ℕ) (org role : Option (Option ℕ))
      → IsChecked dto i org role
      → Keeps parse_url orgs roles i (updated_app dto org role)
  unfolding updated_app set_activation
  updated_app-Keeps dto i org role c a same v = record {
    webs = v.webs;
    once = v.once;
    default_org =
        get_or-OrgOf orgs a.id org a.default_org_id
          (subst (λ j. GivenOrg orgs j org) (sym same) c.of_org) v.default_org;
    default_role =
        get_or-RoleOf roles a.id role a.default_role_id
          (subst (λ j. GivenRole roles j role) (sym same) c.of_role) v.default_role;
    policy =
        set_password_policy-IsSane dto.password_policy_override a.password_policy_override c.policy
          v.policy;
    branding =
        email_override_after-IsSafe dto.activation_email_override a.activation.email_override
          c.branding v.branding;
    webhook =
        webhook_secret_after_lem dto.activation_webhook_url a.activation.webhook_url
          a.activation.webhook_secret v.webhook;
  }

  pub redirects-Keeps :
      (i : ℕ) (rows : List RedirectUriDto)
      → assert_valid_redirect_uris parse_url rows ≡ ok tt
      → Keeps parse_url orgs roles i (set_redirects (map redirect_row rows))
  unfolding set_redirects
  redirects-Keeps i rows checked a same v =
      let (webs, once) = redirect_rows_lem parse_url rows checked in
      record {
        webs = webs;
        once = once;
        default_org = v.default_org;
        default_role = v.default_role;
        policy = v.policy;
        branding = v.branding;
        webhook = v.webhook;
      }

  pub public_id-Keeps :
      (i : ℕ) (encoded : String)
      → Keeps parse_url orgs roles i (λ a. record a { public_id = encoded })
  public_id-Keeps i encoded a same v = record {
    webs = v.webs;
    once = v.once;
    default_org = v.default_org;
    default_role = v.default_role;
    policy = v.policy;
    branding = v.branding;
    webhook = v.webhook;
  }

  pub set_client_secret-Keeps :
      (i : ℕ) (hash : String) (now : ℕ) → Keeps parse_url orgs roles i (set_client_secret hash now)
  unfolding set_client_secret
  set_client_secret-Keeps i hash now a same v = record {
    webs = v.webs;
    once = v.once;
    default_org = v.default_org;
    default_role = v.default_role;
    policy = v.policy;
    branding = v.branding;
    webhook = v.webhook;
  }

  pub draft_app-IsValidApp :
      (dto : CreateAppDto) (pending : String) (i : ℕ)
      → IsValidApp parse_url orgs roles (draft_app dto pending i)
  unfolding draft_app
  draft_app-IsValidApp dto pending i = record {
    webs = tt;
    once = tt;
    default_org = tt;
    default_role = tt;
    policy = tt;
    branding = tt;
    webhook = λ e. refl;
  }

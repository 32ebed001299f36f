-- ===== src/Tests/Signup.antt =====
-- A signup for the shop, which sends its users back with a code.
use sassy_auth.Common.{
  true, false, none, some, [], ◌∷◌, Memᴰ, ◌≡◌, ◌⊎◌, refl, ok, err, any, ◌===◌, if◌then◌else◌,
  bad_request, plain, prisma_error, p2002, ◌+◌,
}
use sassy_auth.PasswordPolicy.{
  PasswordPolicy, validate_password_or_throw, get_failed_password_rules, evaluate_password_policy,
  count_rules, flag_rule, resolve_password_policy,
}
use sassy_auth.Consent.{resolve_required_consent, document, gdpr_applies, record_consent, accepted}
use sassy_auth.RedirectUri.{
  registered, assert_redirect_uri_allowed, allowed_by, is_exact_match, same_url,
}
use sassy_auth.OauthCode.{generate_code, create, generated, SaOauthCode, s256, code_ttl_ms}
use sassy_auth.Db.{BaUser, SaUser, Db, unverified}
use sassy_auth.Queries.{find_app}
use sassy_auth.Queries.Tables.{insert_org, update_org_row}
use sassy_auth.World.{World}
use sassy_auth.Registration.Redirect.{
  NextUrl, recover_authorize_params, recovered_from, signup_redirect, choose_redirect, may_issue,
  s256_challenge,
}
use sassy_auth.Registration.Requests.{
  SignupDto, Surroundings, check_signup, check_app, check_consents, resolve_default_org,
}
use sassy_auth.Registration.Rows.{
  NewUser, Placed, signup_tx, place, create_org, insert_signup, insert_user, user_row,
  assign_default_role, insert_user_role, record_consents, first_chars,
}
use sassy_auth.Registration.Register.{IsRegistered, register_sound}
use sassy_auth.Registration.Issue.{IsSignupCode, register-codes}
use sassy_auth.Registration.Outcome.{
  without_account, mail_failure_keeps_account, failed_signup_deletes_account,
}
use sassy_auth.Registration.{
  Services, Draws, SignupResponse, register, register_checked, sign_up, finish_registration,
  finish_steps, finish_placed, send_link, send_back, issue_code,
}
use sassy_auth.Tests.Data.{ext, json, shop}
use sassy_auth.Tests.Endpoint.{parse_url, world}
use sassy_auth.Tests.Apps.{apps_db, consistent}

abbrev next_url : NextUrl
next_url = record {
  pathname = "/api/token/oauth/authorize";
  search_param = λ name.
      if name === "client_id"
      then some "shop"
      else if name === "redirect_uri"
      then some "https://shop/callback"
      else if name === "code_challenge"
      then some "challenge"
      else if name === "code_challenge_method"
      then some "S256"
      else none;
}

abbrev carl_account : BaUser
carl_account = record {
  id = "carl-account-0001";
  email = "carl@north";
  email_verified = false;
  two_factor_enabled = false;
}

-- A BetterAuth that makes the account of every signup.
abbrev services : Services
services = record {
  sign_up_email = λ email password name db.
      (ok "carl-account-0001", record db { ba_users = carl_account ∷ db.ba_users });
  verify_email_otp = λ email otp db. (ok "carl-account-0001", db);
  check_verification_otp = λ email otp db. (ok tt, db);
  reset_password = λ i password db. (ok tt, db);
  send_verification_email = λ email. ok tt;
  send_verification_code = λ email db. (ok tt, db);
  json = json;
  parse_url = parse_url;
  parse_next = λ next. some next_url;
  add_params = λ uri code state. uri;
}

abbrev policy : PasswordPolicy
policy = record {
  min_length = 4;
  require_uppercase = false;
  require_lowercase = true;
  require_number = false;
  require_special = false;
  min_numbers = 0;
  min_special = 0;
}

abbrev surroundings : Surroundings
surroundings = record {
  default_policy = policy;
  is_gdpr_country = λ c. false;
  country = none;
  trim = λ s. s;
}

abbrev carl : SignupDto
carl = record {
  email = "carl@north";
  password = "secret";
  first_name = "Carl";
  last_name = "North";
  company_name = some "Carl Ltd";
  app_public_id = "shop";
  accepted_privacy_policy = some true;
  accepted_terms = none;
  accepted_gdpr = none;
  next = some "next";
}

abbrev draws : Draws
draws = record { pending = "pending"; code = "signup code"; now = 1000 }

abbrev before : World
before = record world { db = apps_db }

abbrev response : SignupResponse
response = record { org_public_id = "new"; redirect_url = some "https://shop/callback" }

abbrev after : World
after = (register services ext surroundings carl "Carl North" true draws before).1

answered :
    register services ext surroundings carl "Carl North" true draws before ≡ (ok response, after)
unfolding register register_checked check_signup check_app find_app validate_password_or_throw
    get_failed_password_rules evaluate_password_policy count_rules flag_rule resolve_password_policy
    resolve_required_consent document gdpr_applies check_consents resolve_default_org sign_up
    finish_registration finish_steps finish_placed send_link send_back issue_code signup_tx place
    create_org insert_org update_org_row insert_signup insert_user user_row first_chars
    assign_default_role insert_user_role record_consents record_consent accepted
    recover_authorize_params recovered_from signup_redirect choose_redirect may_issue s256_challenge
    assert_redirect_uri_allowed allowed_by registered is_exact_match same_url generate_code create
    generated
answered = refl

register_sound_example : IsRegistered services ext surroundings carl before after response
register_sound_example =
    register_sound services ext surroundings carl "Carl North" draws before consistent refl
      (record {
        users = refl;
        roles = refl;
        consents = refl;
        next_user = refl;
        orgs = refl;
        next_org = refl;
      })
      true after response answered

abbrev new_code : SaOauthCode
new_code = record {
  code = "signup code";
  user_id = "carl-account";
  app_public_id = "shop";
  redirect_uri = "https://shop/callback";
  code_challenge = some "challenge";
  code_challenge_method = some s256;
  amr = json.stringify ("signup" ∷ []);
  nonce = none;
  scope = "openid profile email";
  auth_time = 1000;
  idp = none;
  expires_at = 1000 + code_ttl_ms;
}

-- The code is in the table.
code_left : Memᴰ new_code after.codes
unfolding register register_checked check_signup check_app find_app validate_password_or_throw
    get_failed_password_rules evaluate_password_policy count_rules flag_rule resolve_password_policy
    resolve_required_consent document gdpr_applies check_consents resolve_default_org sign_up
    finish_registration finish_steps finish_placed send_link send_back issue_code signup_tx place
    create_org insert_org update_org_row insert_signup insert_user user_row first_chars
    assign_default_role insert_user_role record_consents record_consent accepted
    recover_authorize_params recovered_from signup_redirect choose_redirect may_issue s256_challenge
    assert_redirect_uri_allowed allowed_by registered is_exact_match same_url generate_code create
    generated
code_left = Memᴰ.head refl

register-codes_example :
    Memᴰ new_code before.codes ⊎ IsSignupCode services ext before.db carl draws new_code
register-codes_example =
    register-codes services ext surroundings carl "Carl North" draws before consistent true new_code
      code_left

abbrev carl_user : NewUser
carl_user = record {
  app = shop;
  ba_user_id = "carl-account-0001";
  first_name = "Carl";
  last_name = "North";
  company_name = some "Carl Ltd";
  marketing_opt_in = none;
  default_org = none;
  required = [];
  status = unverified;
}

-- The account was made, and the transaction is next.
abbrev signed_up : World
signed_up = record world { db = record apps_db { ba_users = carl_account ∷ apps_db.ba_users } }

abbrev no_mail : Services
no_mail = record services { send_verification_email = λ email. err (bad_request (plain "mail")) }

abbrev placed : Placed
placed = record {
  org = record { id = 4; public_id = "new"; name = "Carl Ltd"; app_id = 2; is_platform = false };
  sa_user_id = 4;
  sa_user_public_id = "carl-account";
}

abbrev tables_after : Db
tables_after = record signed_up.db {
  users = user_row carl_user 4 4 ∷ signed_up.db.users;
  next_user_id = 5;
  next_org_id = 5;
  orgs = placed.org ∷ signed_up.db.orgs;
  user_roles = record { user_id = 4; role_id = 3 } ∷ signed_up.db.user_roles;
}

committed : signup_tx ext carl_user "pending" signed_up.db ≡ ok (placed, tables_after)
unfolding signup_tx place create_org insert_org update_org_row insert_signup insert_user user_row
    first_chars assign_default_role insert_user_role record_consents record_consent
committed = refl

mail_failure_keeps_account_example :
    (finish_registration no_mail ext carl_user none true "carl@north" draws signed_up
      ≡ (err (bad_request (plain "mail")), record signed_up { db = tables_after }))
    × (any (λ (b : BaUser). b.id === "carl-account-0001") tables_after.ba_users ≡ true)
    × (any (λ (u : SaUser). u.better_auth_user_id === "carl-account-0001") tables_after.users
        ≡ true)
mail_failure_keeps_account_example =
    mail_failure_keeps_account no_mail ext carl_user none "carl@north" draws placed tables_after
      (bad_request (plain "mail")) signed_up committed refl

-- The shop has an organisation of that name.
abbrev second_north : NewUser
second_north = record carl_user { company_name = some "North" }

name_taken : signup_tx ext second_north "pending" signed_up.db ≡ err (prisma_error p2002)
unfolding signup_tx place create_org insert_org
name_taken = refl

failed_signup_deletes_account_example :
    (finish_registration services ext second_north none true "carl@north" draws signed_up ≡ (
      err (prisma_error p2002),
      record signed_up { db = without_account "carl-account-0001" signed_up.db },
    ))
    × (any
          (λ (b : BaUser). b.id === "carl-account-0001")
          (without_account "carl-account-0001" signed_up.db).ba_users
        ≡ false)
failed_signup_deletes_account_example =
    failed_signup_deletes_account services ext second_north none "carl@north" draws true
      (prisma_error p2002) signed_up name_taken refl refl

-- ===== src/Registration.antt =====
-- apps/auth-server/src/registration/registration.service.ts: self-serve signup, by a mail with a
-- link or by a code. BetterAuth's calls, the parsers of URLs and the captcha are parameters; a mail
-- is what sending it answers; random values and the clock are arguments.
pub mod Redirect
pub mod Requests
pub mod Rows
pub mod Codes
pub mod Checks
pub mod Issue
pub mod Organisations
pub mod Transaction
pub mod Outcome
pub mod Register
use sassy_auth.Common.{
  ℕ, String, Bool, true, false, not, ◌&&◌, ◌||◌, Option, none, some, List, [], ◌∷◌, any, ⊤, ◌==◌,
  ◌===◌, if◌then◌else◌, find?, filter, is_some, get_or, Result, ok, err, Action, ◌>>=◌, ◌>>◌, pure,
  throw, gets, or_throw, throw_if, commit, modify, try_catch, update_where, delete_where,
  bad_request, forbidden, not_found, conflict, unprocessable, plain, Exception, api_error,
  type_error, Message, ltb, ◌+◌, ◌*◌, length,
}
use sassy_auth.RedirectUri.{Url}
use sassy_auth.Json.{JsonText}
use sassy_auth.Consent.{RequiredConsentDocument}
use sassy_auth.Db.{SaApp, SaOrg, SaUser, BaUser, UserStatus, unverified, active, Db}
use sassy_auth.Queries.{Externals, find_app}
use sassy_auth.OauthCode.{CodeRequest, generate_code, s256}
use sassy_auth.World.{World, on_db, on_codes}
use sassy_auth.Registration.Redirect.{
  NextUrl, SignupRedirect, recover_authorize_params, signup_redirect,
}
use sassy_auth.Registration.Requests.{SignupDto, SignupCheck, Surroundings, check_signup}
use sassy_auth.Registration.Rows.{NewUser, Placed, signup_tx, delete_ba_user}

-- What the service calls: BetterAuth's API over its tables, and the platform.
pub record Services : Type 0 where
  -- `auth.api.signUpEmail`: the email, the password, the name; it answers the id of the user
  pub sign_up_email : String → String → String → Action Db String
  -- `auth.api.verifyEmailOTP`: the email and the code; it answers the id of the user
  pub verify_email_otp : String → String → Action Db String
  -- `auth.api.checkVerificationOTP`: the email and the code
  pub check_verification_otp : String → String → Action Db ⊤
  -- `prisma.verification.create` and `auth.api.resetPassword`: the id and the password
  pub reset_password : String → String → Action Db ⊤
  -- `auth.api.sendVerificationEmail`
  pub send_verification_email : String → Result ⊤
  -- `sendVerificationCode`: it makes a code and mails it
  pub send_verification_code : String → Action Db ⊤
  pub json : JsonText
  pub parse_url : String → Option Url
  -- `new URL(next)`
  pub parse_next : String → Option NextUrl
  -- `url.searchParams.set` and `toString`: the URI, the code, the state
  pub add_params : String → String → Option String → String

-- The values that a request draws: the pending public id, the code, the clock.
pub record Draws : Type 0 where
  pub pending : String
  pub code : String
  pub now : ℕ

pub record SignupResponse : Type 0 where
  pub org_public_id : String
  pub redirect_url : Option String

-- `isDuplicateEmailError`
abbrev pub is_duplicate_email_error : Exception → Bool
is_duplicate_email_error (api_error status code) = status === "UNPROCESSABLE_ENTITY"
is_duplicate_email_error _ = false

abbrev pub email_registered : Exception
email_registered = conflict (plain "email already registered")

-- `mapOtpError`
unfoldable pub map_otp_error : Exception → Exception
map_otp_error (api_error status code) =
    if code === "OTP_EXPIRED"
    then bad_request (plain "OTP_EXPIRED")
    else if code === "TOO_MANY_ATTEMPTS"
    then forbidden (plain "TOO_MANY_ATTEMPTS")
    else bad_request (plain "INVALID_OTP")
map_otp_error _ = bad_request (plain "INVALID_OTP")

abbrev pub captcha_failed : Exception
captcha_failed = unprocessable (plain "captcha verification failed")

abbrev pub check_db : Result ⊤ → Action World ⊤
check_db r w = (r, w)

module _ (sv : Services) (ext : Externals) where
  -- The request of the signup code.
  abbrev pub code_request : SaApp → String → SignupRedirect → ℕ → CodeRequest
  code_request app user_id r now = record {
    user_id = user_id;
    app_public_id = app.public_id;
    redirect_uri = r.redirect_uri;
    code_challenge = r.code_challenge;
    code_challenge_method = if is_some r.code_challenge then some s256 else none;
    amr = "signup" ∷ [];
    nonce = r.nonce;
    scope = "openid profile email";
    auth_time = now;
    idp = none;
  }

  -- The code, and the URL that carries it; `new URL(redirectUri)` may throw.
  unfoldable pub issue_code :
      SaApp → String → Option SignupRedirect → Draws → Action World (Option String)
  issue_code app user_id none draws = pure none
  issue_code app user_id (some r) draws = do
    code ←
        on_codes (generate_code sv.json (code_request app user_id r draws.now) draws.code draws.now)
    url ← or_throw (sv.parse_url r.redirect_uri) type_error
    pure (some (sv.add_params r.redirect_uri code r.state))

  -- `sendLinkVerificationEmail`; the activation webhook, which is sent otherwise, never throws.
  unfoldable pub send_link : Bool → String → Action World ⊤
  send_link true email = check_db (sv.send_verification_email email)
  send_link false email = pure tt

  -- The end of the `try` of `finishRegistration`: the code, where there is a way back.
  unfoldable pub send_back : NewUser → Option String → Draws → Placed → Action World SignupResponse
  send_back args next draws placed = do
    let recovered = recover_authorize_params sv.parse_next next args.app.public_id
    url ←
        issue_code args.app placed.sa_user_public_id
          (signup_redirect sv.parse_url args.app recovered) draws
    pure (record { org_public_id = placed.org.public_id; redirect_url = url })

  unfoldable pub finish_placed :
      NewUser → Option String → Bool → String → Draws → Placed → Action World SignupResponse
  finish_placed args next link email draws placed =
      send_link link email >> send_back args next draws placed

  -- The `try` of `finishRegistration`.
  unfoldable pub finish_steps :
      NewUser → Option String → Bool → String → Draws → Action World SignupResponse
  finish_steps args next link email draws =
      on_db (commit (signup_tx ext args draws.pending)) >>= finish_placed args next link email draws

  -- The `catch`: the deletion of the account, whose own error is swallowed, and the error again.
  unfoldable pub compensate : String → Exception → Action World SignupResponse
  compensate ba_user_id e = do
    on_db (try_catch (commit (delete_ba_user ba_user_id)) (λ x. pure tt))
    throw e

  unfoldable pub finish_registration :
      NewUser → Option String → Bool → String → Draws → Action World SignupResponse
  finish_registration args next link email draws =
      try_catch (finish_steps args next link email draws) (compensate args.ba_user_id)

  -- `${dto.firstName} ${dto.lastName}`.trim() is `name`.
  abbrev pub new_user : SignupDto → SignupCheck → String → UserStatus → Option Bool → NewUser
  new_user dto c ba_user_id status marketing = record {
    app = c.app;
    ba_user_id = ba_user_id;
    first_name = dto.first_name;
    last_name = dto.last_name;
    company_name = dto.company_name;
    marketing_opt_in = marketing;
    default_org = c.default_org;
    required = c.required;
    status = status;
  }

  -- `signUpEmail`, where a duplicate email either throws or answers an id without a row.
  unfoldable pub sign_up : String → String → String → Action Db String
  sign_up email password name = do
    i ←
        try_catch (sv.sign_up_email email password name)
          (λ e. if is_duplicate_email_error e then throw email_registered else throw e)
    persisted ← gets (λ db. any (λ (b : BaUser). b.id === i) db.ba_users)
    throw_if (not persisted) email_registered
    pure i

  unfoldable pub register_checked :
      SignupDto → String → Draws → SignupCheck → Action World SignupResponse
  register_checked dto name draws c = do
    i ← on_db (sign_up dto.email dto.password name)
    finish_registration (new_user dto c i unverified none) dto.next true dto.email draws

  unfoldable pub register :
      Surroundings → SignupDto → String → Bool → Draws → Action World SignupResponse
  register env dto name captcha draws = do
    throw_if (not captcha) captcha_failed
    on_db (check_signup env dto) >>= register_checked dto name draws

  -- The account that a first step of the wizard left behind, or a new one with a placeholder.
  unfoldable pub placeholder_account : String → String → Action Db ⊤
  placeholder_account email placeholder db =
      elim (find? (λ (b : BaUser). b.email === email) db.ba_users) [
        | some b ↦
            throw_if
              (b.email_verified || any (λ (u : SaUser). u.better_auth_user_id === b.id) db.users)
              email_registered db
        | none ↦ (sign_up email placeholder "" >>= λ i. pure tt) db
      ]

  unfoldable pub start_registration : String → String → Bool → String → Action Db ⊤
  start_registration email app_public_id captcha placeholder = do
    throw_if (not captcha) captcha_failed
    app ← or_throw (← gets (find_app app_public_id)) (not_found (plain "App not found"))
    placeholder_account email placeholder
    sv.send_verification_code email

  unfoldable pub verify_registration_code : String → String → Action Db ⊤
  verify_registration_code email otp =
      try_catch (sv.check_verification_otp email otp) (λ e. throw (map_otp_error e))

  -- The name of the account is not a column that is modelled, so its update is left out.
  unfoldable pub complete_registration :
      Surroundings → SignupDto → String → Option Bool → Draws → Action World SignupResponse
  complete_registration env dto otp marketing draws = do
    c ← on_db (check_signup env dto)
    i ← on_db (try_catch (sv.verify_email_otp dto.email otp) (λ e. throw (map_otp_error e)))
    on_db (sv.reset_password i dto.password)
    finish_registration (new_user dto c i active (some (get_or marketing false))) dto.next false
        dto.email draws

-- ===== src/Registration/Redirect.antt =====
-- apps/auth-server/src/registration/registration.service.ts: where a new user is sent back to, and
-- what the code for it is bound to. The parser of `next` and its search parameters is a parameter.
use sassy_auth.Common.{
  String, Bool, true, false, not, ◌&&◌, ◌||◌, Option, none, some, [], ◌∷◌, ◌===◌, if◌then◌else◌,
  filter, is_truthy, is_text, Result, ok, err,
}
use sassy_auth.RedirectUri.{Url, RedirectUriApp, login, same_kind, assert_redirect_uri_allowed}
use sassy_auth.Db.{SaApp}

-- A parsed `next`: its path, and `searchParams.get`.
pub record NextUrl : Type 0 where
  pub pathname : String
  pub search_param : String → Option String

pub record RecoveredAuthorizeParams : Type 0 where
  pub redirect_uri : String
  pub code_challenge : Option String
  pub code_challenge_method : Option String
  pub state : Option String
  pub nonce : Option String

abbrev pub oauth_authorize_path : String
oauth_authorize_path = "/api/token/oauth/authorize"

-- `recoverAuthorizeParams` on a URL that parsed
unfoldable pub recovered_from : NextUrl → String → Option RecoveredAuthorizeParams
recovered_from url app_public_id =
    if not (url.pathname === oauth_authorize_path)
      || not (is_text (url.search_param "client_id") app_public_id)
    then none
    else elim (url.search_param "redirect_uri") [
      | none ↦ none
      | some uri ↦
          if uri === ""
          then none
          else some (record {
            redirect_uri = uri;
            code_challenge = url.search_param "code_challenge";
            code_challenge_method = url.search_param "code_challenge_method";
            state = url.search_param "state";
            nonce = url.search_param "nonce";
          })
    ]

-- `recoverAuthorizeParams`; `parse_next` is `none` where `new URL(next)` throws.
unfoldable pub recover_authorize_params :
    (String → Option NextUrl) → Option String → String → Option RecoveredAuthorizeParams
recover_authorize_params parse_next none app_public_id = none
recover_authorize_params parse_next (some next) app_public_id =
    if next === ""
    then none
    else elim (parse_next next) [ none ↦ none | some url ↦ recovered_from url app_public_id ]

-- The values of `redirectUri`, `codeChallenge` with its method, `state` and `nonce`.
pub record SignupRedirect : Type 0 where
  pub redirect_uri : String
  pub code_challenge : Option String
  pub state : Option String
  pub nonce : Option String

-- `recovered.codeChallenge && recovered.codeChallengeMethod === 'S256'`
unfoldable pub s256_challenge : RecoveredAuthorizeParams → Option String
s256_challenge r =
    if is_truthy r.code_challenge && is_text r.code_challenge_method "S256"
    then r.code_challenge
    else none

abbrev is_ok : {A : Type 0} → Result A → Bool
is_ok (ok a) = true
is_ok (err e) = false

-- The app as `assertRedirectUriAllowed` is given it: with its login URIs.
abbrev pub login_app : SaApp → RedirectUriApp
login_app app = record {
  url = app.redirects.url;
  redirect_uris = filter (λ r. same_kind r.kind login) app.redirects.redirect_uris;
}

-- The first login URI that was registered, for a confidential client.
unfoldable pub oldest_login_uri : SaApp → Option SignupRedirect
oldest_login_uri app =
    if not (is_truthy app.client_secret_hash) then none else elim (login_app app).redirect_uris [
      | [] ↦ none
      | r ∷ rs ↦
          some (record { redirect_uri = r.uri; code_challenge = none; state = none; nonce = none })
    ]

-- The recovered URI where the app allows it, else the oldest one of a confidential client.
unfoldable pub choose_redirect :
    (String → Option Url) → SaApp → Option RecoveredAuthorizeParams → Option SignupRedirect
choose_redirect parse_url app none = oldest_login_uri app
choose_redirect parse_url app (some r) =
    if is_ok (assert_redirect_uri_allowed parse_url r.redirect_uri (login_app app))
    then some (record {
      redirect_uri = r.redirect_uri;
      code_challenge = s256_challenge r;
      state = r.state;
      nonce = r.nonce;
    })
    else oldest_login_uri app

-- `redirectUri && (codeChallenge || isConfidential)`
unfoldable pub may_issue : SaApp → SignupRedirect → Bool
may_issue app r =
    not (r.redirect_uri === "") && (is_truthy r.code_challenge || is_truthy app.client_secret_hash)

-- What a code is issued for, where one is.
unfoldable pub signup_redirect :
    (String → Option Url) → SaApp → Option RecoveredAuthorizeParams → Option SignupRedirect
signup_redirect parse_url app recovered = elim (choose_redirect parse_url app recovered) [
  | none ↦ none
  | some r ↦ if may_issue app r then some r else none
]

-- ===== src/TokenEndpoint/Authorize/Handler.antt =====
-- The stages of the authorization endpoint behind its checks: `oauthAuthorize` of
-- apps/auth-server/src/token/token.controller.ts from the session on, and its `catch` block.
use sassy_auth.Common.{
  String, Bool, not, ◌&&◌, ◌||◌, none, some, List, [], ◌∷◌, ◌==◌, ◌===◌, is_truthy, get_or,
  if◌then◌else◌, filter, bare, Exception, unauthorized, ok, err, Action, ◌>>=◌, ◌>>◌, pure, throw,
  gets, or_throw, throw_if, try_catch,
}
use sassy_auth.Db.{SaApp, SaUser}
use sassy_auth.Access.{find_user_by_ba_id}
use sassy_auth.OauthCode
use sassy_auth.OauthCode.{s256, generate_code}
use sassy_auth.Platform.{Platform}
use sassy_auth.Queries.{find_org_by_id}
use sassy_auth.SignIn.{is_active, is_two_factor_required}
use sassy_auth.TokenEndpoint.{no_such_user, join_words}
use sassy_auth.TokenService.{parse_scopes, truthy_claim}
use sassy_auth.World.{World, on_codes}
use sassy_auth.TokenEndpoint.Authorize.{
  AuthorizeRequest, AuthSession, Visit, Params, Redirect, to_login, to_enrollment, to_error_page,
  user_org_mismatch, derive_auth_methods, extract_token_error_code, unless_empty, concat_params,
  resolve_client, client_redirect, client_error, prompts, usable_session,
}

module _ (p : Platform) (q : AuthorizeRequest) where
  unfoldable pub challenge_params : Params
  challenge_params =
      if is_truthy q.code_challenge
      then ("code_challenge", get_or q.code_challenge "") ∷ ("code_challenge_method", "S256") ∷ []
      else []

  -- The answer where the user has to sign in again.
  unfoldable pub reauthenticate : Visit → Action World Redirect
  reauthenticate v =
      if prompts p q "none"
      then client_error p q "login_required" "No active session satisfying the request"
      else if not (is_truthy v.admin_url)
      then throw (unauthorized bare)
      else pure (
          to_login (get_or v.admin_url "") (
            ("client_id", q.client_id)
            ∷ ("redirect_uri", q.redirect_uri)
            ∷ ("scope", q.scope)
            ∷ concat_params (unless_empty "nonce" q.nonce)
                (concat_params challenge_params (unless_empty "state" q.state))))

  -- The answer where the app requires a second factor that the user has not set up. A parameter
  -- that is missing is written as the text `undefined`.
  unfoldable pub enroll : Visit → Action World Redirect
  enroll v =
      if prompts p q "none"
      then client_error p q "interaction_required" "Two-factor enrollment required"
      else if not (is_truthy v.admin_url)
      then throw no_such_user
      else pure (
          to_enrollment (get_or v.admin_url "") (
            ("client_id", q.client_id)
            ∷ ("redirect_uri", q.redirect_uri)
            ∷ ("code_challenge", get_or q.code_challenge "undefined")
            ∷ ("code_challenge_method", get_or q.code_challenge_method "undefined")
            ∷ concat_params (unless_empty "state" q.state)
                (concat_params (unless_empty "scope" q.scope) (unless_empty "nonce" q.nonce))))

  abbrev pub must_enroll : SaApp → AuthSession → Bool
  must_enroll app s =
      is_two_factor_required p.platform_requires_two_factor app.require_two_factor app.is_platform
      && not s.two_factor_enabled

  unfoldable pub granted_scopes : SaApp → List String
  granted_scopes app =
      filter (λ s. not (s === "offline_access") || app.allow_offline_access)
        (parse_scopes p.words (some q.scope))

  -- The arguments of `generateCode`.
  unfoldable pub code_request : Visit → SaApp → AuthSession → SaUser → OauthCode.CodeRequest
  code_request v app s user =
      let (amr, idp) = derive_auth_methods s.sign_in_method s.two_factor_enabled in
      record {
        user_id = user.public_id;
        app_public_id = app.public_id;
        redirect_uri = q.redirect_uri;
        code_challenge = truthy_claim q.code_challenge;
        code_challenge_method = if is_truthy q.code_challenge then some s256 else none;
        amr = amr;
        nonce = truthy_claim (some q.nonce);
        scope = join_words (granted_scopes app);
        auth_time = get_or s.created_at v.now;
        idp = idp;
      }

  -- The code, and the redirect that carries it.
  unfoldable pub issue_code : Visit → SaApp → AuthSession → SaUser → Action World Redirect
  issue_code v app s user = do
    code ← on_codes (generate_code p.json (code_request v app s user) v.new_code v.now)
    client_redirect p q (("code", code) ∷ [])

  -- The checks of the session's user; the foreign key makes the organisation `some`.
  unfoldable pub check_session_user : SaApp → AuthSession → Action World SaUser
  check_session_user app s = do
    user ← or_throw (← gets (λ w. find_user_by_ba_id s.user_id w.db)) no_such_user
    org ← or_throw (← gets (λ w. find_org_by_id user.org_id w.db)) no_such_user
    throw_if (not (is_active user.status)) no_such_user
    throw_if (not (org.app_id == app.id)) user_org_mismatch
    pure user

  unfoldable pub with_session : Visit → SaApp → AuthSession → Action World Redirect
  with_session v app s = do
    user ← check_session_user app s
    if must_enroll app s then enroll v else issue_code v app s user

  unfoldable pub with_client : Visit → SaApp → Action World Redirect
  with_client v app = elim (usable_session p q v) [
    | none ↦ reauthenticate v
    | some s ↦ with_session v app s
  ]

  abbrev pub oauth_error : String → String
  oauth_error code =
      if code === "USER_ORG_MISMATCH" || code === "USER_NOT_FOUND"
      then "access_denied"
      else "invalid_request"

  -- The `catch` block, where the redirect URI was validated.
  unfoldable pub refuse_to_client : Exception → Action World Redirect
  refuse_to_client e = elim (extract_token_error_code e) [
    | none ↦ throw e
    | some code ↦ client_error p q (oauth_error code) code
  ]

  -- The `catch` block, where it was not.
  unfoldable pub refuse_to_admin : Visit → Exception → Action World Redirect
  refuse_to_admin v e = elim (extract_token_error_code e) [
    | none ↦ throw e
    | some code ↦
        if is_truthy v.admin_url
        then pure (
            to_error_page (get_or v.admin_url "") (("code", code) ∷ unless_empty "app" q.client_id))
        else throw e
  ]

  -- `oauthAuthorize`
  unfoldable pub oauth_authorize : Visit → Action World Redirect
  oauth_authorize v w =
      let (r, w') = resolve_client p q w in
      elim r [
        | ok app ↦ try_catch (with_client v app) refuse_to_client w'
        | err e ↦ refuse_to_admin v e w'
      ]

-- ===== src/TokenEndpoint/Logout.antt =====
-- GET and POST /api/token/oauth/logout: `handleOauthLogout` of
-- apps/auth-server/src/token/token.controller.ts. The verification of the hint and BetterAuth's
-- `signOut` are arguments.
pub mod Answers
use sassy_auth.Common.{
  ℕ, String, false, ◌||◌, Option, none, some, ⊤, List, [], not, ◌&&◌, count_where, filter,
  Exception, try_catch, ◌≡◌, ◌⊎◌, inl, inr, refl, sym, subst, arith, ◌===◌, if◌then◌else◌,
  Option-cases, Bool-cases, Result, Result-cases, ok, err, type_error, Action, ◌>>=◌, ◌>>◌, pure,
  gets, modify, or_throw,
}
use sassy_auth.Db.{SaApp, Db}
use sassy_auth.Platform.{Platform}
use sassy_auth.Queries.{find_app}
use sassy_auth.RedirectUri.{
  registered, post_logout, Matches, assert_post_logout_redirect_uri_allowed, assert_post_logout_iff,
}
use sassy_auth.RefreshToken.{is_live, Table, revoke_for_user_app}
use sassy_auth.RefreshToken.Revocation.{is_grant_of, revoke_for_user_app_lem}
use sassy_auth.TokenEndpoint.Authorize.{Params, unless_empty}
use sassy_auth.World.{World, on_db, on_refresh}
use mathlib.Core.List.{Memᴰ}

pub record LogoutRequest : Type 0 where
  pub id_token_hint : String
  pub post_logout_redirect_uri : String
  pub state : String

-- The claims of the hint; an absent one is empty.
pub record HintClaims : Type 0 where
  pub aud : String
  pub sub : String

-- What the handler calls: `jwt.verify` with the server's key and issuer, `none` where it throws,
-- and `signOut` with the cookies of the request, which answers the cookies to set.
pub record LogoutCalls : Type 0 where
  pub jwt_verify : String → Option HintClaims
  pub sign_out : Action Db (List String)

pub data LogoutRedirect : Type 0 where
  logged_out : LogoutRedirect
  to_relying_party : String → Params → LogoutRedirect

-- The answer: the header `set-cookie`, and the redirect.
pub record LogoutResponse : Type 0 where
  pub cookies : List String
  pub redirect : LogoutRedirect

module _ (p : Platform) (calls : LogoutCalls) (q : LogoutRequest) where
  -- `verifyAccessToken`
  unfoldable pub verify_access_token : String → Option HintClaims
  verify_access_token token = elim (calls.jwt_verify token) [
    | none ↦ none
    | some c ↦ if c.sub === "" then none else some c
  ]

  -- The revocation of the subject's refresh tokens for the audience.
  unfoldable pub revoke_hinted : HintClaims → ℕ → Action Table ⊤
  revoke_hinted c now = if c.sub === "" then pure tt else revoke_for_user_app c.sub c.aud now

  -- Where the browser goes, for the app of the audience.
  unfoldable pub leave_for : Option SaApp → Action World LogoutRedirect
  leave_for none = pure logged_out
  leave_for (some app) =
      elim (assert_post_logout_redirect_uri_allowed p.parse_url q.post_logout_redirect_uri
        app.redirects) [
          | err e ↦ pure logged_out
          | ok u ↦ do
            url ← or_throw (p.parse_url q.post_logout_redirect_uri) type_error
            pure (to_relying_party q.post_logout_redirect_uri (unless_empty "state" q.state))
        ]

  unfoldable pub leave : HintClaims → ℕ → Action World LogoutRedirect
  leave c now =
      if c.aud === ""
      then pure logged_out
      else do on_refresh (revoke_hinted c now); app ← gets (λ w. find_app c.aud w.db); leave_for app

  -- The redirect, once the session is ended.
  unfoldable pub redirect_after : ℕ → Action World LogoutRedirect
  redirect_after now =
      if q.id_token_hint === "" || q.post_logout_redirect_uri === ""
      then pure logged_out
      else elim (verify_access_token q.id_token_hint) [
        | none ↦ pure logged_out
        | some c ↦ leave c now
      ]

  -- `signOut`, whose error is swallowed: no cookie is set then.
  unfoldable pub end_session : Action World (List String)
  end_session = on_db (try_catch calls.sign_out (λ e. pure []))

  -- `handleOauthLogout`
  unfoldable pub handle_oauth_logout : ℕ → Action World LogoutResponse
  handle_oauth_logout now = do
    cookies ← end_session
    redirect ← redirect_after now
    pure (record { cookies = cookies; redirect = redirect })

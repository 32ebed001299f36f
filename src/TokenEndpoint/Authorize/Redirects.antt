-- ===== src/TokenEndpoint/Authorize/Redirects.antt =====
-- Where the authorization endpoint sends a browser: no open redirect.
use sassy_auth.Common.{
  String, [], ◌∷◌, ◌≡◌, ◌≢◌, inl, inr, arith, if◌then◌else◌, Option-cases, Bool-cases, Result-cases,
  Exception, ok, Action, >>=-eq-ok, try_catch,
}
use sassy_auth.Db.{SaApp, SaUser}
use sassy_auth.OauthCode.{generate_code}
use sassy_auth.Platform.{Platform}
use sassy_auth.World.{World, on_codes}
use sassy_auth.TokenEndpoint.Authorize.{
  AuthorizeRequest, AuthSession, Visit, Params, Redirect, to_client, resolve_client,
  client_redirect, client_error, usable_session,
}
use sassy_auth.TokenEndpoint.Authorize.Handler.{
  check_session_user, code_request, issue_code, must_enroll, enroll, reauthenticate, with_session,
  with_client, refuse_to_client, refuse_to_admin, oauth_authorize,
}
use sassy_auth.TokenEndpoint.Authorize.Stages.{
  IsResolved, resolve_client-reads, resolve_client-eq-ok, client_redirect-home,
}

module _ (p : Platform) (q : AuthorizeRequest) (v : Visit) (uri : String) (ps : Params) where
  -- A stage that answers a redirect to the client answers one to the redirect URI of the request.
  abbrev IsHome : Action World Redirect → Type 0
  IsHome m = (w w' : World) → m w ≡ (ok (to_client uri ps), w') → uri ≡ q.redirect_uri

  reauthenticate-IsHome : IsHome (reauthenticate p q v)
  unfolding reauthenticate client_error client_redirect
  reauthenticate-IsHome w w' h = ground arith

  enroll-IsHome : IsHome (enroll p q v)
  unfolding enroll client_error client_redirect
  enroll-IsHome w w' h = ground arith

  issue_code-IsHome :
      (app : SaApp) (s : AuthSession) (user : SaUser) → IsHome (issue_code p q v app s user)
  unfolding issue_code
  issue_code-IsHome app s user w w' h =
      let (code, t, made, rest) =
        >>=-eq-ok (on_codes (generate_code p.json (code_request p q v app s user) v.new_code v.now))
          (λ code. client_redirect p q (("code", code) ∷ [])) w w' (to_client uri ps) h in
      client_redirect-home p q (("code", code) ∷ []) ps uri t w' rest

  with_session-IsHome : (app : SaApp) (s : AuthSession) → IsHome (with_session p q v app s)
  unfolding with_session
  with_session-IsHome app s w w' h =
      let (user, t, passed, rest) =
        >>=-eq-ok (check_session_user p q app s)
          (λ user. if must_enroll p q app s then enroll p q v else issue_code p q v app s user) w w'
          (to_client uri ps) h in
      elim (Bool-cases (must_enroll p q app s)) [
        | inl missing ↦ enroll-IsHome t w' (ground arith)
        | inr enough ↦ issue_code-IsHome app s user t w' (ground arith)
      ]

  with_client-IsHome : (app : SaApp) → IsHome (with_client p q v app)
  unfolding with_client
  with_client-IsHome app w w' h = elim (Option-cases (usable_session p q v)) [
    | inl unusable ↦ reauthenticate-IsHome w w' (ground arith)
    | inr (s, usable) ↦ with_session-IsHome app s w w' (ground arith)
  ]

  refuse_to_client-IsHome : (e : Exception) → IsHome (refuse_to_client p q e)
  unfolding refuse_to_client client_error client_redirect
  refuse_to_client-IsHome e w w' h = ground arith

  caught-IsHome : (app : SaApp) → IsHome (try_catch (with_client p q v app) (refuse_to_client p q))
  caught-IsHome app w w' h =
      let first = with_client p q v app w in
      elim (Result-cases first.0) [
        | inl (a, answered) ↦ with_client-IsHome app w w' (ground arith)
        | inr (e, failed) ↦ refuse_to_client-IsHome e first.1 w' (ground arith)
      ]

  refuse_to_admin_lem :
      (e : Exception) (w w' : World) → refuse_to_admin p q v e w ≢ (ok (to_client uri ps), w')
  unfolding refuse_to_admin
  refuse_to_admin_lem e w w' h = ground arith

  -- No open redirect: where a browser is sent to a client, with a code or with an error, it is sent
  -- to the redirect URI of the request, and that one is accepted by the app that the client id
  -- names, for a request with an S256 challenge or an app with a secret.
  pub oauth_authorize_redirects :
      (w w' : World)
      → oauth_authorize p q v w ≡ (ok (to_client uri ps), w')
      → (uri ≡ q.redirect_uri) × (app : SaApp) × IsResolved p q w.db app
  unfolding oauth_authorize
  oauth_authorize_redirects w w' h =
      let reads = resolve_client-reads p q w in
      elim (Result-cases (resolve_client p q w).0) [
        | inr (e, refused) ↦ elim (refuse_to_admin_lem e w w' (ground arith)) [ ]
        | inl (app, found) ↦
            let (same, resolved) = resolve_client-eq-ok p q app w w (ground arith) in
            (caught-IsHome app w w' (ground arith), app, resolved)
      ]

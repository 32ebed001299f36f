-- ===== src/TokenEndpoint/Authorize/Issued.antt =====
-- Who gets an authorization code, and where a browser is sent back to.
use sassy_auth.Common.{
  if◌then◌else◌, true, false, ◌||◌, some, ◌∷◌, ◌≡◌, ◌⊎◌, inl, inr, refl, arith, subst, any,
  Option-cases, Bool-cases, Result, Result-cases, Exception, prisma_error, p2002, ok, err,
  try_catch,
}
use sassy_auth.Db.{SaApp, SaUser, SaOrg}
use sassy_auth.OauthCode.{generate_code, generated, create, has_code}
use sassy_auth.Platform.{Platform}
use sassy_auth.RedirectUri.{Url}
use sassy_auth.SignIn.{is_two_factor_required}
use sassy_auth.World.{World}
use sassy_auth.TokenEndpoint.Authorize.{
  AuthorizeRequest, AuthSession, Visit, Redirect, to_client, resolve_client, client_redirect,
  client_error, usable_session, is_stale, prompts, unless_empty,
}
use sassy_auth.TokenEndpoint.Authorize.Handler.{
  check_session_user, code_request, issue_code, must_enroll, enroll, reauthenticate, with_session,
  with_client, refuse_to_client, refuse_to_admin, oauth_authorize,
}
use sassy_auth.TokenEndpoint.Authorize.Entry.{IsEntry, generated-IsEntry}
use sassy_auth.TokenEndpoint.Authorize.Stages.{
  IsResolved, IsMember, resolve_client-reads, resolve_client-eq-ok, check_session_user-reads,
  check_session_user-eq-ok, allowed-parses,
}

module _ (p : Platform) (q : AuthorizeRequest) (v : Visit) where
  -- The session that the flow goes on with, and why it may.
  pub record IsUsable (app : SaApp) (s : AuthSession) : Type 0 where
    pub given : v.session ≡ some s
    pub no_login : prompts p q "login" ≡ false
    pub fresh : is_stale p q v s ≡ false
    pub second_factor :
        (is_two_factor_required p.platform_requires_two_factor app.require_two_factor
            app.is_platform
          ≡ false)
        ⊎ (s.two_factor_enabled ≡ true)

  -- A code was issued: to whom, and what was written and answered.
  pub record IsIssued (app : SaApp) (w : World) (r : Result Redirect) (w' : World) : Type 0 where
    pub session : AuthSession
    pub user : SaUser
    pub org : SaOrg
    pub usable : IsUsable app session
    pub member : IsMember w.db app session user org
    pub codes : w' ≡ record w {
      codes = generated p.json (code_request p q v app session user) v.new_code v.now ∷ w.codes;
    }
    pub entry :
        IsEntry p q v app session user
          (generated p.json (code_request p q v app session user) v.new_code v.now)
    pub answer :
        r ≡ ok (to_client q.redirect_uri (("code", v.new_code) ∷ unless_empty "state" q.state))

  usable_session_lem :
      (s : AuthSession)
      → usable_session p q v ≡ some s
      → (v.session ≡ some s) × (prompts p q "login" ≡ false) × (is_stale p q v s ≡ false)
  unfolding usable_session
  usable_session_lem s h = elim (Option-cases v.session) [
    | inl absent ↦ ground arith
    | inr (s', given) ↦ elim (Bool-cases (prompts p q "login" || is_stale p q v s')) [
      | inl again ↦ ground arith
      | inr enough ↦
          let e : s' ≡ s = ground arith in
          (ground arith, ground arith, subst (λ x. is_stale p q v x ≡ false) e (ground arith))
    ]
  ]

  enrolled :
      (app : SaApp) (s : AuthSession)
      → must_enroll p q app s ≡ false
      → (is_two_factor_required p.platform_requires_two_factor app.require_two_factor
            app.is_platform
          ≡ false)
        ⊎ (s.two_factor_enabled ≡ true)
  enrolled app s h = elim (Bool-cases s.two_factor_enabled) [
    | inl set_up ↦ inr set_up
    | inr missing ↦ inl (ground arith)
  ]

  -- Issuing either changes nothing, or writes the code and answers it.
  issue_code_cases :
      (app : SaApp) (s : AuthSession) (user : SaUser) (url : Url) (w : World)
      → p.parse_url q.redirect_uri ≡ some url
      → (issue_code p q v app s user w ≡ (err (prisma_error p2002), w))
        ⊎ (issue_code p q v app s user w ≡ (
          ok (to_client q.redirect_uri (("code", v.new_code) ∷ unless_empty "state" q.state)),
          record w {
            codes = generated p.json (code_request p q v app s user) v.new_code v.now ∷ w.codes;
          },
        ))
  unfolding issue_code generate_code create client_redirect generated
  issue_code_cases app s user url w parsed = elim (Bool-cases (any (has_code v.new_code) w.codes)) [
    | inl taken ↦ inl (ground arith)
    | inr free ↦ inr (ground arith)
  ]

  reauthenticate-reads : (w : World) → (reauthenticate p q v w).1 ≡ w
  unfolding reauthenticate client_error client_redirect
  reauthenticate-reads w = ground arith

  enroll-reads : (w : World) → (enroll p q v w).1 ≡ w
  unfolding enroll client_error client_redirect
  enroll-reads w = ground arith

  -- A stage changes nothing, or a code was issued.
  abbrev Outcome : SaApp → World → Result Redirect → World → Type 0
  Outcome app w r w' = (w' ≡ w) ⊎ IsIssued app w r w'

  member_cases :
      (app : SaApp) (s : AuthSession) (user : SaUser) (org : SaOrg) (url : Url) (w w' : World)
      (r : Result Redirect)
      → p.parse_url q.redirect_uri ≡ some url
      → usable_session p q v ≡ some s
      → IsMember w.db app s user org
      → (if must_enroll p q app s then enroll p q v else issue_code p q v app s user) w ≡ (r, w')
      → Outcome app w r w'
  member_cases app s user org url w w' r parsed usable member h =
      elim (Bool-cases (must_enroll p q app s)) [
        | inl missing ↦ inl (ground (arith, enroll-reads w))
        | inr enough ↦ elim (issue_code_cases app s user url w parsed) [
          | inl failed ↦ inl (ground arith)
          | inr issued ↦
              let (given, no_login, fresh) = usable_session_lem s usable in
              inr (record {
                session = s;
                user = user;
                org = org;
                usable = record {
                  given = given;
                  no_login = no_login;
                  fresh = fresh;
                  second_factor = enrolled app s enough;
                };
                member = member;
                codes = ground arith;
                entry = generated-IsEntry p q v app s user;
                answer = ground arith;
              })
        ]
      ]

  with_session_cases :
      (app : SaApp) (s : AuthSession) (url : Url) (w w' : World) (r : Result Redirect)
      → p.parse_url q.redirect_uri ≡ some url
      → usable_session p q v ≡ some s
      → with_session p q v app s w ≡ (r, w')
      → Outcome app w r w'
  unfolding with_session
  with_session_cases app s url w w' r parsed usable h =
      let reads = check_session_user-reads p q app s w in
      elim (Result-cases (check_session_user p q app s w).0) [
        | inr (e, refused) ↦ inl (ground arith)
        | inl (user, passed) ↦
            let (same, org, member) = check_session_user-eq-ok p q app s user w w (ground arith) in
            member_cases app s user org url w w' r parsed usable member (ground arith)
      ]

  with_client_cases :
      (app : SaApp) (url : Url) (w w' : World) (r : Result Redirect)
      → p.parse_url q.redirect_uri ≡ some url
      → with_client p q v app w ≡ (r, w')
      → Outcome app w r w'
  unfolding with_client
  with_client_cases app url w w' r parsed h = elim (Option-cases (usable_session p q v)) [
    | inl unusable ↦ inl (ground (arith, reauthenticate-reads w))
    | inr (s, usable) ↦ with_session_cases app s url w w' r parsed usable (ground arith)
  ]

  refuse_to_client-reads : (e : Exception) (w : World) → (refuse_to_client p q e w).1 ≡ w
  unfolding refuse_to_client client_error client_redirect
  refuse_to_client-reads e w = ground arith

  refuse_to_admin-reads : (e : Exception) (w : World) → (refuse_to_admin p q v e w).1 ≡ w
  unfolding refuse_to_admin
  refuse_to_admin-reads e w = ground arith

  caught_cases :
      (app : SaApp) (url : Url) (w w' : World) (r : Result Redirect)
      → p.parse_url q.redirect_uri ≡ some url
      → try_catch (with_client p q v app) (refuse_to_client p q) w ≡ (r, w')
      → Outcome app w r w'
  caught_cases app url w w' r parsed h =
      let first = with_client p q v app w in
      elim (Result-cases first.0) [
        | inl (a, answered) ↦ with_client_cases app url w w' r parsed (ground arith)
        | inr (e, failed) ↦ elim (with_client_cases app url w first.1 first.0 parsed refl) [
          | inl same ↦ inl (ground (arith, refuse_to_client-reads e w))
          | inr issued ↦ let answer = issued.answer in ground arith
        ]
      ]

  -- A request to authorize changes nothing but that it may add one code. It adds one only where all
  -- of this holds: the client id names an app that accepts the redirect URI; the request has an
  -- S256 challenge, or none and the app has a secret; there is a session, no older than the request
  -- allows, and the request does not ask for a new login; the session's user is active and of a
  -- tenant of the app; and the user has a second factor where the app requires it. The code's row
  -- names that user, the app, the redirect URI, the challenge, the nonce and the granted scopes of the
  -- request and the methods of the session, for five minutes; the code is sent to the redirect URI.
  pub oauth_authorize_issues :
      (w w' : World) (r : Result Redirect)
      → oauth_authorize p q v w ≡ (r, w')
      → (w' ≡ w) ⊎ ((app : SaApp) × IsResolved p q w.db app × IsIssued app w r w')
  unfolding oauth_authorize
  oauth_authorize_issues w w' r h =
      let reads = resolve_client-reads p q w in
      elim (Result-cases (resolve_client p q w).0) [
        | inr (e, refused) ↦ inl (ground (arith, refuse_to_admin-reads e w))
        | inl (app, found) ↦
            let (same, resolved) = resolve_client-eq-ok p q app w w (ground arith) in
            let (url, parsed) = allowed-parses p q app.redirects resolved.redirect in
            elim (caught_cases app url w w' r parsed (ground arith)) [
              | inl unchanged ↦ inl unchanged
              | inr issued ↦ inr (app, resolved, issued)
            ]
      ]

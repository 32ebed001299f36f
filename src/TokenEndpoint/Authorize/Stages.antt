-- ===== src/TokenEndpoint/Authorize/Stages.antt =====
-- What each stage of the authorization endpoint asks for, and what it leaves.
use sassy_auth.Common.{
  String, true, false, Option, none, some, List, [], ◌∷◌, ⊤, sym, subst, ◌∙◌, ◌>>◌, pure, ◌≡◌, ◌≢◌,
  ◌⊎◌, inl, inr, refl, arith, ◌===◌, ◌==◌, is_truthy, is_some, get_or, any, Option-cases,
  Bool-cases, Result-cases, ok, eq_iff, >>=-eq-ok,
}
use sassy_auth.Db.{SaApp, SaUser, SaOrg, active, Db}
use sassy_auth.Access.{find_user_by_ba_id}
use sassy_auth.Platform.{Platform}
use sassy_auth.Queries.{find_org_by_id}
use sassy_auth.RedirectUri.{
  login, Url, RedirectUriApp, assert_redirect_uri_allowed, allowed_by, registered, same_origin,
  is_exact_match,
}
use sassy_auth.SignIn.{is_active, active_iff}
use sassy_auth.World.{World}
use sassy_auth.TokenEndpoint.{find_client, require_redirect}
use sassy_auth.TokenEndpoint.Clients.{IsClient, find_client-eq-ok}
use sassy_auth.TokenEndpoint.Authorize.{
  AuthorizeRequest, AuthSession, Params, to_client, check_pkce, resolve_client, client_redirect,
}
use sassy_auth.TokenEndpoint.Authorize.Handler.{check_session_user}

-- A request with a challenge names the method S256; one without comes from a confidential client.
abbrev pub IsProtected : AuthorizeRequest → SaApp → Type 0
IsProtected q app =
    ((c : String) × (q.code_challenge ≡ some c)
      × (c ≢ "")
      × (q.code_challenge_method ≡ some "S256"))
    ⊎ ((is_truthy q.code_challenge ≡ false) × (is_some app.client_secret_hash ≡ true))

pub record IsResolved (p : Platform) (q : AuthorizeRequest) (db : Db) (app : SaApp) : Type 0 where
  pub client : IsClient p db q.client_id app
  pub protected : IsProtected q app
  pub redirect : assert_redirect_uri_allowed p.parse_url q.redirect_uri app.redirects ≡ ok tt

-- What holds of the user of a session that passes the checks.
pub record IsMember (db : Db) (app : SaApp) (s : AuthSession) (user : SaUser) (org : SaOrg)
    : Type 0 where
  pub found : find_user_by_ba_id s.user_id db ≡ some user
  pub of : find_org_by_id user.org_id db ≡ some org
  pub status : user.status ≡ active
  pub tenant : org.app_id ≡ app.id

method_lem : (m : Option String) → (get_or m "" === "S256") ≡ true → m ≡ some "S256"
method_lem none h = ground arith
method_lem (some m) h = ground (arith, eq_iff m "S256")

module _ (p : Platform) (q : AuthorizeRequest) where
  check_pkce_lem :
      (app : SaApp) (w w' : World) (u : ⊤)
      → check_pkce p q app w ≡ (ok u, w')
      → (w ≡ w') × IsProtected q app
  unfolding check_pkce
  check_pkce_lem app w w' u h = elim (Option-cases q.code_challenge) [
    | inl absent ↦ ground arith
    | inr (c, given) ↦ elim (Bool-cases (c === "")) [
      | inl empty ↦ ground arith
      | inr full ↦ elim (Bool-cases (get_or q.code_challenge_method "" === "S256")) [
        | inl s256 ↦ (
          ground arith,
          inl (c, given, ground (arith, eq_iff c ""), method_lem q.code_challenge_method s256),
        )
        | inr other ↦ ground arith
      ]
    ]
  ]

  -- The lookup of the client reads only.
  pub resolve_client-reads : (w : World) → (resolve_client p q w).1 ≡ w
  unfolding resolve_client check_pkce find_client
  resolve_client-reads w = ground arith

  accepted_lem :
      (app app' : SaApp) (w w' : World)
      → (do check_pkce p q app; require_redirect p q.redirect_uri app; pure app) w ≡ (ok app', w')
      → (w ≡ w')
        × IsProtected q app
        × (assert_redirect_uri_allowed p.parse_url q.redirect_uri app.redirects ≡ ok tt)
        × (app ≡ app')
  accepted_lem app app' w w' h =
      let (u, s, checked, rest) =
        >>=-eq-ok (check_pkce p q app) (λ u. require_redirect p q.redirect_uri app >> pure app) w w'
          app' h in
      let (same, protected) = check_pkce_lem app w s u checked in
      elim (Result-cases (assert_redirect_uri_allowed p.parse_url q.redirect_uri app.redirects)) [
        | inl (t, allowed) ↦ (ground arith, protected, allowed, ground arith)
        | inr (e, refused) ↦ ground arith
      ]

  -- An app that is resolved is the client's, and the request passed its checks.
  pub resolve_client-eq-ok :
      (app : SaApp) (w w' : World)
      → resolve_client p q w ≡ (ok app, w')
      → (w ≡ w') × IsResolved p q w.db app
  unfolding resolve_client
  resolve_client-eq-ok app w w' h =
      let (a, s, found, rest) =
        >>=-eq-ok (find_client p q.client_id)
          (λ a. do check_pkce p q a; require_redirect p q.redirect_uri a; pure a) w w' app h in
      let (client, same) = find_client-eq-ok p q.client_id w s a found in
      let (same', protected, allowed, e) = accepted_lem a app s w' rest in
      (
        sym same ∙ same',
        subst (IsResolved p q w.db) e
            (record { client = client; protected = protected; redirect = allowed }),
      )

  pub check_session_user-reads :
      (app : SaApp) (s : AuthSession) (w : World) → (check_session_user p q app s w).1 ≡ w
  unfolding check_session_user
  check_session_user-reads app s w = ground arith

  pub check_session_user-eq-ok :
      (app : SaApp) (s : AuthSession) (user : SaUser) (w w' : World)
      → check_session_user p q app s w ≡ (ok user, w')
      → (w ≡ w') × (org : SaOrg) × IsMember w.db app s user org
  unfolding check_session_user
  check_session_user-eq-ok app s user w w' h =
      elim (Option-cases (find_user_by_ba_id s.user_id w.db)) [
        | inl missing ↦ ground arith
        | inr (u, found) ↦ elim (Option-cases (find_org_by_id u.org_id w.db)) [
          | inl missing ↦ ground arith
          | inr (org, of) ↦ elim (Bool-cases (is_active u.status)) [
            | inr blocked ↦ ground arith
            | inl lively ↦ elim (Bool-cases (org.app_id == app.id)) [
              | inr foreign ↦ ground arith
              | inl here ↦
                  let e : u ≡ user = ground arith in
                  (
                    ground arith,
                    org,
                    subst (λ x. IsMember w.db app s x org) e
                        (record {
                          found = found;
                          of = of;
                          status = (active_iff u.status).0 lively;
                          tenant = ground arith;
                        }),
                  )
            ]
          ]
        ]
      ]

  pub client_redirect-reads : (params : Params) (w : World) → (client_redirect p q params w).1 ≡ w
  unfolding client_redirect
  client_redirect-reads params w = ground arith

  pub client_redirect-home :
      (params ps : Params) (uri : String) (w w' : World)
      → client_redirect p q params w ≡ (ok (to_client uri ps), w')
      → uri ≡ q.redirect_uri
  unfolding client_redirect
  client_redirect-home params ps uri w w' h = ground arith

  unmatched :
      (uris : List String)
      → p.parse_url q.redirect_uri ≡ none
      → any (is_exact_match p.parse_url q.redirect_uri) uris ≡ false
  unfolding is_exact_match
  unmatched [] bad = refl
  unmatched (u ∷ us) bad = ground (arith, unmatched us bad)

  unparsed :
      (app : RedirectUriApp) (uris : List String)
      → p.parse_url q.redirect_uri ≡ none
      → allowed_by p.parse_url q.redirect_uri app uris ≡ false
  unfolding allowed_by same_origin
  unparsed app [] bad = ground arith
  unparsed app (u ∷ us) bad = unmatched (u ∷ us) bad

  -- A redirect URI that is allowed parses, so that no redirect to it fails.
  pub allowed-parses :
      (app : RedirectUriApp)
      → assert_redirect_uri_allowed p.parse_url q.redirect_uri app ≡ ok tt
      → (url : Url) × (p.parse_url q.redirect_uri ≡ some url)
  unfolding assert_redirect_uri_allowed
  allowed-parses app h = elim (Option-cases (p.parse_url q.redirect_uri)) [
    | inr (url, parsed) ↦ (url, parsed)
    | inl bad ↦ ground (arith, unparsed app (registered app login) bad)
  ]

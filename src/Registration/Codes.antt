-- ===== src/Registration/Codes.antt =====
-- What a signup code is bound to.
use sassy_auth.Common.{
  String, Bool, true, Option, none, some, List, [], ◌∷◌, map, ◌≡◌, ◌⊎◌, inl, inr, refl, sym, ap,
  subst, ◌∙◌, arith, ok, Result-cases, Option-cases, Bool-cases, All, filter, is_truthy, eq_refl,
}
use sassy_auth.RedirectUri.{
  Url, RedirectUri, login, same_kind, same_url, registered, is_exact_match, allowed_by,
  assert_redirect_uri_allowed, accept_if,
}
use sassy_auth.Db.{SaApp}
use sassy_auth.Apps.Redirects.{IsHttp}
use sassy_auth.Registration.Redirect.{
  RecoveredAuthorizeParams, SignupRedirect, login_app, oldest_login_uri, choose_redirect, may_issue,
  signup_redirect,
}

filter_twice : {A : Type 0} (p : A → Bool) (xs : List A) → filter p (filter p xs) ≡ filter p xs
filter_twice p [] = refl
filter_twice p (x ∷ xs) = ground (arith, filter_twice p xs)

List-cases : {A : Type 0} (xs : List A) → (xs ≡ []) ⊎ ((y : A) × (ys : List A) × (xs ≡ y ∷ ys))
List-cases [] = inl refl
List-cases (x ∷ xs) = inr (x, xs, refl)

first_selected :
    {A : Type 0} (P : A → Type 0) (p : A → Bool) (xs : List A) (y : A) (ys : List A)
    → All P xs
    → filter p xs ≡ y ∷ ys
    → P y
first_selected P p [] y ys h e = cc
first_selected P p (x ∷ xs) y ys h e = elim (Bool-cases (p x)) [
  | inl picked ↦ subst P (ground arith) h.0
  | inr left ↦ first_selected P p xs y ys h.1 (ground arith)
]

module _ (parse_url : String → Option Url) (app : SaApp) where
  registered-login_app : registered (login_app app) login ≡ registered app.redirects login
  unfolding registered
  registered-login_app =
      ap (map (λ (r : RedirectUri). r.uri))
        (filter_twice (λ r. same_kind r.kind login) app.redirects.redirect_uris)

  same_allowed :
      (uri : String) (us : List String)
      → allowed_by parse_url uri (login_app app) us ≡ allowed_by parse_url uri app.redirects us
  unfolding allowed_by
  same_allowed uri [] = refl
  same_allowed uri (u ∷ us) = refl

  -- The app that is handed to the check allows what the app allows.
  same_check :
      (uri : String)
      → assert_redirect_uri_allowed parse_url uri (login_app app)
        ≡ assert_redirect_uri_allowed parse_url uri app.redirects
  unfolding assert_redirect_uri_allowed
  same_check uri =
      ap (λ us. accept_if parse_url (allowed_by parse_url uri (login_app app) us))
        registered-login_app
      ∙ ap (λ b. accept_if parse_url b) (same_allowed uri (registered app.redirects login))

  match_self :
      (uri : String) (u : Url) → parse_url uri ≡ some u → is_exact_match parse_url uri uri ≡ true
  unfolding is_exact_match same_url
  match_self uri u parsed =
      ground (arith, eq_refl u.protocol, eq_refl u.host, eq_refl u.pathname, eq_refl u.search)

  first_allowed :
      (r : RedirectUri) (rs : List RedirectUri) (u : Url)
      → filter (λ x. same_kind x.kind login) app.redirects.redirect_uris ≡ r ∷ rs
      → parse_url r.uri ≡ some u
      → assert_redirect_uri_allowed parse_url r.uri app.redirects ≡ ok tt
  unfolding assert_redirect_uri_allowed allowed_by registered
  first_allowed r rs u e parsed = let self = match_self r.uri u parsed in rw e (ground arith)

  -- What a code may be issued for: a URI that the app allows, with a PKCE challenge unless the app
  -- has a client secret.
  pub record IsProtected (r : SignupRedirect) : Type 0 where
    pub allowed : assert_redirect_uri_allowed parse_url r.redirect_uri app.redirects ≡ ok tt
    pub bound : (is_truthy app.client_secret_hash ≡ true) ⊎ (is_truthy r.code_challenge ≡ true)

  oldest-allowed :
      (r : SignupRedirect)
      → All (IsHttp parse_url) app.redirects.redirect_uris
      → oldest_login_uri app ≡ some r
      → assert_redirect_uri_allowed parse_url r.redirect_uri app.redirects ≡ ok tt
  unfolding oldest_login_uri
  oldest-allowed r webs e = elim (Bool-cases (is_truthy app.client_secret_hash)) [
    | inr public ↦ ground arith
    | inl secret ↦
        elim (List-cases (filter (λ x. same_kind x.kind login) app.redirects.redirect_uris)) [
          | inl empty ↦ ground arith
          | inr (x, xs, some_uri) ↦
              let (u, parsed, http) =
                first_selected (IsHttp parse_url) (λ x. same_kind x.kind login)
                  app.redirects.redirect_uris x xs webs some_uri in
              let same : x.uri ≡ r.redirect_uri = ground arith in
              subst (λ uri. assert_redirect_uri_allowed parse_url uri app.redirects ≡ ok tt) same
                (first_allowed x xs u some_uri parsed)
        ]
  ]

  chosen-allowed :
      (recovered : Option RecoveredAuthorizeParams) (r : SignupRedirect)
      → All (IsHttp parse_url) app.redirects.redirect_uris
      → choose_redirect parse_url app recovered ≡ some r
      → assert_redirect_uri_allowed parse_url r.redirect_uri app.redirects ≡ ok tt
  unfolding choose_redirect
  chosen-allowed none r webs e = oldest-allowed r webs e
  chosen-allowed (some q) r webs e =
      elim (Result-cases (assert_redirect_uri_allowed parse_url q.redirect_uri (login_app app))) [
        | inl (u, passed) ↦
            let same : q.redirect_uri ≡ r.redirect_uri = ground arith in
            subst (λ uri. assert_redirect_uri_allowed parse_url uri app.redirects ≡ ok tt) same
              (sym (same_check q.redirect_uri) ∙ passed)
        | inr (x, failed) ↦ oldest-allowed r webs (ground arith)
      ]

  pub signup_redirect-IsProtected :
      (recovered : Option RecoveredAuthorizeParams) (r : SignupRedirect)
      → All (IsHttp parse_url) app.redirects.redirect_uris
      → signup_redirect parse_url app recovered ≡ some r
      → IsProtected r
  unfolding signup_redirect may_issue
  signup_redirect-IsProtected recovered r webs e =
      elim (Option-cases (choose_redirect parse_url app recovered)) [
        | inl nowhere ↦ ground arith
        | inr (q, chosen) ↦ elim (Bool-cases (may_issue app q)) [
          | inr refused ↦ ground arith
          | inl may ↦
              let same : q ≡ r = ground arith in
              subst IsProtected same (record {
                allowed = chosen-allowed recovered q webs chosen;
                bound = elim (Bool-cases (is_truthy app.client_secret_hash)) [
                  | inl secret ↦ inl secret
                  | inr public ↦ inr (ground arith)
                ];
              })
        ]
      ]

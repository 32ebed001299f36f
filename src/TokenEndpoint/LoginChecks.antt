-- ===== src/TokenEndpoint/LoginChecks.antt =====
-- Who is logged in with a password, and what a refusal tells.
use sassy_auth.Common.{
  ℕ, String, true, false, Option, some, List, [], ◌∷◌, ◌≡◌, ◌≢◌, ◌⊎◌, inl, inr, refl, arith,
  Option-cases, Bool-cases, Result-cases, ok, err, ==_iff, >>=-eq-ok, subst, sym, ◌∙◌, Exception,
  ◌==◌,
}
use sassy_auth.Db.{SaApp, SaUser, Db}
use sassy_auth.Queries.{find_org_by_id, find_app_by_id}
use sassy_auth.SignIn.{is_active}
use sassy_auth.Platform.{Platform}
use sassy_auth.TokenService.{issue_jwt}
use sassy_auth.World.{World}
use sassy_auth.TokenEndpoint.{Randoms}
use sassy_auth.TokenEndpoint.Clients.{IsClient}
use sassy_auth.TokenEndpoint.DirectLogin.{
  LoginRequest, LoginResponse, Login, find_identified, detect_identifier_type, password_matches,
  code_matches, is_enrolled, requires_two_factor, second_factor, check_password, check_user,
  find_login_app, check_login, tokens_of_login, direct_login_for, direct_login, jwt_of_login,
  record_login, invalid_credentials, two_factor_required,
}

module _ (p : Platform) (g : LoginRequest) (now : ℕ) where
  abbrev found : Db → Option SaUser
  found db = find_identified (detect_identifier_type g.identifier) g.identifier db

  -- The methods that the tokens name, and what was asked for them.
  abbrev pub Methods : Db → SaApp → SaUser → List String → Type 0
  Methods db app user amr =
      ((amr ≡ "pwd" ∷ [])
        × (requires_two_factor p app ≡ false)
        × (is_enrolled user.better_auth_user_id db ≡ false))
      ⊎ ((amr ≡ "pwd" ∷ "otp" ∷ "mfa" ∷ [])
          × (is_enrolled user.better_auth_user_id db ≡ true)
          × (code_matches p g user now db ≡ true))

  -- What holds of a user who passes the checks.
  pub record MayLogin (db : Db) (app : SaApp) (l : Login) : Type 0 where
    pub same_app : l.app ≡ app
    pub identified : found db ≡ some l.user
    pub password : password_matches p g l.user db ≡ true
    pub org : find_org_by_id l.user.org_id db ≡ some l.org
    pub tenant : l.org.app_id ≡ app.id
    pub is_active : is_active l.user.status ≡ true
    pub methods : Methods db app l.user l.amr

  second_factor-eq-ok :
      (app : SaApp) (user : SaUser) (w w' : World) (amr : List String)
      → second_factor p g app user now w ≡ (ok amr, w')
      → Methods w.db app user amr × (w ≡ w')
  unfolding second_factor
  second_factor-eq-ok app user w w' amr h =
      elim (Bool-cases (is_enrolled user.better_auth_user_id w.db)) [
        | inl enrolled ↦ (inr (ground arith, enrolled, ground arith), ground arith)
        | inr not_enrolled ↦ (inl (ground arith, ground arith, not_enrolled), ground arith)
      ]

  check_password-eq-ok :
      (w w' : World) (user : SaUser)
      → check_password p g w ≡ (ok user, w')
      → (found w.db ≡ some user) × (password_matches p g user w.db ≡ true) × (w ≡ w')
  unfolding check_password
  check_password-eq-ok w w' user h = elim (Option-cases (found w.db)) [
    | inl missing ↦ ground arith
    | inr (u, identified) ↦ elim (Bool-cases (password_matches p g u w.db)) [
      | inr wrong ↦ ground arith
      | inl password ↦
          let same : u ≡ user = ground arith in
          (
            subst (λ x. found w.db ≡ some x) same identified,
            subst (λ x. password_matches p g x w.db ≡ true) same password,
            ground arith,
          )
    ]
  ]

  -- What holds behind the password.
  abbrev Admitted : Db → SaApp → SaUser → Login → Type 0
  Admitted db app user l =
      (l.app ≡ app)
      × (l.user ≡ user)
      × (find_org_by_id user.org_id db ≡ some l.org)
      × (l.org.app_id ≡ app.id)
      × (is_active user.status ≡ true)
      × Methods db app user l.amr

  check_user-eq-ok :
      (app : SaApp) (user : SaUser) (w w' : World) (l : Login)
      → check_user p g now app user w ≡ (ok l, w')
      → Admitted w.db app user l × (w ≡ w')
  unfolding check_user
  check_user-eq-ok app user w w' l h = elim (Option-cases (find_org_by_id user.org_id w.db)) [
    | inl missing ↦ ground arith
    | inr (org, of) ↦ elim (Result-cases (second_factor p g app user now w).0) [
      | inr (e, failed) ↦ ground arith
      | inl (amr, passed) ↦
          let (methods, same) =
            second_factor-eq-ok app user w (second_factor p g app user now w).1 amr
              (ground arith) in
          let tenant : (org.app_id == app.id) ≡ true = ground arith in
          let answer : l ≡ record { app = app; user = user; org = org; amr = amr } = ground arith in
          (
            subst (Admitted w.db app user) (sym answer)
                (refl, refl, of, (==_iff org.app_id app.id).0 tenant, ground arith, methods),
            ground arith,
          )
    ]
  ]

  check_login-eq-ok :
      (app : SaApp) (w w' : World) (l : Login)
      → check_login p g now app w ≡ (ok l, w')
      → MayLogin w.db app l × (w ≡ w')
  unfolding check_login
  check_login-eq-ok app w w' l h =
      let (user, s, checked, rest) =
        >>=-eq-ok (check_password p g) (check_user p g now app) w w' l h in
      let (identified, password, same) = check_password-eq-ok w s user checked in
      let (admitted, same') = check_user-eq-ok app user s w' l rest in
      let (same_app, same_user, of, tenant, awake, methods) =
        subst (λ v. Admitted v.db app user l) (sym same) admitted in
      (
        record {
          same_app = same_app;
          identified = subst (λ x. found w.db ≡ some x) (sym same_user) identified;
          password = subst (λ x. password_matches p g x w.db ≡ true) (sym same_user) password;
          org = subst (λ x. find_org_by_id x.org_id w.db ≡ some l.org) (sym same_user) of;
          tenant = tenant;
          is_active = subst (λ x. is_active x.status ≡ true) (sym same_user) awake;
          methods = subst (λ x. Methods w.db app x l.amr) (sym same_user) methods;
        },
        same ∙ same',
      )

  -- A second factor is the one failure of a login whose password is right that is told apart.
  second_factor-err :
      (app : SaApp) (user : SaUser) (w w' : World) (e : Exception)
      → second_factor p g app user now w ≡ (err e, w')
      → (e ≡ two_factor_required) × (w ≡ w')
  unfolding second_factor
  second_factor-err app user w w' e h = ground arith

  -- What the checks answer to a request that does not present the password of a user.
  check_login_opaque :
      (app : SaApp) (w : World)
      → ((user : SaUser) → found w.db ≡ some user → password_matches p g user w.db ≢ true)
      → check_login p g now app w ≡ (err invalid_credentials, w)
  unfolding check_login check_password
  check_login_opaque app w never = elim (Option-cases (found w.db)) [
    | inl missing ↦ ground arith
    | inr (user, identified) ↦ let wrong = never user identified in ground arith
  ]

  module _ (rnd : Randoms) where
    -- A login changes no more of the tables than the time of the user's last login and the refresh
    -- token that it issues, and its access token is the one that is issued for the user.
    tokens_of_login-eq-ok :
        (l : Login) (w w' : World) (r : LoginResponse)
        → tokens_of_login p l rnd now w ≡ (ok r, w')
        → ((issue_jwt p (jwt_of_login p l) now (record_login l.user.id now w).db).0
            ≡ ok r.access_token)
          × (w'.codes ≡ w.codes)
    unfolding tokens_of_login
    tokens_of_login-eq-ok l w w' r h = ground arith

    find_login_app-eq-ok :
        (w w' : World) (app : SaApp)
        → find_login_app p g.app_id w ≡ (ok app, w')
        → IsClient p w.db g.app_id app × (w' ≡ w)
    unfolding find_login_app
    find_login_app-eq-ok w w' app h = elim (Option-cases (p.decode_sqid g.app_id)) [
      | inl bad ↦ ground arith
      | inr (i, decoded) ↦ elim (Option-cases (find_app_by_id i w.db)) [
        | inl missing ↦ ground arith
        | inr (a, there) ↦
            let same : a ≡ app = ground arith in ((i, decoded, rw (← same) there), ground arith)
      ]
    ]

    -- A direct login is answered with tokens only where all of this holds: the app exists; the
    -- identifier names a user whose stored password the request presents; the user's organisation
    -- belongs to that app; the user is active; and unless neither the app requires a second factor
    -- nor the user is enrolled, the user is enrolled and the code is right, which the tokens then
    -- say. The access token is the one that is issued for that user and app.
    pub direct_login_sound :
        (w w' : World) (r : LoginResponse)
        → direct_login p g rnd now w ≡ (ok r, w')
        → (app : SaApp) × (l : Login) × IsClient p w.db g.app_id app
          × MayLogin w.db app l
          × ((issue_jwt p (jwt_of_login p l) now (record_login l.user.id now w).db).0
              ≡ ok r.access_token)
    unfolding direct_login direct_login_for
    direct_login_sound w w' r h =
        let (app, s, there, rest) =
          >>=-eq-ok (find_login_app p g.app_id) (direct_login_for p g rnd now) w w' r h in
        let (client, same) = find_login_app-eq-ok w s app there in
        let (l, s', checked, last) =
          >>=-eq-ok (check_login p g now app) (λ l. tokens_of_login p l rnd now) s w' r rest in
        let (may, same') = check_login-eq-ok app s s' l checked in
        let from_s = (tokens_of_login-eq-ok l s' w' r last).0 in
        (
          app,
          l,
          client,
          subst (λ v. MayLogin v.db app l) same may,
          subst
              (λ v.
                (issue_jwt p (jwt_of_login p l) now (record_login l.user.id now v).db).0
                ≡ ok r.access_token)
              (sym same' ∙ same) from_s,
        )

    -- A request that does not present the password of a user learns nothing about that user: where
    -- the app exists, it gets the one answer INVALID_CREDENTIALS, whether or not the identifier
    -- names a user, in whatever tenant and of whatever status, and nothing changes.
    pub direct_login_opaque :
        (w : World) (app : SaApp)
        → IsClient p w.db g.app_id app
        → ((user : SaUser) → found w.db ≡ some user → password_matches p g user w.db ≢ true)
        → direct_login p g rnd now w ≡ (err invalid_credentials, w)
    unfolding direct_login direct_login_for find_login_app
    direct_login_opaque w app (i, decoded, there) never =
        let refused = check_login_opaque app w never in ground arith

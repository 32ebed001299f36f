-- ===== src/Registration/Issue.antt =====
-- The codes that a registration leaves in the table.
use sassy_auth.Common.{
  ℕ, String, Bool, true, false, Option, none, some, ◌∷◌, Memᴰ, ◌≡◌, ◌⊎◌, inl, inr, refl, sym, ap,
  subst, arith, ok, Result, Result-cases, Option-cases, Bool-cases, All, Action, ◌>>=◌, bind_after,
  caught_after, commit, try_catch, pure, throw, any, find?_sound, ◌===◌,
}
use mathlib.Core.List.Memᴰ
use sassy_auth.Db.{SaApp, Db, unverified}
use sassy_auth.Queries.{Externals, find_app}
use sassy_auth.OauthCode.{
  SaOauthCode, CodeRequest, Table, create, generated, generate_code, has_code,
}
use sassy_auth.World.{World, on_db}
use sassy_auth.Apps.Redirects.{IsHttp}
use sassy_auth.Apps.Invariant.{IsConsistent}
use sassy_auth.Registration.Redirect.{SignupRedirect, recover_authorize_params, signup_redirect}
use sassy_auth.Registration.Requests.{SignupDto, SignupCheck, Surroundings, check_signup}
use sassy_auth.Registration.Rows.{NewUser, Placed, signup_tx, delete_ba_user}
use sassy_auth.Registration.Checks.{check_signup-IsAdmitted}
use sassy_auth.Registration.Codes.{IsProtected, signup_redirect-IsProtected}
use sassy_auth.Registration.{
  Services, Draws, code_request, issue_code, send_link, finish_steps, finish_placed, send_back,
  register_checked, compensate, finish_registration, sign_up, register, new_user,
}

module _ (sv : Services) (ext : Externals) where
  -- A code that was there, or one that was made for a signup of the app.
  abbrev Issued : Table → SaApp → Draws → SaOauthCode → Type 0
  Issued before app draws c =
      Memᴰ c before
      ⊎ ((user_id : String) × (r : SignupRedirect) × IsProtected sv.parse_url app r
          × (c
              ≡ generated sv.json (code_request sv ext app user_id r draws.now) draws.code
                  draws.now))

  abbrev AllIssued : Table → SaApp → Draws → World → Type 0
  AllIssued before app draws w = (c : SaOauthCode) → Memᴰ c w.codes → Issued before app draws c

  generate-codes :
      (request : CodeRequest) (code : String) (now : ℕ) (t : Table) (c : SaOauthCode)
      → Memᴰ c (generate_code sv.json request code now t).1
      → Memᴰ c t ⊎ (c ≡ generated sv.json request code now)
  unfolding generate_code create
  generate-codes request code now t c m =
      elim (Bool-cases (any (has_code (generated sv.json request code now).code) t)) [
        | inl taken ↦ inl (subst (λ l. Memᴰ c l) (ground arith) m)
        | inr free ↦
            let written : (generate_code sv.json request code now t).1
                ≡ generated sv.json request code now ∷ t =
              ground arith in
            elim (Memᴰ.cases_cons (subst (λ l. Memᴰ c l) written m)) [
              | inl e ↦ inr e
              | inr k ↦ inl k
            ]
      ]

  issue_code-codes :
      (app : SaApp) (user_id : String) (r : SignupRedirect) (draws : Draws) (w : World)
      → (issue_code sv ext app user_id (some r) draws w).1.codes
        ≡ (generate_code sv.json
            (code_request sv ext app user_id r draws.now)
            draws.code
            draws.now
            w.codes).1
  unfolding issue_code
  issue_code-codes app user_id r draws w =
      let drawn =
        generate_code sv.json (code_request sv ext app user_id r draws.now) draws.code draws.now
          w.codes in
      elim (Result-cases drawn.0) [
        | inr (e, failed) ↦ ground arith
        | inl (code, done) ↦ elim (Option-cases (sv.parse_url r.redirect_uri)) [
          | inl bad ↦ ground arith
          | inr (u, parsed) ↦ ground arith
        ]
      ]

  module _ (before : Table) (app : SaApp) (draws : Draws) where
    issue_code-AllIssued :
        (user_id : String) (r : Option SignupRedirect) (w : World)
        → ((q : SignupRedirect) → r ≡ some q → IsProtected sv.parse_url app q)
        → AllIssued before app draws w
        → AllIssued before app draws (issue_code sv ext app user_id r draws w).1
    unfolding issue_code
    issue_code-AllIssued user_id none w guarded issued c m = issued c m
    issue_code-AllIssued user_id (some r) w guarded issued c m =
        let request = code_request sv ext app user_id r draws.now in
        elim (generate-codes request draws.code draws.now w.codes c
          (subst (λ l. Memᴰ c l) (issue_code-codes app user_id r draws w) m)) [
            | inl old ↦ issued c old
            | inr e ↦ inr (user_id, r, guarded r refl, e)
          ]

    on_db-AllIssued :
        {A : Type 0} (m : Action Db A) (w : World)
        → AllIssued before app draws w
        → AllIssued before app draws (on_db m w).1
    on_db-AllIssued m w issued = issued

    send_link-AllIssued :
        (link : Bool) (email : String) (w : World)
        → AllIssued before app draws w
        → AllIssued before app draws (send_link sv ext link email w).1
    unfolding send_link
    send_link-AllIssued true email w issued = issued
    send_link-AllIssued false email w issued = issued

  module _ (before : Table) (draws : Draws) (args : NewUser) (next : Option String) where
    abbrev Kept : World → Type 0
    Kept = AllIssued before args.app draws

    send_back-AllIssued :
        (placed : Placed) (w : World)
        → All (IsHttp sv.parse_url) args.app.redirects.redirect_uris
        → Kept w
        → Kept (send_back sv ext args next draws placed w).1
    unfolding send_back
    send_back-AllIssued placed w webs issued =
        let recovered = recover_authorize_params sv.parse_next next args.app.public_id in
        let way = signup_redirect sv.parse_url args.app recovered in
        bind_after Kept (issue_code sv ext args.app placed.sa_user_public_id way draws)
          (λ url. pure (record { org_public_id = placed.org.public_id; redirect_url = url })) w
          (issue_code-AllIssued before args.app draws placed.sa_user_public_id way w
            (λ q e. signup_redirect-IsProtected sv.parse_url args.app recovered q webs e) issued)
          (λ url t e k. k)

    finish_steps-AllIssued :
        (link : Bool) (email : String) (w : World)
        → All (IsHttp sv.parse_url) args.app.redirects.redirect_uris
        → Kept w
        → Kept (finish_steps sv ext args next link email draws w).1
    unfolding finish_steps finish_placed
    finish_steps-AllIssued link email w webs issued =
        bind_after Kept (on_db (commit (signup_tx ext args draws.pending)))
          (finish_placed sv ext args next link email draws) w
          (on_db-AllIssued before args.app draws (commit (signup_tx ext args draws.pending)) w
            issued)
          λ placed t e k.
            bind_after Kept (send_link sv ext link email)
              (λ u. send_back sv ext args next draws placed) t
              (send_link-AllIssued before args.app draws link email t k)
              λ u s q j. send_back-AllIssued placed s webs j

    finish_registration-AllIssued :
        (link : Bool) (email : String) (w : World)
        → All (IsHttp sv.parse_url) args.app.redirects.redirect_uris
        → Kept w
        → Kept (finish_registration sv ext args next link email draws w).1
    unfolding finish_registration compensate
    finish_registration-AllIssued link email w webs issued =
        caught_after Kept (finish_steps sv ext args next link email draws)
          (compensate sv ext args.ba_user_id) w (finish_steps-AllIssued link email w webs issued)
          λ e t q k.
            bind_after Kept
              (on_db (try_catch (commit (delete_ba_user args.ba_user_id)) (λ x. pure tt)))
              (λ u. throw e) t
              (on_db-AllIssued before args.app draws
                (try_catch (commit (delete_ba_user args.ba_user_id)) (λ x. pure tt)) t k)
              (λ u s p j. j)

  -- A signup code of the app that the request names.
  abbrev pub IsSignupCode : Db → SignupDto → Draws → SaOauthCode → Type 0
  IsSignupCode db dto draws c =
      (app : SaApp) × (user_id : String) × (r : SignupRedirect) × (find_app dto.app_public_id db
        ≡ some app)
      × IsProtected sv.parse_url app r
      × (c ≡ generated sv.json (code_request sv ext app user_id r draws.now) draws.code draws.now)
      × (c.app_public_id ≡ app.public_id)
      × (c.redirect_uri ≡ r.redirect_uri)
      × (c.code_challenge ≡ r.code_challenge)

  generated-fields :
      (app : SaApp) (user_id : String) (r : SignupRedirect) (draws : Draws) (c : SaOauthCode)
      → c ≡ generated sv.json (code_request sv ext app user_id r draws.now) draws.code draws.now
      → (c.app_public_id ≡ app.public_id)
        × (c.redirect_uri ≡ r.redirect_uri)
        × (c.code_challenge ≡ r.code_challenge)
  unfolding generated
  generated-fields app user_id r draws c e = (
    ap (λ (x : SaOauthCode). x.app_public_id) e,
    ap (λ (x : SaOauthCode). x.redirect_uri) e,
    ap (λ (x : SaOauthCode). x.code_challenge) e,
  )

  module _ (env : Surroundings) (dto : SignupDto) (name : String) (draws : Draws) (w : World)
      (consistent : IsConsistent sv.parse_url w.db.orgs w.db.roles w.db) where
    abbrev Known : World → Type 0
    Known t = (c : SaOauthCode) → Memᴰ c t.codes → Memᴰ c w.codes ⊎ IsSignupCode w.db dto draws c

    register_checked-Known :
        (k : SignupCheck) (t : World)
        → find_app dto.app_public_id w.db ≡ some k.app
        → ((c : SaOauthCode) → Memᴰ c t.codes → Memᴰ c w.codes)
        → Known (register_checked sv ext dto name draws k t).1
    unfolding register_checked find_app
    register_checked-Known k t found old =
        let webs =
          (consistent.each k.app
            (find?_sound (λ a. a.public_id === dto.app_public_id) w.db.apps found).0).webs in
        bind_after Known (on_db (sign_up sv ext dto.email dto.password name))
          (λ i.
            finish_registration sv ext (new_user sv ext dto k i unverified none) dto.next true
              dto.email draws)
          t (λ c m. inl (old c m))
          λ i s e known c m.
            let same : t.codes ≡ s.codes = ap (λ (x : Result String × World). x.1.codes) e in
            elim (finish_registration-AllIssued w.codes draws
              (new_user sv ext dto k i unverified none) dto.next true dto.email s webs
              (λ d j. inl (old d (subst (λ l. Memᴰ d l) (sym same) j))) c m) [
                | inl before ↦ inl before
                | inr (user_id, r, guarded, q) ↦
                    let (of_app, way, challenge) = generated-fields k.app user_id r draws c q in
                    inr (k.app, user_id, r, found, guarded, q, of_app, way, challenge)
              ]

    passed-Known :
        Known ((on_db (check_signup env dto) >>= register_checked sv ext dto name draws) w).1
    passed-Known =
        bind_after Known (on_db (check_signup env dto)) (register_checked sv ext dto name draws) w
          (λ c m. inl m)
          λ k t e known.
            let checked : check_signup env dto w.db ≡ (ok k, t.db) =
              ap (λ (x : Result SignupCheck × World). (x.0, x.1.db)) e in
            let (same, admitted) = check_signup-IsAdmitted env dto w.db t.db k checked in
            let codes : w.codes ≡ t.codes = ap (λ (x : Result SignupCheck × World). x.1.codes) e in
            register_checked-Known k t admitted.found (λ c m. subst (λ l. Memᴰ c l) (sym codes) m)

    -- A registration, whether it is answered or fails, leaves no code but those that were there and
    -- one for the app that it names: its redirect URI is one that the app accepts, and it carries a
    -- PKCE challenge unless the app has a client secret. The app's own redirect URIs are absolute
    -- URLs, as in every consistent table of apps.
    pub register-codes :
        (captcha : Bool) (c : SaOauthCode)
        → Memᴰ c (register sv ext env dto name captcha draws w).1.codes
        → Memᴰ c w.codes ⊎ IsSignupCode w.db dto draws c
    unfolding register
    register-codes true c m = passed-Known c m
    register-codes false c m = inl m

-- ===== src/TokenEndpoint/CodeGrant.antt =====
-- Who gets tokens for an authorization code.
use sassy_auth.Common.{
  ℕ, String, true, false, not, ◌&&◌, some, ◌≡◌, ◌≢◌, ◌⊎◌, inl, inr, arith, Option-cases, Bool-cases,
  Result, Result-cases, ok, find?, delete_where, contains, >>=-eq-ok, is_some, is_truthy, subst,
  sym, ◌∙◌,
}
use sassy_auth.Db.{SaApp, SaUser, SaOrg, Db}
use sassy_auth.RedirectUri.{assert_redirect_uri_allowed}
use sassy_auth.OauthCode.{Table, SaOauthCode, Exchanged, exchange_code, exchanged, has_code}
use sassy_auth.OauthCode.Exchange.{IsBound, exchange_iff, exchange_consumes, find-delete_where}
use sassy_auth.Queries.{find_org_by_id, find_user}
use sassy_auth.Platform.{Platform}
use sassy_auth.TokenService.{issue_jwt}
use sassy_auth.World.{World}
use sassy_auth.TokenEndpoint.{
  CodeRequest, Randoms, TokenResponse, may_redeem, tokens_of_code, redeem, code_grant_for,
  code_grant, find_client, jwt_of_code, authenticates,
}
use sassy_auth.TokenEndpoint.Clients.{
  IsClient, IsAuthenticated, IsPublic, find_client-eq-ok, require_secret-eq-ok, authenticates_iff,
}

module _ (p : Platform) (rnd : Randoms) (now : ℕ) where
  tokens_of_code-eq-ok :
      (app : SaApp) (user : SaUser) (org : SaOrg) (x : Exchanged) (w w' : World) (r : TokenResponse)
      → tokens_of_code p app user org x rnd now w ≡ (ok r, w')
      → ((issue_jwt p (jwt_of_code p app user org x) now w.db).0 ≡ ok r.access_token)
        × (r.scope ≡ x.scope)
        × (w'.codes ≡ w.codes)
  unfolding tokens_of_code
  tokens_of_code-eq-ok app user org x w w' r h = ground arith

  -- The user is there, and its status lets it redeem what the code was issued for.
  abbrev pub IsRedeemer : Db → Exchanged → SaUser → SaOrg → Type 0
  IsRedeemer db x user org =
      (find_user x.user_id db ≡ some user)
      × (find_org_by_id user.org_id db ≡ some org)
      × (may_redeem (contains x.amr "signup") user.status ≡ true)

  redeem-eq-ok :
      (app : SaApp) (x : Exchanged) (w w' : World) (r : TokenResponse)
      → redeem p app x rnd now w ≡ (ok r, w')
      → (user : SaUser) × (org : SaOrg) × IsRedeemer w.db x user org
        × ((issue_jwt p (jwt_of_code p app user org x) now w.db).0 ≡ ok r.access_token)
        × (r.scope ≡ x.scope)
        × (w'.codes ≡ w.codes)
  unfolding redeem
  redeem-eq-ok app x w w' r h = elim (Option-cases (find_user x.user_id w.db)) [
    | inl missing ↦ ground arith
    | inr (user, found) ↦ elim (Option-cases (find_org_by_id user.org_id w.db)) [
      | inl missing ↦ ground arith
      | inr (org, of) ↦ elim (Bool-cases (may_redeem (contains x.amr "signup") user.status)) [
        | inl may ↦
            let (token, scope, codes) = tokens_of_code-eq-ok app user org x w w' r (ground arith) in
            (user, org, (found, of, may), token, scope, codes)
        | inr may_not ↦ ground arith
      ]
    ]
  ]

  -- What holds of an authorization code request that is answered with tokens.
  pub record IsGranted (g : CodeRequest) (w : World) (r : TokenResponse) (w' : World) : Type 0 where
    pub app : SaApp
    pub entry : SaOauthCode
    pub user : SaUser
    pub org : SaOrg
    pub client : IsClient p w.db g.client.client_id app
    pub redirect : assert_redirect_uri_allowed p.parse_url g.redirect_uri app.redirects ≡ ok tt
    pub secret : IsPublic app ⊎ IsAuthenticated p g.client app
    pub found : find? (has_code g.code) w.codes ≡ some entry
    pub bound : IsBound p.s256_of g.client.client_id g.redirect_uri g.code_verifier now entry
    pub proved : (is_some entry.code_challenge ≡ true) ⊎ IsAuthenticated p g.client app
    pub redeemer : IsRedeemer w.db (exchanged p.json entry) user org
    pub token :
        (issue_jwt p (jwt_of_code p app user org (exchanged p.json entry)) now w.db).0
        ≡ ok r.access_token
    pub scope : r.scope ≡ entry.scope
    pub codes : w'.codes ≡ delete_where (has_code g.code) w.codes

  challenge_or_secret :
      (g : CodeRequest) (app : SaApp) (entry : SaOauthCode) (x : Exchanged)
      → exchanged p.json entry ≡ x
      → (not x.had_challenge && not (authenticates p g.client app)) ≡ false
      → (is_some entry.code_challenge ≡ true) ⊎ IsAuthenticated p g.client app
  unfolding exchanged
  challenge_or_secret g app entry x answer guarded =
      elim (Bool-cases (authenticates p g.client app)) [
        | inl shown ↦ inr ((authenticates_iff p g.client app).0 shown)
        | inr unshown ↦ inl (ground arith)
      ]

  scope_of :
      (entry : SaOauthCode) (x : Exchanged) {s : String}
      → exchanged p.json entry ≡ x
      → s ≡ x.scope
      → s ≡ entry.scope
  unfolding exchanged
  scope_of entry x answer e = ground arith

  abbrev exchange : CodeRequest → Table → Result Exchanged × Table
  exchange g =
      exchange_code p.json p.s256_of g.code g.client.client_id g.redirect_uri g.code_verifier now

  -- The steps of a request that is answered, the state after the exchange, and the tests passed.
  code_grant_steps :
      (g : CodeRequest) (app : SaApp) (w w' : World) (r : TokenResponse)
      → code_grant_for p g rnd now app w ≡ (ok r, w')
      → (x : Exchanged) × (assert_redirect_uri_allowed p.parse_url g.redirect_uri app.redirects
          ≡ ok tt)
        × ((exchange g w.codes).0 ≡ ok x)
        × ((is_truthy app.client_secret_hash && not (authenticates p g.client app)) ≡ false)
        × ((not x.had_challenge && not (authenticates p g.client app)) ≡ false)
        × (redeem p app x rnd now (record w { codes = (exchange g w.codes).1 }) ≡ (ok r, w'))
  unfolding code_grant_for
  code_grant_steps g app w w' r h =
      let redirected = assert_redirect_uri_allowed p.parse_url g.redirect_uri app.redirects in
      elim (Result-cases redirected) [
        | inr (e, refused) ↦ ground arith
        | inl (u, allowed) ↦ elim (Result-cases (exchange g w.codes).0) [
          | inr (e, failed) ↦ ground arith
          | inl (x, done) ↦ (x, allowed, done, ground arith, ground arith, ground arith)
        ]
      ]

  code_grant_for-eq-ok :
      (g : CodeRequest) (app : SaApp) (w w' : World) (r : TokenResponse)
      → IsClient p w.db g.client.client_id app
      → code_grant_for p g rnd now app w ≡ (ok r, w')
      → IsGranted g w r w'
  code_grant_for-eq-ok g app w w' r client h =
      let (x, allowed, done, secret, guarded, rest) = code_grant_steps g app w w' r h in
      let (entry, found, bound, answer) =
        (exchange_iff p.json p.s256_of g.code g.client.client_id g.redirect_uri g.code_verifier now
            w.codes x).0
          done in
      let gone =
        exchange_consumes p.json p.s256_of g.code g.client.client_id g.redirect_uri g.code_verifier
          now w.codes in
      let (user, org, redeemer, token, scope, codes) =
        redeem-eq-ok app x (record w { codes = (exchange g w.codes).1 }) w' r rest in
      record {
        app = app;
        entry = entry;
        user = user;
        org = org;
        client = client;
        redirect = allowed;
        secret = require_secret-eq-ok p g.client app secret;
        found = found;
        bound = bound;
        proved = challenge_or_secret g app entry x answer guarded;
        redeemer = subst (λ y. IsRedeemer w.db y user org) (sym answer) redeemer;
        token =
            subst (λ y. (issue_jwt p (jwt_of_code p app user org y) now w.db).0 ≡ ok r.access_token)
              (sym answer) token;
        scope = scope_of entry x answer scope;
        codes = codes ∙ gone;
      }

  -- Tokens are answered to an authorization code only where all of this holds: the client id names
  -- an app that accepts the redirect URI; an app with a secret presented it; the code is stored,
  -- not expired, and bound to this client, redirect URI and PKCE verifier; without a challenge the
  -- client presented its secret; and the user of the code exists with a status that may redeem it.
  -- The access token is the one that is issued for that user, app and scope, and the code is gone.
  pub code_grant_sound :
      (g : CodeRequest) (w w' : World) (r : TokenResponse)
      → code_grant p g rnd now w ≡ (ok r, w')
      → IsGranted g w r w'
  unfolding code_grant
  code_grant_sound g w w' r h =
      let (app, s, found, rest) =
        >>=-eq-ok (find_client p g.client.client_id) (code_grant_for p g rnd now) w w' r h in
      let (client, same) = find_client-eq-ok p g.client.client_id w s app found in
      code_grant_for-eq-ok g app w w' r client
        (subst (λ v. code_grant_for p g rnd now app v ≡ (ok r, w')) same rest)

-- A code is worth tokens once: after a request that was answered with tokens, no request with the
-- same code is, by whatever client, redirect URI and verifier, and whenever it comes.
pub code_grant_once :
    (p : Platform) (g again : CodeRequest) (rnd rnd' : Randoms) (now later : ℕ) (w w' w'' : World)
    (r r' : TokenResponse)
    → again.code ≡ g.code
    → code_grant p g rnd now w ≡ (ok r, w')
    → code_grant p again rnd' later w' ≢ (ok r', w'')
code_grant_once p g again rnd rnd' now later w w' w'' r r' same first second =
    let granted = code_grant_sound p rnd now g w w' r first in
    let twice = code_grant_sound p rnd' later again w' w'' r' second in
    let none_left = find-delete_where g.code w.codes in
    let there : find? (has_code g.code) w'.codes ≡ some twice.entry =
      subst (λ c. find? (has_code c) w'.codes ≡ some twice.entry) same twice.found in
    let here = subst (λ t. find? (has_code g.code) t ≡ some twice.entry) granted.codes there in cc

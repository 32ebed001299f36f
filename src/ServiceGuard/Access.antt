-- ===== src/ServiceGuard/Access.antt =====
-- Which app a service token lets act.
use sassy_auth.Common.{
  ℕ, ◌+◌, ◌/◌, ◌<◌, String, true, Option, some, [], ◌∷◌, ◌≡◌, ◌≢◌, ◌↔◌, inl, inr, refl, arith,
  Option-cases, Bool-cases, is_text, get_or, ok, eq_iff, ◌===◌, subst, sym, ◌∙◌, ap,
}
use sassy_auth.Db.{SaApp, Db}
use sassy_auth.Queries.{find_app_by_id}
use sassy_auth.Platform.{Platform, ServicePayload}
use sassy_auth.TokenService.{
  asks_for, service_token_audience, service_payload, service_token_ttl_seconds,
}
use sassy_auth.World.{World}
use sassy_auth.TokenEndpoint.{
  ServiceRequest, TokenResponse, service_grant, service_scopes, join_words,
}
use sassy_auth.TokenEndpoint.Clients.{IsClient}
use sassy_auth.TokenEndpoint.ServiceGrant.{service_grant_iff, service_response}
use sassy_auth.ServiceGuard.{
  Claims, VerifyJwt, ServiceApp, split_spaces, bearer_of, verify_service_access_token,
  app_of_claims, can_activate,
}

-- What a token has to say that lets an app act.
abbrev pub LetsAct : Platform → Claims → ServiceApp → Type 0
LetsAct p claims app =
    (asks_for p.words (get_or claims.scope "") "roles:write" ≡ true)
    × (claims.azp ≡ some app.app_public_id)
    × (app.app_public_id ≢ "")
    × (p.decode_sqid app.app_public_id ≡ some app.app_id)

app_of_claims_iff :
    (p : Platform) (claims : Claims) (app : ServiceApp)
    → (app_of_claims p claims ≡ ok app) ↔ LetsAct p claims app
unfolding app_of_claims
app_of_claims_iff p claims app = elim (Option-cases claims.azp) [
  | inl missing ↦ ground arith
  | inr (azp, named) ↦ elim (Bool-cases (azp === "")) [
    | inl empty ↦ ground (arith, eq_iff azp "")
    | inr given ↦ elim (Option-cases (p.decode_sqid azp)) [
      | inl bad ↦ ground (arith, eq_iff azp "")
      | inr (i, decoded) ↦ ground (arith, eq_iff azp "")
    ]
  ]
]

module _ (p : Platform) (verify_jwt : VerifyJwt) (now : ℕ) where
  verified_iff :
      (raw : String) (claims : Claims)
      → (verify_service_access_token p verify_jwt now raw ≡ some claims) ↔ (
          (verify_jwt p.issuer service_token_audience now raw ≡ some claims)
          × (is_text claims.token_use "service" ≡ true))
  unfolding verify_service_access_token
  verified_iff raw claims =
      elim (Option-cases (verify_jwt p.issuer service_token_audience now raw)) [
        | inl bad ↦ ground arith
        | inr (c, good) ↦ elim (Bool-cases (is_text c.token_use "service")) [
          | inl service ↦ ground arith
          | inr other ↦ ground arith
        ]
      ]

  -- The guard lets a request through, as one of an app, exactly when its header is `Bearer` and a
  -- token that verifies for this issuer and the audience of service tokens, says that it is a
  -- service token, has the scope `roles:write`, and names that app.
  pub can_activate_iff :
      (header : String) (app : ServiceApp)
      → (can_activate p verify_jwt now header ≡ ok app) ↔ (
          (raw : String) × (claims : Claims) × (bearer_of (split_spaces header) ≡ some raw)
          × (verify_jwt p.issuer service_token_audience now raw ≡ some claims)
          × (is_text claims.token_use "service" ≡ true)
          × LetsAct p claims app)
  unfolding can_activate
  can_activate_iff header app = elim (Option-cases (bearer_of (split_spaces header))) [
    | inl missing ↦ ground arith
    | inr (raw, given) ↦ elim (Option-cases (verify_service_access_token p verify_jwt now raw)) [
      | inl bad ↦ (
        λ h. ground arith,
        λ (raw', claims, given', verified, service, lets).
            let same : raw ≡ raw' = ground arith in
            let good = (verified_iff raw' claims).1 (verified, service) in
            let good' =
              subst (λ x. verify_service_access_token p verify_jwt now x ≡ some claims) (sym same)
                good in
            ground arith,
      )
      | inr (claims, good) ↦ (
        λ h.
            let (verified, service) = (verified_iff raw claims).0 good in
            (
              raw,
              claims,
              given,
              verified,
              service,
              (app_of_claims_iff p claims app).0 (ground arith),
            ),
        λ (raw', claims', given', verified, service, lets).
            let same : raw ≡ raw' = ground arith in
            let good' =
              subst (λ x. verify_service_access_token p verify_jwt now x ≡ some claims') (sym same)
                ((verified_iff raw' claims').1 (verified, service)) in
            let same_claims : claims ≡ claims' = ground arith in
            let lets' = subst (λ x. LetsAct p x app) (sym same_claims) lets in
            let done = (app_of_claims_iff p claims app).1 lets' in ground arith,
      )
    ]
  ]

-- What the code relies on of `jwt.verify` and of the texts that it splits: a signed service token
-- verifies for its issuer and audience until it expires, with the claims that were signed; and a
-- word is split into itself.
pub record Verifies (p : Platform) (verify_jwt : VerifyJwt) : Type 0 where
  pub signed :
      (payload : ServicePayload) (now : ℕ)
      → now / 1000 < payload.exp
      → verify_jwt payload.iss payload.aud now (p.sign_service payload)
        ≡ some (record {
          azp = some payload.azp;
          scope = some payload.scope;
          token_use = some payload.token_use;
        })
  pub word : p.words "roles:write" ≡ "roles:write" ∷ []

one_client :
    (p : Platform) (db : Db) (client_id : String) (a b : SaApp)
    → IsClient p db client_id a
    → IsClient p db client_id b
    → a ≡ b
one_client p db client_id a b (i, di, fi) (j, dj, fj) =
    let same : i ≡ j = ground arith in
    let there = subst (λ k. find_app_by_id k db ≡ some a) same fi in ground arith

asks_for_word :
    (p : Platform)
    → p.words "roles:write" ≡ "roles:write" ∷ []
    → asks_for p.words "roles:write" "roles:write" ≡ true
unfolding asks_for
asks_for_word p word = rw word

payload_lives :
    (p : Platform) (azp : String) (issued now : ℕ)
    → now / 1000 < issued / 1000 + service_token_ttl_seconds
    → now / 1000 < (service_payload p azp "roles:write" issued).exp
unfolding service_payload
payload_lives p azp issued now live = live

verified_payload :
    (p : Platform) (verify_jwt : VerifyJwt) (azp : String) (issued now : ℕ)
    → (let payload = service_payload p azp "roles:write" issued in
        verify_jwt payload.iss payload.aud now (p.sign_service payload)
        ≡ some (record {
          azp = some payload.azp;
          scope = some payload.scope;
          token_use = some payload.token_use;
        }))
    → verify_jwt p.issuer service_token_audience now
        (p.sign_service (service_payload p azp "roles:write" issued))
      ≡ some (record { azp = some azp; scope = some "roles:write"; token_use = some "service" })
unfolding service_payload
verified_payload p verify_jwt azp issued now h = h

service_token :
    (p : Platform) (a app : SaApp) (requested : Option String) (issued : ℕ) (r : TokenResponse)
    → a ≡ app
    → service_response p a requested issued ≡ r
    → r.scope ≡ "roles:write"
    → r.access_token ≡ p.sign_service (service_payload p app.public_id "roles:write" issued)
service_token p a app requested issued r same answer scoped =
    let scope : join_words (service_scopes p a requested) ≡ "roles:write" = ground arith in
    let token : r.access_token
        ≡ p.sign_service
            (service_payload p a.public_id (join_words (service_scopes p a requested)) issued) =
      ground arith in
    token
    ∙ ap (λ s. p.sign_service (service_payload p a.public_id s issued)) scope
    ∙ ap (λ x. p.sign_service (service_payload p x.public_id "roles:write" issued)) same

-- End to end: an app that may manage its own roles and was granted a service token for the scope
-- `roles:write` passes the guard as itself, with that token as the bearer, for the five minutes of
-- the token, where the app's public id decodes to its id.
pub granted_token_activates :
    (p : Platform) (verify_jwt : VerifyJwt) (g : ServiceRequest) (issued now : ℕ) (w w' : World)
    (r : TokenResponse) (app : SaApp) (header : String)
    → Verifies p verify_jwt
    → IsClient p w.db g.client.client_id app
    → app.public_id ≢ ""
    → p.decode_sqid app.public_id ≡ some app.id
    → service_grant p g issued w ≡ (ok r, w')
    → r.scope ≡ "roles:write"
    → now / 1000 < issued / 1000 + service_token_ttl_seconds
    → bearer_of (split_spaces header) ≡ some r.access_token
    → can_activate p verify_jwt now header
      ≡ ok (record { app_id = app.id; app_public_id = app.public_id })
granted_token_activates p verify_jwt g issued now w w' r app header laws client full decodes granted
      scoped live bearer =
    let (a, client', _, answer, _) = (service_grant_iff p g issued w w' r).0 granted in
    let same = one_client p w.db g.client.client_id a app client' client in
    let payload = service_payload p app.public_id "roles:write" issued in
    let token = service_token p a app g.scope issued r same answer scoped in
    let verified = laws.signed payload now (payload_lives p app.public_id issued now live) in
    (can_activate_iff p verify_jwt now header
        (record { app_id = app.id; app_public_id = app.public_id })).1
      (
        r.access_token,
        record { azp = some app.public_id; scope = some "roles:write"; token_use = some "service" },
        bearer,
        rw token (verified_payload p verify_jwt app.public_id issued now verified),
        refl,
        (asks_for_word p laws.word, refl, full, decodes),
      )

-- ===== src/TokenEndpoint/ServiceGrant.antt =====
-- The service token of an app, and what it lets the app do.
use sassy_auth.Common.{
  ℕ, String, true, Option, none, ◌≡◌, ◌↔◌, inl, inr, arith, is_truthy, Bool-cases, Result-cases, ok,
  eq_iff,
}
use sassy_auth.Db.{SaApp}
use sassy_auth.Platform.{Platform}
use sassy_auth.TokenService.{service_payload, service_token_ttl_seconds}
use sassy_auth.World.{World}
use sassy_auth.TokenEndpoint.{
  Client, ServiceRequest, TokenResponse, service_grant, service_scopes, join_words, find_client,
  authenticates,
}
use sassy_auth.TokenEndpoint.Clients.{
  IsClient, IsAuthenticated, find_client-eq-ok, find_client-of_IsClient, authenticates_iff,
}

-- What an app is answered for client credentials.
abbrev pub service_response : Platform → SaApp → Option String → ℕ → TokenResponse
service_response p app requested now =
    let scope = join_words (service_scopes p app requested) in
    record {
      access_token = p.sign_service (service_payload p app.public_id scope now);
      token_type = "Bearer";
      expires_in = service_token_ttl_seconds;
      scope = scope;
      id_token = none;
      refresh_token = none;
    }

module _ (p : Platform) where
  authenticated-truthy :
      (c : Client) (app : SaApp) → IsAuthenticated p c app → is_truthy app.client_secret_hash ≡ true
  authenticated-truthy c app (secret, hash, _, stored, _, full, _) = ground (arith, eq_iff hash "")

  service_grant_sound :
      (g : ServiceRequest) (now : ℕ) (w w' : World) (r : TokenResponse)
      → service_grant p g now w ≡ (ok r, w')
      → (app : SaApp) × IsClient p w.db g.client.client_id app
        × IsAuthenticated p g.client app
        × (service_response p app g.scope now ≡ r)
        × (w ≡ w')
  unfolding service_grant
  service_grant_sound g now w w' r h = elim (Result-cases (find_client p g.client.client_id w).0) [
    | inr (e, failed) ↦ ground arith
    | inl (app, found) ↦
        let whole : find_client p g.client.client_id w
            ≡ (ok app, (find_client p g.client.client_id w).1) =
          ground arith in
        let (client, same) = find_client-eq-ok p g.client.client_id w _ app whole in
        elim (Bool-cases (authenticates p g.client app)) [
          | inr unshown ↦ ground arith
          | inl shown ↦
              (app, client, (authenticates_iff p g.client app).0 shown, ground arith, ground arith)
        ]
  ]

  service_grant_complete :
      (g : ServiceRequest) (now : ℕ) (w : World) (app : SaApp)
      → IsClient p w.db g.client.client_id app
      → IsAuthenticated p g.client app
      → service_grant p g now w ≡ (ok (service_response p app g.scope now), w)
  unfolding service_grant
  service_grant_complete g now w app client shown =
      let found = find_client-of_IsClient p g.client.client_id w app client in
      let passes = (authenticates_iff p g.client app).1 shown in
      let full = authenticated-truthy g.client app shown in ground arith

  -- An app gets a service token exactly when the client id names it, it has a secret and presents
  -- it; the answer is fixed by the app and the scopes that it asks for, and nothing is written.
  pub service_grant_iff :
      (g : ServiceRequest) (now : ℕ) (w w' : World) (r : TokenResponse)
      → (service_grant p g now w ≡ (ok r, w')) ↔ (
          (app : SaApp) × IsClient p w.db g.client.client_id app
          × IsAuthenticated p g.client app
          × (service_response p app g.scope now ≡ r)
          × (w ≡ w'))
  service_grant_iff g now w w' r = (
    service_grant_sound g now w w' r,
    λ (app, client, shown, same, still).
        let done = service_grant_complete g now w app client shown in cc,
  )

-- ===== src/TokenEndpoint/Clients.antt =====
-- Which client a token request comes from.
use sassy_auth.Common.{
  ℕ, String, true, false, not, ◌&&◌, Option, none, some, ◌≡◌, ◌≢◌, ◌↔◌, ◌⊎◌, inl, inr, refl, arith,
  is_truthy, Option-cases, Bool-cases, ok, eq_iff,
}
use sassy_auth.Db.{SaApp, Db}
use sassy_auth.Queries.{find_app_by_id}
use sassy_auth.Platform.{Platform}
use sassy_auth.World.{World}
use sassy_auth.TokenEndpoint.{Client, verify_client_secret, find_client, authenticates}

-- The row that the client id names.
abbrev pub IsClient : Platform → Db → String → SaApp → Type 0
IsClient p db client_id app =
    (i : ℕ) × (p.decode_sqid client_id ≡ some i) × (find_app_by_id i db ≡ some app)

-- The app has a secret, and the client presents the text that it is the hash of.
abbrev pub IsAuthenticated : Platform → Client → SaApp → Type 0
IsAuthenticated p c app =
    (secret hash : String) × (c.secret ≡ some secret)
    × (app.client_secret_hash ≡ some hash)
    × (secret ≢ "")
    × (hash ≢ "")
    × (p.verify_password secret hash ≡ true)

-- The app has no secret.
abbrev pub IsPublic : SaApp → Type 0
IsPublic app = is_truthy app.client_secret_hash ≡ false

module _ (p : Platform) where
  pub find_client-eq-ok :
      (client_id : String) (w w' : World) (app : SaApp)
      → find_client p client_id w ≡ (ok app, w')
      → IsClient p w.db client_id app × (w' ≡ w)
  unfolding find_client
  find_client-eq-ok client_id w w' app h = elim (Option-cases (p.decode_sqid client_id)) [
    | inl bad ↦ ground arith
    | inr (i, decoded) ↦ elim (Option-cases (find_app_by_id i w.db)) [
      | inl missing ↦ ground arith
      | inr (a, found) ↦
          let same : a ≡ app = ground arith in ((i, decoded, rw (← same) found), ground arith)
    ]
  ]

  pub find_client-of_IsClient :
      (client_id : String) (w : World) (app : SaApp)
      → IsClient p w.db client_id app
      → find_client p client_id w ≡ (ok app, w)
  unfolding find_client
  find_client-of_IsClient client_id w app (i, decoded, found) = ground arith

  verify_client_secret_iff :
      (presented stored : Option String)
      → (verify_client_secret p presented stored ≡ true) ↔ (
          (secret : String) × (hash : String) × (presented ≡ some secret)
          × (stored ≡ some hash)
          × (secret ≢ "")
          × (hash ≢ "")
          × (p.verify_password secret hash ≡ true))
  unfolding verify_client_secret
  verify_client_secret_iff none stored = ground arith
  verify_client_secret_iff (some secret) none = ground arith
  verify_client_secret_iff (some secret) (some hash) = (
    λ h. (
      secret,
      hash,
      refl,
      refl,
      ground (arith, eq_iff secret ""),
      ground (arith, eq_iff hash ""),
      ground arith,
    ),
    λ (s, k, e, e', u, v, q). ground (arith, eq_iff secret "", eq_iff hash ""),
  )

  pub authenticates_iff :
      (c : Client) (app : SaApp) → (authenticates p c app ≡ true) ↔ IsAuthenticated p c app
  authenticates_iff c app = verify_client_secret_iff c.secret app.client_secret_hash

  -- What a request has to show that passes the check of the secret.
  pub require_secret-eq-ok :
      (c : Client) (app : SaApp)
      → (is_truthy app.client_secret_hash && not (authenticates p c app)) ≡ false
      → IsPublic app ⊎ IsAuthenticated p c app
  require_secret-eq-ok c app h = elim (Bool-cases (authenticates p c app)) [
    | inl shown ↦ inr ((authenticates_iff c app).0 shown)
    | inr unshown ↦ inl (ground arith)
  ]

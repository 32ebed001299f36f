-- ===== src/Apps/Secrets.antt =====
-- What the rotation of a client secret means to the token endpoint.
use sassy_auth.Common.{
  ℕ, String, true, false, some, ◌≡◌, ◌≢◌, inl, inr, refl, sym, subst, arith, ok, find?,
  update_where, ◌==◌, ◌===◌, Option-cases, eq_iff, if◌then◌else◌, is_truthy, ==_iff,
}
use sassy_auth.Db.{SaApp, Db}
use sassy_auth.Queries.{find_app}
use sassy_auth.Queries.Keys.{find-update_other}
use sassy_auth.Platform.{Platform}
use sassy_auth.TokenEndpoint.{authenticates, verify_client_secret}
use sassy_auth.Apps.Settings.{set_client_secret}
use sassy_auth.Apps.Rows.{update_app_row}
use sassy_auth.Apps.Kept.{find_managed_app-cases}
use sassy_auth.Apps.{rotate_client_secret, write_client_secret}

module _ (hash_password : String → String) (caller public_id secret : String) (now : ℕ)
    (db db' : Db) where
  -- An answered rotation has written the row of the app.
  rotate_client_secret_lem :
      (s : String)
      → rotate_client_secret hash_password caller public_id secret now db ≡ (ok s, db')
      → (a : SaApp) × (find_app public_id db ≡ some a)
        × (s ≡ secret)
        × (db'.apps
            ≡ update_where
                (λ x. x.id == a.id)
                (set_client_secret (hash_password secret) now)
                db.apps)
  unfolding rotate_client_secret write_client_secret update_app_row set_client_secret
  rotate_client_secret_lem s h = elim (find_managed_app-cases caller public_id db) [
    | inl (e, refused) ↦ ground arith
    | inr (a, found, allowed, answered) ↦ elim (Option-cases (find? (λ x. x.id == a.id) db.apps)) [
      | inl missing ↦ ground arith
      | inr (row, there) ↦ (a, found, ground arith, ground arith)
    ]
  ]

  found_after :
      (a : SaApp)
      → find_app public_id db ≡ some a
      → db'.apps
        ≡ update_where (λ x. x.id == a.id) (set_client_secret (hash_password secret) now) db.apps
      → find_app public_id db' ≡ some (set_client_secret (hash_password secret) now a)
  unfolding find_app set_client_secret
  found_after a found written =
      let f = set_client_secret (hash_password secret) now in
      let moved =
        find-update_other (λ x. x.public_id === public_id) (λ x. x.id == a.id) f db.apps a
          (λ y. refl) found in
      let self = (==_iff a.id a.id).1 refl in
      subst
        (λ rows.
          find? (λ (x : SaApp). x.public_id === public_id) rows
          ≡ some (set_client_secret (hash_password secret) now a))
        (sym written)
        (subst
          (λ b.
            find? (λ (x : SaApp). x.public_id === public_id)
              (update_where (λ x. x.id == a.id) f db.apps)
            ≡ some (if b then f a else a))
          self moved)

-- After an answered rotation of a client secret, the app authenticates a client by the secret that
-- was handed out, and refuses any secret that does not verify against the new hash, whatever it
-- was before; the password hash verifies the text that it was made of.
pub rotate_client_secret-authenticates :
    (p : Platform) (hash_password : String → String)
    (caller public_id secret old client_id : String) (now : ℕ) (db db' : Db) (s : String)
    → p.verify_password secret (hash_password secret) ≡ true
    → secret ≢ ""
    → hash_password secret ≢ ""
    → p.verify_password old (hash_password secret) ≡ false
    → rotate_client_secret hash_password caller public_id secret now db ≡ (ok s, db')
    → (a : SaApp) × (find_app public_id db' ≡ some a)
      × (is_truthy a.client_secret_hash ≡ true)
      × (authenticates p (record { client_id = client_id; secret = some s }) a ≡ true)
      × (authenticates p (record { client_id = client_id; secret = some old }) a ≡ false)
unfolding set_client_secret verify_client_secret
rotate_client_secret-authenticates p hash_password caller public_id secret old client_id now db db'
      s law given hashed other h =
    let (a, found, same, written) =
      rotate_client_secret_lem hash_password caller public_id secret now db db' s h in
    (
      set_client_secret (hash_password secret) now a,
      found_after hash_password caller public_id secret now db db' a found written,
      ground (arith, eq_iff (hash_password secret) ""),
      ground (arith, eq_iff secret "", eq_iff (hash_password secret) ""),
      ground (arith, eq_iff old "", eq_iff (hash_password secret) ""),
    )

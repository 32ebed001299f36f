-- ===== src/Apps/Operations.antt =====
-- Every other operation on apps keeps the invariant of their table, whether it answers or throws.
use sassy_auth.Common.{
  ℕ, String, true, Option, none, List, Memᴰ, ◌≡◌, inl, inr, refl, sym, subst, arith, ok,
  Result-cases, Bool-cases, is_truthy, commit, pure, find?_sound, ◌===◌,
}
use sassy_auth.RedirectUri.{Url}
use sassy_auth.PasswordPolicy.{PasswordPolicy}
use sassy_auth.Db.{SaApp, SaOrg, SaRole, Db}
use sassy_auth.Access.Outcomes.{check_permission_cases}
use sassy_auth.Queries.{Externals, find_app}
use sassy_auth.Queries.Keys.{same_row}
use sassy_auth.Apps.Validation.{assert_valid_redirect_uris}
use sassy_auth.Apps.Settings.{CreateAppDto, set_client_secret, set_webhook_secret}
use sassy_auth.Apps.Rows.{update_app_row, delete_app_row}
use sassy_auth.Apps.Valid.{KeepsAmong}
use sassy_auth.Apps.Writes.{set_client_secret-Keeps}
use sassy_auth.Apps.Invariant.{
  IsConsistent, update_app_row-Preserves, update_app_row-Consistent, delete_app_row-Preserves,
}
use sassy_auth.Apps.{
  apps_manage, or_name_taken, refuse_dependents, view_of_id, create_app, check_given,
  rotate_client_secret, rotate_webhook_secret, delete_app, write_client_secret,
  write_webhook_secret, delete_managed_app, create_app_tx, write_app,
}
use sassy_auth.Apps.Kept.{
  view_of_id-reads, after_find, commit-Consistent, caught-Consistent, or_name_taken-Consistent,
  then_reads, create_app_tx-Preserves,
}

module _ (parse_url : String → Option Url) (orgs : List SaOrg) (roles : List SaRole) where
  abbrev Consistent : Db → Type 0
  Consistent = IsConsistent parse_url orgs roles

  write_app-Consistent :
      (ext : Externals) (policy : PasswordPolicy) (dto : CreateAppDto) (pending : String) (db : Db)
      → check_given (assert_valid_redirect_uris parse_url) dto.redirect_uris ≡ ok tt
      → Consistent db
      → Consistent (write_app parse_url ext policy dto pending db).1
  unfolding write_app
  write_app-Consistent ext policy dto pending db checked c =
      then_reads parse_url orgs roles (or_name_taken (commit (create_app_tx ext dto pending)))
        (λ a. view_of_id policy db.next_app_id) db (λ a t. view_of_id-reads policy db.next_app_id t)
        (or_name_taken-Consistent parse_url orgs roles (create_app_tx ext dto pending) db
          (create_app_tx-Preserves parse_url orgs roles ext dto pending checked) c)

  pub create_app-Consistent :
      (ext : Externals) (policy : PasswordPolicy) (caller : String) (dto : CreateAppDto)
      (pending : String) (db : Db)
      → Consistent db
      → Consistent (create_app parse_url ext policy caller dto pending db).1
  unfolding create_app
  create_app-Consistent ext policy caller dto pending db c =
      elim (check_permission_cases caller apps_manage none db) [
        | inr refused ↦ subst Consistent (ground arith) c
        | inl allowed ↦
            elim (Result-cases
              (check_given (assert_valid_redirect_uris parse_url) dto.redirect_uris)) [
                | inr (e, failed) ↦ subst Consistent (ground arith) c
                | inl (u, passed) ↦
                    subst Consistent (ground arith)
                      (write_app-Consistent ext policy dto pending db passed c)
              ]
      ]

  pub rotate_client_secret-Consistent :
      (hash : String → String) (caller public_id secret : String) (now : ℕ) (db : Db)
      → Consistent db
      → Consistent (rotate_client_secret hash caller public_id secret now db).1
  unfolding rotate_client_secret write_client_secret set_client_secret
  rotate_client_secret-Consistent hash caller public_id secret now db c =
      after_find Consistent caller public_id (write_client_secret hash secret now) db
        (λ a found.
          then_reads parse_url orgs roles
            (commit (update_app_row a.id (set_client_secret (hash secret) now))) (λ u. pure secret)
            db (λ u t. refl)
            (commit-Consistent parse_url orgs roles
              (update_app_row a.id (set_client_secret (hash secret) now)) db
              (λ db' e.
                update_app_row-Preserves parse_url orgs roles a.id
                  (set_client_secret (hash secret) now)
                  (set_client_secret-Keeps parse_url orgs roles a.id (hash secret) now) (λ x. refl)
                  db db' e c)
              c))
        c

  pub delete_app-Consistent :
      (caller public_id : String) (db : Db)
      → Consistent db
      → Consistent (delete_app caller public_id db).1
  unfolding delete_app delete_managed_app
  delete_app-Consistent caller public_id db c =
      after_find Consistent caller public_id delete_managed_app db
        (λ a found. elim (Bool-cases a.is_platform) [
          | inl platform ↦ subst Consistent (ground arith) c
          | inr own ↦ subst Consistent (ground arith) (
              caught-Consistent parse_url orgs roles (delete_app_row a.id) refuse_dependents db
                (λ e t. ground arith) (delete_app_row-Preserves parse_url orgs roles a.id) c)
        ])
        c

  -- The row of the id has a URL for its webhook, so it may have a secret.
  set_webhook_secret-Keeps :
      (secret : String) (a : SaApp) (db : Db)
      → Consistent db
      → Memᴰ a db.apps
      → is_truthy a.activation.webhook_url ≡ true
      → KeepsAmong parse_url db.apps orgs roles a.id (set_webhook_secret secret)
  unfolding set_webhook_secret
  set_webhook_secret-Keeps secret a db c m hooked x k same v =
      let row : x ≡ a = same_row (λ a. a.id) db.apps a x c.keys m k same in
      let url : is_truthy x.activation.webhook_url ≡ true =
        subst (λ (y : SaApp). is_truthy y.activation.webhook_url ≡ true) (sym row) hooked in
      record {
        webs = v.webs;
        once = v.once;
        default_org = v.default_org;
        default_role = v.default_role;
        policy = v.policy;
        branding = v.branding;
        webhook = λ e. ground arith;
      }

  pub rotate_webhook_secret-Consistent :
      (caller public_id secret : String) (db : Db)
      → Consistent db
      → Consistent (rotate_webhook_secret caller public_id secret db).1
  unfolding rotate_webhook_secret write_webhook_secret find_app set_webhook_secret
  rotate_webhook_secret-Consistent caller public_id secret db c =
      after_find Consistent caller public_id (write_webhook_secret secret) db
        (λ a found. elim (Bool-cases (is_truthy a.activation.webhook_url)) [
          | inr unset ↦ subst Consistent (ground arith) c
          | inl hooked ↦
              let (m, q) = find?_sound (λ a. a.public_id === public_id) db.apps found in
              let f = set_webhook_secret secret in
              subst Consistent (ground arith) (
                then_reads parse_url orgs roles (commit (update_app_row a.id f)) (λ u. pure secret)
                  db (λ u t. refl)
                  (commit-Consistent parse_url orgs roles (update_app_row a.id f) db
                    (λ db' e.
                      update_app_row-Consistent parse_url orgs roles a.id f db db'
                        (set_webhook_secret-Keeps secret a db c m hooked) (λ x. refl) e c)
                    c))
        ])
        c

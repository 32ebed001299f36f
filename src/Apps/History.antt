-- ===== src/Apps/History.antt =====
-- The table of apps along any sequence of operations on apps, whoever calls them.
use sassy_auth.Common.{ℕ, String, Option, List}
use sassy_auth.RedirectUri.{Url}
use sassy_auth.PasswordPolicy.{PasswordPolicy}
use sassy_auth.Db.{SaOrg, SaRole, Db}
use sassy_auth.Queries.{Externals}
use sassy_auth.Apps.Settings.{CreateAppDto, UpdateAppDto}
use sassy_auth.Apps.Invariant.{IsConsistent}
use sassy_auth.Apps.Updates.{update_app-Consistent}
use sassy_auth.Apps.Operations.{
  create_app-Consistent, rotate_client_secret-Consistent, rotate_webhook_secret-Consistent,
  delete_app-Consistent,
}
use sassy_auth.Apps.{
  create_app, update_app, rotate_client_secret, rotate_webhook_secret, delete_app,
}

module _ (parse_url : String → Option Url) where
  -- A request of some caller, and the tables that it leaves, whether it was answered or refused.
  pub data Step : Db → Db → Type 0 where
    create :
        (ext : Externals) (policy : PasswordPolicy) (caller : String) (dto : CreateAppDto)
        (pending : String) {db : Db}
        → Step db (create_app parse_url ext policy caller dto pending db).1
    update :
        (policy : PasswordPolicy) (caller public_id : String) (dto : UpdateAppDto) {db : Db}
        → Step db (update_app parse_url policy caller public_id dto db).1
    rotate_client :
        (hash_password : String → String) (caller public_id secret : String) (now : ℕ) {db : Db}
        → Step db (rotate_client_secret hash_password caller public_id secret now db).1
    rotate_webhook :
        (caller public_id secret : String) {db : Db}
        → Step db (rotate_webhook_secret caller public_id secret db).1
    delete : (caller public_id : String) {db : Db} → Step db (delete_app caller public_id db).1

  pub data Reaches : Db → Db → Type 0 where
    here : {db : Db} → Reaches db db
    after : {db mid db' : Db} → Reaches db mid → Step mid db' → Reaches db db'

  module _ (orgs : List SaOrg) (roles : List SaRole) where
    step-Consistent :
        {db db' : Db}
        → Step db db'
        → IsConsistent parse_url orgs roles db
        → IsConsistent parse_url orgs roles db'
    step-Consistent (create ext policy caller dto pending {db}) c =
        create_app-Consistent parse_url orgs roles ext policy caller dto pending db c
    step-Consistent (update policy caller public_id dto {db}) c =
        update_app-Consistent parse_url orgs roles policy caller public_id dto db c
    step-Consistent (rotate_client hash caller public_id secret now {db}) c =
        rotate_client_secret-Consistent parse_url orgs roles hash caller public_id secret now db c
    step-Consistent (rotate_webhook caller public_id secret {db}) c =
        rotate_webhook_secret-Consistent parse_url orgs roles caller public_id secret db c
    step-Consistent (delete caller public_id {db}) c =
        delete_app-Consistent parse_url orgs roles caller public_id db c

    -- Along any sequence of requests to create, update or delete apps and to rotate their secrets,
    -- answered or refused, every app of a table that was consistent keeps distinct redirect URIs
    -- that are absolute URLs of the web, default organisations and roles of its own, a password
    -- policy within its bounds, mail headers of one line, and no webhook secret without a URL.
    pub reached-IsConsistent :
        {db db' : Db}
        → Reaches db db'
        → IsConsistent parse_url orgs roles db
        → IsConsistent parse_url orgs roles db'
    reached-IsConsistent here c = c
    reached-IsConsistent (after before step) c =
        step-Consistent step (reached-IsConsistent before c)

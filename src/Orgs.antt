-- ===== src/Orgs.antt =====
-- apps/auth-server/src/orgs/orgs.service.ts. The pending id is the value of
-- `generatePendingPublicId`; logging is left out.
pub mod Listing
pub mod Platform
use sassy_auth.Common.{
  ℕ, String, Bool, true, false, ◌&&◌, Option, none, some, List, [], ◌∷◌, map, ⊤, ◌==◌, is_number, ℤ,
  pos, if◌then◌else◌, find?, bare, plain, with_names, Exception, bad_request, forbidden, not_found,
  get_or, count_where, conflict, p2002, p2003, is_prisma_code, Result, ok, err, Action, ◌>>=◌, ◌>>◌,
  pure, throw, gets, or_throw, throw_if, commit, try_catch, ◌===◌,
}
use sassy_auth.Db.{SaApp, SaOrg, Db}
use sassy_auth.Access.{check_permission, ListScope, platform, org, resolve_list_scope}
use sassy_auth.Queries.{
  Externals, AppRef, app_ref, find_app, find_org, count_users_of_org, app_filter, in_app, ListQuery,
  Page, name_selected, rows_of_page,
}
use sassy_auth.Queries.Tables.{Write, ◌>>>◌, insert_org, update_org_row, delete_org_row}

-- What `formatOrg` makes of a row.
pub record OrgView : Type 0 where
  pub public_id : String
  pub name : String
  pub is_platform : Bool
  pub user_count : ℕ
  pub app : Option AppRef

unfoldable pub format_org : Db → SaOrg → OrgView
format_org db o = record {
  public_id = o.public_id;
  name = o.name;
  is_platform = o.is_platform;
  user_count = count_users_of_org o.id db;
  app = app_ref o.app_id db;
}

-- The permissions that let a caller read organisations.
abbrev pub orgs_read : List String
orgs_read = "platform.orgs.manage" ∷ "platform.users.manage" ∷ "org.users.manage" ∷ []

abbrev pub orgs_manage : List String
orgs_manage = "platform.orgs.manage" ∷ []

pub record CreateOrgDto : Type 0 where
  pub name : String
  pub app_id : String

abbrev pub org_name_taken : Exception
org_name_taken = conflict (plain "Org with this name already exists in this app")

abbrev pub immutable : Exception
immutable = forbidden (plain "Platform org cannot be modified")

-- `where.id = scope.orgId` in the organisation's scope
unfoldable pub in_scope : ListScope → SaOrg → Bool
in_scope platform o = true
in_scope (org i) o = o.id == i

unfoldable pub org_selected : Externals → ListScope → Option ℕ → Option String → SaOrg → Bool
org_selected ext scope app_id q o =
    in_scope scope o && in_app app_id o.app_id && name_selected ext q o.name

unfoldable pub list_orgs : Externals → String → ListQuery → Action Db (Page OrgView)
list_orgs ext caller q = do
  scope ← resolve_list_scope caller orgs_read
  app_id ← app_filter q.app_id
  let page = get_or q.page 1
  let page_size = get_or q.page_size 25
  let selected = org_selected ext scope app_id q.q
  gets (λ db. record {
    items = map (format_org db) (rows_of_page (λ o. o.id) selected page page_size db.orgs);
    total = count_where selected db.orgs;
    page = page;
    page_size = page_size;
  })

unfoldable pub get_org : String → String → Action Db OrgView
get_org caller public_id = do
  row ← or_throw (← gets (find_org public_id)) (not_found bare)
  check_permission caller orgs_read (some (pos row.id))
  gets (λ db. format_org db row)

unfoldable pub create_org_tx : Externals → String → String → ℕ → Write
create_org_tx ext pending name app_id db =
    let i = db.next_org_id in
    (insert_org (record {
      id = i;
      public_id = pending;
      name = name;
      app_id = app_id;
      is_platform = false;
    })
        >>> update_org_row i (λ o. record o { public_id = ext.encode i }))
      db

unfoldable pub create_org : Externals → String → CreateOrgDto → String → Action Db OrgView
create_org ext caller dto pending = do
  check_permission caller orgs_manage none
  app ← or_throw (← gets (find_app dto.app_id)) (not_found (plain "App not found"))
  throw_if app.is_platform (forbidden (plain "Cannot create orgs under a platform app"))
  i ← gets (λ db. db.next_org_id)
  try_catch (commit (create_org_tx ext pending dto.name app.id))
      (λ e. if is_prisma_code e p2002 then throw org_name_taken else throw e)
  row ← or_throw (← gets (λ db. find? (λ o. o.id == i) db.orgs)) (not_found bare)
  gets (λ db. format_org db row)

-- `dto.name` is the only field of the update.
unfoldable pub update_org : String → String → Option String → Action Db OrgView
update_org caller public_id new_name = do
  name ← or_throw new_name (bad_request (plain "At least one of name must be provided"))
  check_permission caller orgs_manage none
  existing ← or_throw (← gets (find_org public_id)) (not_found bare)
  throw_if existing.is_platform immutable
  try_catch (commit (update_org_row existing.id (λ o. record o { name = name })))
      (λ e. if is_prisma_code e p2002 then throw org_name_taken else throw e)
  row ← or_throw (← gets (find_org public_id)) (not_found bare)
  gets (λ db. format_org db row)

unfoldable pub org_in_use : ℕ → Db → Exception
org_in_use i db = elim (find? (λ a. is_number a.default_org_id i) db.apps) [
  | some app ↦ conflict (with_names "Org is the default org for app \"%\"" (app.name ∷ []))
  | none ↦ conflict (plain "Org has dependent users")
]

unfoldable pub delete_org : String → String → Action Db ⊤
delete_org caller public_id = do
  check_permission caller orgs_manage none
  existing ← or_throw (← gets (find_org public_id)) (not_found bare)
  throw_if existing.is_platform immutable
  try_catch (commit (delete_org_row existing.id)) (λ e db.
      if is_prisma_code e p2003 then (err (org_in_use existing.id db), db) else (err e, db))

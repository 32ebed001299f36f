-- ===== src/Roles/Listing.antt =====
-- `listRoles` of roles.service.ts, and which callers may list what.
use sassy_auth.Common.{
  ℕ, String, none, some, Option, map, ◌&&◌, get_or, ℤ, pos, negsuc, count_where, bare, forbidden,
  Action, ◌>>=◌, ◌>>◌, gets, or_throw, Bool,
}
use sassy_auth.Db.{SaRole, Db}
use sassy_auth.Access.AppScope.{check_permission_for_app}
use sassy_auth.Queries.{
  Externals, AppRef, app_ref, app_filter, in_app, count_permissions_of_role, count_users_of_role,
  ListQuery, Page, name_selected, rows_of_page,
}
use sassy_auth.Roles.{app_of_caller, roles_read}

-- An item of the list.
pub record RoleSummary : Type 0 where
  pub public_id : String
  pub name : String
  pub app : Option AppRef
  pub permission_count : ℕ
  pub user_count : ℕ

unfoldable pub role_summary : Db → SaRole → RoleSummary
role_summary db r = record {
  public_id = r.public_id;
  name = r.name;
  app = app_ref r.app_id db;
  permission_count = count_permissions_of_role r.id db;
  user_count = count_users_of_role r.id db;
}

-- `targetAppId`: -1, without an app, lets only a `platform.*` permission through.
unfoldable pub target_app : Option ℕ → ℤ
target_app none = negsuc 0
target_app (some i) = pos i

unfoldable pub role_selected : Externals → Option ℕ → Option String → SaRole → Bool
role_selected ext app_id q r = in_app app_id r.app_id && name_selected ext q r.name

unfoldable pub list_roles : Externals → String → ListQuery → Action Db (Page RoleSummary)
list_roles ext caller q = do
  caller_app ← or_throw (← gets (app_of_caller caller)) (forbidden bare)
  app_id ← app_filter q.app_id
  check_permission_for_app caller roles_read (some (target_app app_id)) (some caller_app)
  let page = get_or q.page 1
  let page_size = get_or q.page_size 25
  let selected = role_selected ext app_id q.q
  gets (λ db. record {
    items = map (role_summary db) (rows_of_page (λ r. r.id) selected page page_size db.roles);
    total = count_where selected db.roles;
    page = page;
    page_size = page_size;
  })

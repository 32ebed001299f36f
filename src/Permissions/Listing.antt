-- ===== src/Permissions/Listing.antt =====
-- `listPermissions` of permissions.service.ts.
use sassy_auth.Common.{
  String, ◌&&◌, none, Option, List, [], ◌∷◌, map, get_or, count_where, ℕ, Bool, Action, ◌>>=◌, ◌>>◌,
  gets,
}
use sassy_auth.Db.{SaPermission, Db}
use sassy_auth.Access.{check_permission}
use sassy_auth.Queries.{
  Externals, app_filter, in_app, count_roles_of_permission, count_users_of_permission, ListQuery,
  Page, name_selected, rows_of_page,
}
use sassy_auth.Permissions.{PermissionSummary, permission_summary}

-- The permissions that let a caller read permissions.
abbrev pub permissions_read : List String
permissions_read = "platform.permissions.manage" ∷ "platform.users.manage" ∷ []

unfoldable pub permission_selected : Externals → Option ℕ → Option String → SaPermission → Bool
permission_selected ext app_id q p = in_app app_id p.app_id && name_selected ext q p.name

-- An item of the list: the counts come from two `groupBy` queries, 0 where a group is missing.
unfoldable pub listed_permission : Db → SaPermission → PermissionSummary
listed_permission db p =
    permission_summary db p (count_roles_of_permission p.id db) (count_users_of_permission p.id db)

unfoldable pub list_permissions :
    Externals → String → ListQuery → Action Db (Page PermissionSummary)
list_permissions ext caller q = do
  check_permission caller permissions_read none
  app_id ← app_filter q.app_id
  let page = get_or q.page 1
  let page_size = get_or q.page_size 25
  let selected = permission_selected ext app_id q.q
  gets (λ db. record {
    items =
        map (listed_permission db)
          (rows_of_page (λ p. p.id) selected page page_size db.permissions);
    total = count_where selected db.permissions;
    page = page;
    page_size = page_size;
  })

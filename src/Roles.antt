-- ===== src/Roles.antt =====
-- apps/auth-server/src/roles/roles.service.ts. The pending id is the value of
-- `generatePendingPublicId`; logging is left out.
pub mod Listing
pub mod Deletion
use sassy_auth.Common.{
  ℕ, ◌+◌, String, Bool, true, false, not, ◌&&◌, ◌||◌, Option, none, some, List, [], ◌∷◌, map, ⊤,
  ◌==◌, is_number, is_some, get_or, if◌then◌else◌, find?, any, length, ℤ, pos, bare, plain,
  with_counts, with_names, Exception, bad_request, forbidden, not_found, conflict, p2002, p2003,
  is_prisma_code, Result, ok, err, Action, ◌>>=◌, ◌>>◌, pure, throw, gets, or_throw, throw_if,
  commit, try_catch,
}
use sassy_auth.Db.{SaApp, SaOrg, SaUser, SaRole, SaPermission, Db}
use sassy_auth.Access.{check_permission, permissions_of_role, find_user_by_ba_id}
use sassy_auth.Access.AppScope.{check_permission_for_app, resolve_permission_ids_for_app}
use sassy_auth.Queries.{
  Externals, AppRef, app_ref, find_app, find_org_by_id, find_role, count_users_of_role,
}
use sassy_auth.Queries.Tables.{
  Write, ◌>>>◌, write_if, insert_role, update_role_row, delete_role_row, delete_role_permissions,
  insert_role_permissions,
}

pub record PermissionRef : Type 0 where
  pub public_id : String
  pub name : String

-- What getRole, createRole and updateRole answer.
pub record RoleDetail : Type 0 where
  pub public_id : String
  pub name : String
  pub app : Option AppRef
  pub permission_count : ℕ
  pub user_count : ℕ
  pub permissions : List PermissionRef

abbrev pub permission_ref : SaPermission → PermissionRef
permission_ref p = record { public_id = p.public_id; name = p.name }

-- ROLE_DETAIL_INCLUDE and the answer that is made of it.
unfoldable pub role_detail : Externals → Db → SaRole → ℕ → RoleDetail
role_detail ext db r user_count =
    let perms = ext.by_name (permissions_of_role db r) in
    record {
      public_id = r.public_id;
      name = r.name;
      app = app_ref r.app_id db;
      permission_count = length perms;
      user_count = user_count;
      permissions = map permission_ref perms;
    }

abbrev pub roles_manage : List String
roles_manage = "platform.roles.manage" ∷ []

-- The permissions that let a caller read roles.
abbrev pub roles_read : List String
roles_read = "platform.roles.manage" ∷ "platform.users.manage" ∷ "org.roles.manage" ∷ []

-- `caller.org.appId`
unfoldable pub app_of_caller : String → Db → Option ℕ
app_of_caller ba db = elim (find_user_by_ba_id ba db) [
  | none ↦ none
  | some u ↦ elim (find_org_by_id u.org_id db) [ none ↦ none | some o ↦ some o.app_id ]
]

pub record CreateRoleDto : Type 0 where
  pub name : String
  pub app_id : String
  pub permission_ids : Option (List String)

pub record UpdateRoleDto : Type 0 where
  pub name : Option String
  pub permission_ids : Option (List String)

abbrev pub role_name_taken : Exception
role_name_taken = conflict (plain "Role with this name already exists in this app")

-- The transaction of `createRole`: a draft, its permissions, and the encoded id.
unfoldable pub create_role_tx : Externals → String → String → ℕ → List ℕ → Write
create_role_tx ext pending name app_id permission_ids db =
    let i = db.next_role_id in
    (insert_role (record { id = i; public_id = pending; name = name; app_id = app_id })
        >>> insert_role_permissions i permission_ids
        >>> update_role_row i (λ r. record r { public_id = ext.encode i }))
      db

-- The transaction of `updateRole`.
unfoldable pub update_role_tx : SaRole → Option String → Option (List ℕ) → Write
update_role_tx existing name permission_ids =
    write_if (is_some name)
      (update_role_row existing.id (λ r. record r { name = get_or name r.name }))
    >>> write_if (is_some permission_ids) (
        delete_role_permissions existing.id
        >>> insert_role_permissions existing.id (get_or permission_ids []))

unfoldable pub delete_role_tx : SaRole → Write
delete_role_tx existing = delete_role_permissions existing.id >>> delete_role_row existing.id

-- `dto.permissionIds === undefined ? undefined : await resolvePermissionIdsForApp(…)`
unfoldable pub resolve_optional_ids : ℕ → Option (List String) → Action Db (Option (List ℕ))
resolve_optional_ids app_id none = pure none
resolve_optional_ids app_id (some ids) = do
  pure (some (← resolve_permission_ids_for_app app_id ids))

module _ (ext : Externals) where
  unfoldable pub get_role : String → String → Action Db RoleDetail
  get_role caller public_id = do
    row ← or_throw (← gets (find_role public_id)) (not_found bare)
    caller_app ← or_throw (← gets (app_of_caller caller)) (forbidden bare)
    check_permission_for_app caller roles_read (some (pos row.app_id)) (some caller_app)
    gets (λ db. role_detail ext db row (count_users_of_role row.id db))

  unfoldable pub create_role : String → CreateRoleDto → String → Action Db RoleDetail
  create_role caller dto pending = do
    check_permission caller roles_manage none
    app ← or_throw (← gets (find_app dto.app_id)) (not_found (plain "App not found"))
    permission_ids ← resolve_permission_ids_for_app app.id (get_or dto.permission_ids [])
    i ← gets (λ db. db.next_role_id)
    try_catch (commit (create_role_tx ext pending dto.name app.id permission_ids))
        (λ e. if is_prisma_code e p2002 then throw role_name_taken else throw e)
    row ← or_throw (← gets (λ db. find? (λ r. r.id == i) db.roles)) (not_found bare)
    gets (λ db. role_detail ext db row 0)

  unfoldable pub update_role : String → String → UpdateRoleDto → Action Db RoleDetail
  update_role caller public_id dto = do
    check_permission caller roles_manage none
    throw_if (not (is_some dto.name) && not (is_some dto.permission_ids))
        (bad_request (plain "At least one of name or permissionIds must be provided"))
    existing ← or_throw (← gets (find_role public_id)) (not_found bare)
    permission_ids ← resolve_optional_ids existing.app_id dto.permission_ids
    try_catch (commit (update_role_tx existing dto.name permission_ids))
        (λ e. if is_prisma_code e p2002 then throw role_name_taken else throw e)
    row ← or_throw (← gets (find_role public_id)) (not_found bare)
    gets (λ db. role_detail ext db row (count_users_of_role row.id db))

-- The exception that `deleteRole` makes of a refused foreign key.
unfoldable pub role_in_use : ℕ → Db → Exception
role_in_use i db = elim (find? (λ a. is_number a.default_role_id i) db.apps) [
  | some app ↦ conflict (with_names "Role is the default role for app \"%\"" (app.name ∷ []))
  | none ↦ conflict (with_counts "Role is assigned to % users" (count_users_of_role i db ∷ []))
]

unfoldable pub delete_role : String → String → Action Db ⊤
delete_role caller public_id = do
  check_permission caller roles_manage none
  existing ← or_throw (← gets (find_role public_id)) (not_found bare)
  try_catch (commit (delete_role_tx existing)) (λ e db.
      if is_prisma_code e p2003 then (err (role_in_use existing.id db), db) else (err e, db))

-- ===== src/Permissions.antt =====
-- apps/auth-server/src/permissions/permissions.service.ts. The pending id is the value of
-- `generatePendingPublicId`; logging is left out.
pub mod Listing
pub mod Reserved
use sassy_auth.Common.{
  ℕ, String, Bool, true, false, ◌||◌, Option, none, some, List, [], ◌∷◌, ⊤, ◌==◌, if◌then◌else◌,
  find?, bare, plain, with_counts, Exception, bad_request, forbidden, not_found, conflict, p2002,
  p2003, is_prisma_code, Result, ok, err, Action, ◌>>=◌, ◌>>◌, pure, throw, gets, or_throw,
  throw_if, commit, try_catch, begins_with, lower, codes,
}
use sassy_auth.Db.{SaApp, SaPermission, Db}
use sassy_auth.Access.{check_permission}
use sassy_auth.Queries.{
  Externals, AppRef, app_ref, find_app, find_permission, count_roles_of_permission,
  count_users_of_permission,
}
use sassy_auth.Queries.Tables.{
  Write, ◌>>>◌, insert_permission, update_permission_row, delete_permission_row,
}

-- `isPlatform`
unfoldable pub is_platform : String → Bool
is_platform name = begins_with (lower name) (codes "platform.")

pub record PermissionSummary : Type 0 where
  pub public_id : String
  pub name : String
  pub is_system : Bool
  pub app : Option AppRef
  pub role_count : ℕ
  pub user_count : ℕ

unfoldable pub permission_summary : Db → SaPermission → ℕ → ℕ → PermissionSummary
permission_summary db p role_count user_count = record {
  public_id = p.public_id;
  name = p.name;
  is_system = p.is_system;
  app = app_ref p.app_id db;
  role_count = role_count;
  user_count = user_count;
}

abbrev pub permissions_manage : List String
permissions_manage = "platform.permissions.manage" ∷ []

pub record CreatePermissionDto : Type 0 where
  pub name : String
  pub app_id : String

abbrev pub name_taken : Exception
name_taken = conflict (plain "Permission with this name already exists")

abbrev pub reserved : Exception
reserved = forbidden (plain "Permissions with the `platform.` prefix are reserved")

abbrev pub immutable : Exception
immutable = forbidden (plain "Platform-system permissions cannot be modified")

unfoldable pub create_permission_tx : Externals → String → String → ℕ → Write
create_permission_tx ext pending name app_id db =
    let i = db.next_permission_id in
    (insert_permission
          (record { id = i; public_id = pending; name = name; app_id = app_id; is_system = false })
        >>> update_permission_row i (λ p. record p { public_id = ext.encode i }))
      db

module _ (ext : Externals) where
  unfoldable pub create_permission :
      String → CreatePermissionDto → String → Action Db PermissionSummary
  create_permission caller dto pending = do
    check_permission caller permissions_manage none
    throw_if (is_platform dto.name) reserved
    app ← or_throw (← gets (find_app dto.app_id)) (not_found (plain "App not found"))
    i ← gets (λ db. db.next_permission_id)
    try_catch (commit (create_permission_tx ext pending dto.name app.id))
        (λ e. if is_prisma_code e p2002 then throw name_taken else throw e)
    row ← or_throw (← gets (λ db. find? (λ p. p.id == i) db.permissions)) (not_found bare)
    gets (λ db. permission_summary db row 0 0)

-- `dto.name` is the only field of the update.
unfoldable pub update_permission : String → String → Option String → Action Db PermissionSummary
update_permission caller public_id new_name = do
  check_permission caller permissions_manage none
  name ← or_throw new_name (bad_request (plain "At least one of name must be provided"))
  existing ← or_throw (← gets (find_permission public_id)) (not_found bare)
  throw_if (is_platform existing.name || existing.is_system) immutable
  throw_if (is_platform name) reserved
  try_catch (commit (update_permission_row existing.id (λ p. record p { name = name })))
      (λ e. if is_prisma_code e p2002 then throw name_taken else throw e)
  row ← or_throw (← gets (find_permission public_id)) (not_found bare)
  gets (λ db.
      permission_summary db row (count_roles_of_permission row.id db)
        (count_users_of_permission row.id db))

unfoldable pub permission_in_use : ℕ → Db → Exception
permission_in_use i db = conflict (
    with_counts "Permission is in use by % roles and % users"
      (count_roles_of_permission i db ∷ count_users_of_permission i db ∷ []))

unfoldable pub delete_permission : String → String → Action Db ⊤
delete_permission caller public_id = do
  check_permission caller permissions_manage none
  existing ← or_throw (← gets (find_permission public_id)) (not_found bare)
  throw_if (is_platform existing.name || existing.is_system) immutable
  try_catch (commit (delete_permission_row existing.id)) (λ e db.
      if is_prisma_code e p2003 then (err (permission_in_use existing.id db), db) else (err e, db))

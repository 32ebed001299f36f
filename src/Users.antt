-- ===== src/Users.antt =====
-- The access that users.service.ts (apps/auth-server/src/users) and service-users.service.ts
-- (apps/auth-server/src/service-users) give and take: roles and direct permissions. Logging is
-- left out.
pub mod Writes
pub mod Service
pub mod Accounts
pub mod Deactivation
pub mod Lockout
pub mod Removal
pub mod Listing
pub mod Escalation
pub mod Boundary
pub mod Reading
use sassy_auth.Common.{
  unique, ℕ, String, Bool, true, false, not, ◌&&◌, Option, none, some, List, [], ◌∷◌, map, ⊤, ◌==◌,
  ◌===◌, ℤ, pos, if◌then◌else◌, filter, flat_map, bare, plain, Exception, forbidden, not_found,
  p2002, p2025, is_prisma_code, Result, ok, err, Action, ◌>>=◌, ◌>>◌, pure, throw, gets, or_throw,
  throw_if, commit, try_catch,
}
use sassy_auth.Db.{SaUser, SaOrg, SaRole, SaPermission, Db}
use sassy_auth.Access.{
  check_permission, permissions_of_role, direct_permissions_of_user, permission_names,
  assert_caller_can_grant_system_perms,
}
use sassy_auth.Access.AppScope.{
  permissions_by_public_id, roles_by_public_id, resolve_permission_ids_for_app,
  resolve_role_ids_for_app,
}
use sassy_auth.Queries.{find_user, find_role, find_org_by_id}
use sassy_auth.Users.Writes.{
  insert_user_role, delete_user_role, set_user_role_rows, set_user_permission_rows,
}

-- The permissions that let a caller manage users.
abbrev pub users_manage : List String
users_manage = "platform.users.manage" ∷ "org.users.manage" ∷ []

-- `permissions.filter((p) => p.isSystem).map((p) => p.name)`
unfoldable pub system_names : List SaPermission → List String
system_names ps = map (λ p. p.name) (filter (λ p. p.is_system) ps)

-- The user whose access changes, if the caller may manage that user.
unfoldable pub managed_user : String → String → Action Db SaUser
managed_user caller user_public_id = do
  user ← or_throw (← gets (find_user user_public_id)) (not_found (plain "User not found"))
  check_permission caller users_manage (some (pos user.org_id))
  pure user

-- The common part of `assignRole` and `removeRole`.
unfoldable pub managed_user_and_role : String → String → String → Action Db (SaUser × SaRole)
managed_user_and_role caller user_public_id role_public_id = do
  user ← managed_user caller user_public_id
  role ← or_throw (← gets (find_role role_public_id)) (not_found (plain "Role not found"))
  names ← gets (λ db. system_names (permissions_of_role db role))
  assert_caller_can_grant_system_perms caller names
  pure (user, role)

-- `assignRole`: a role that is already assigned is no error.
unfoldable pub assign_role : String → String → String → Action Db ⊤
assign_role caller user_public_id role_public_id = do
  both ← managed_user_and_role caller user_public_id role_public_id
  try_catch (commit (insert_user_role both.0.id both.1.id))
      (λ e. if is_prisma_code e p2002 then pure tt else throw e)

-- `removeRole`: a role that is not assigned is no error.
unfoldable pub remove_role : String → String → String → Action Db ⊤
remove_role caller user_public_id role_public_id = do
  both ← managed_user_and_role caller user_public_id role_public_id
  try_catch (commit (delete_user_role both.0.id both.1.id))
      (λ e. if is_prisma_code e p2025 then pure tt else throw e)

-- The common part of `setUserRoles` and `setUserDirectPermissions`: the user and the user's
-- organisation, where the caller may edit the user's access.
unfoldable pub editable_user : String → String → Action Db (SaUser × SaOrg)
editable_user caller user_public_id = do
  user ← or_throw (← gets (find_user user_public_id)) (not_found (plain "User not found"))
  throw_if (user.better_auth_user_id === caller)
      (forbidden (plain "You cannot edit your own access"))
  check_permission caller users_manage (some (pos user.org_id))
  org ← or_throw (← gets (find_org_by_id user.org_id)) (not_found (plain "User org not found"))
  pure (user, org)

-- The system permissions that the roles carry.
unfoldable pub system_names_of_roles : List String → Db → List String
system_names_of_roles role_ids db =
    unique
      (flat_map (λ r. system_names (permissions_of_role db r)) (roles_by_public_id role_ids db))

unfoldable pub set_user_roles : String → String → List String → Action Db ⊤
set_user_roles caller user_public_id role_ids = do
  both ← editable_user caller user_public_id
  names ← gets (system_names_of_roles role_ids)
  assert_caller_can_grant_system_perms caller names
  ids ← resolve_role_ids_for_app both.1.app_id role_ids
  commit (set_user_role_rows both.0.id ids)

unfoldable pub set_user_direct_permissions : String → String → List String → Action Db ⊤
set_user_direct_permissions caller user_public_id permission_ids = do
  both ← editable_user caller user_public_id
  names ← gets (λ db. system_names (permissions_by_public_id permission_ids db))
  assert_caller_can_grant_system_perms caller names
  ids ← resolve_permission_ids_for_app both.1.app_id permission_ids
  commit (set_user_permission_rows both.0.id ids)

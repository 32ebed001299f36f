-- ===== src/Access.antt =====
-- Who may do what: apps/auth-server/src/common/permissions. Each helper reads the caller's row
-- with its roles, their permissions and the direct permissions.
pub mod AppScope
pub mod Holdings
pub mod Tenancy
pub mod Listing
pub mod AppTenancy
pub mod Outcomes
use sassy_auth.Common.{
  ℕ, String, starts_with, Bool, true, false, not, ◌&&◌, ◌||◌, Option, none, some, List, [], ◌∷◌,
  ◌++◌, map, ⊤, ◌==◌, ◌===◌, ℤ, is_target, if◌then◌else◌, filter, find?, any, flat_map, filter_map,
  contains, bare, with_names, Exception, forbidden, Action, ◌>>=◌, ◌>>◌, pure, throw, gets,
  or_throw, throw_if,
}
use sassy_auth.Db.{SaUser, SaRole, SaPermission, SaUserRole, SaUserPermission, Db}

unfoldable pub find_user_by_ba_id : String → Db → Option SaUser
find_user_by_ba_id ba db = find? (λ u. u.better_auth_user_id === ba) db.users

unfoldable pub find_role_by_id : ℕ → Db → Option SaRole
find_role_by_id i db = find? (λ r. r.id == i) db.roles

unfoldable pub find_permission_by_id : ℕ → Db → Option SaPermission
find_permission_by_id i db = find? (λ p. p.id == i) db.permissions

-- `role: { include: { permissions: { include: { permission: true } } } }`
unfoldable pub permissions_of_role : Db → SaRole → List SaPermission
permissions_of_role db role =
    filter_map (λ rp. find_permission_by_id rp.permission_id db)
      (filter (λ rp. rp.role_id == role.id) db.role_permissions)

-- `roles: { include: { role: … } }`
unfoldable pub roles_of_user : Db → SaUser → List SaRole
roles_of_user db user =
    filter_map (λ ur. find_role_by_id ur.role_id db)
      (filter (λ ur. ur.user_id == user.id) db.user_roles)

-- `directPermissions: { include: { permission: true } }`
unfoldable pub direct_permissions_of_user : Db → SaUser → List SaPermission
direct_permissions_of_user db user =
    filter_map (λ up. find_permission_by_id up.permission_id db)
      (filter (λ up. up.user_id == user.id) db.user_permissions)

-- The set `perms`: the names of the permissions of the user's roles, then of the direct ones.
unfoldable pub permission_names : Db → SaUser → List String
permission_names db user =
    map (λ p. p.name)
      (flat_map (permissions_of_role db) (roles_of_user db user)
        ++ direct_permissions_of_user db user)

-- `r.startsWith('platform.')`
unfoldable pub is_platform_permission : String → Bool
is_platform_permission r = starts_with r "platform."

-- The first loop of each helper: a `platform.*` permission of the list that the caller holds.
unfoldable pub holds_platform : List String → List String → Bool
holds_platform perms required = any (λ r. is_platform_permission r && contains perms r) required

-- The second loop, as far as it does not look at the target.
unfoldable pub holds_scoped : List String → List String → Bool
holds_scoped perms required = any (λ r. not (is_platform_permission r) && contains perms r) required

-- The two loops of `checkPermission`: does one of the required permissions let the caller act?
unfoldable pub allows : List String → List String → Option ℤ → ℕ → Bool
allows perms required target org_id =
    holds_platform perms required
    || any (λ r. not (is_platform_permission r) && contains perms r && is_target target org_id)
        required

-- `checkPermission`: `target` is `options.targetOrgId`.
unfoldable pub check_permission : String → List String → Option ℤ → Action Db ⊤
check_permission ba required target = do
  user ← or_throw (← gets (find_user_by_ba_id ba)) (forbidden bare)
  perms ← gets (λ db. permission_names db user)
  throw_if (not (allows perms required target user.org_id)) (forbidden bare)

pub data ListScope : Type 0 where
  platform : ListScope
  org : ℕ → ListScope

-- `resolveListScope`
unfoldable pub resolve_list_scope : String → List String → Action Db ListScope
resolve_list_scope ba required = do
  user ← or_throw (← gets (find_user_by_ba_id ba)) (forbidden bare)
  perms ← gets (λ db. permission_names db user)
  if holds_platform perms required
      then pure platform
      else if holds_scoped perms required
      then pure (org user.org_id)
      else throw (forbidden bare)

abbrev pub platform_users_manage : String
platform_users_manage = "platform.users.manage"

-- `assertCallerCanGrantSystemPerms`
unfoldable pub assert_caller_can_grant_system_perms : String → List String → Action Db ⊤
assert_caller_can_grant_system_perms ba [] = pure tt
assert_caller_can_grant_system_perms ba (n ∷ ns) = do
  user ← or_throw (← gets (find_user_by_ba_id ba)) (forbidden bare)
  perms ← gets (λ db. permission_names db user)
  let missing = filter (λ m. not (contains perms m)) (n ∷ ns)
  if contains perms platform_users_manage
      then pure tt
      else throw_if (any (λ m. not (contains perms m)) (n ∷ ns))
          (forbidden (with_names "Cannot grant system permission(s) you do not hold: " missing))

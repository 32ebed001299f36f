-- ===== src/Access/AppScope.antt =====
-- check-permission-for-app.ts and resolve-app-scoped-ids.ts: targets that belong to an app.
use sassy_auth.Common.{
  ℕ, String, Bool, false, not, ◌&&◌, ◌||◌, Option, none, some, List, [], ◌∷◌, map, ⊤, ◌==◌, ℤ,
  is_target, filter, any, length, contains, bare, with_names, bad_request, forbidden, not_found,
  Action, ◌>>=◌, ◌>>◌, pure, gets, or_throw, throw_if,
}
use sassy_auth.Db.{SaRole, SaPermission, Db}
use sassy_auth.Access.{find_user_by_ba_id, permission_names, is_platform_permission, holds_platform}

-- `options.callerAppId === options.targetAppId`, both given
unfoldable pub same_app : Option ℤ → Option ℕ → Bool
same_app target none = false
same_app target (some caller) = is_target target caller

-- The two loops of `checkPermissionForApp`.
unfoldable pub allows_for_app : List String → List String → Option ℤ → Option ℕ → Bool
allows_for_app perms required target caller =
    holds_platform perms required
    || any (λ r. not (is_platform_permission r) && contains perms r && same_app target caller)
        required

-- `checkPermissionForApp`: `target` is `options.targetAppId`, `caller` is `options.callerAppId`.
unfoldable pub check_permission_for_app : String → List String → Option ℤ → Option ℕ → Action Db ⊤
check_permission_for_app ba required target caller = do
  user ← or_throw (← gets (find_user_by_ba_id ba)) (forbidden bare)
  perms ← gets (λ db. permission_names db user)
  throw_if (not (allows_for_app perms required target caller)) (forbidden bare)

-- `findMany({ where: { publicId: { in: ids } } })`
unfoldable pub permissions_by_public_id : List String → Db → List SaPermission
permissions_by_public_id ids db = filter (λ p. contains ids p.public_id) db.permissions

unfoldable pub roles_by_public_id : List String → Db → List SaRole
roles_by_public_id ids db = filter (λ r. contains ids r.public_id) db.roles

-- `resolvePermissionIdsForApp`
unfoldable pub resolve_permission_ids_for_app : ℕ → List String → Action Db (List ℕ)
resolve_permission_ids_for_app app_id [] = pure []
resolve_permission_ids_for_app app_id (i ∷ is) = do
  perms ← gets (permissions_by_public_id (i ∷ is))
  let found = map (λ p. p.public_id) perms
  throw_if (not (length perms == length (i ∷ is))) (
      not_found
        (with_names "Permission(s) not found: " (filter (λ k. not (contains found k)) (i ∷ is))))
  let wrong_app = filter (λ p. not p.is_system && not (p.app_id == app_id)) perms
  throw_if (any (λ p. not p.is_system && not (p.app_id == app_id)) perms) (
      bad_request
        (with_names "Permission(s) belong to a different app: " (map (λ p. p.public_id) wrong_app)))
  pure (map (λ p. p.id) perms)

-- `resolveRoleIdsForApp`
unfoldable pub resolve_role_ids_for_app : ℕ → List String → Action Db (List ℕ)
resolve_role_ids_for_app app_id [] = pure []
resolve_role_ids_for_app app_id (i ∷ is) = do
  roles ← gets (roles_by_public_id (i ∷ is))
  let found = map (λ r. r.public_id) roles
  throw_if (not (length roles == length (i ∷ is)))
      (not_found (with_names "Role(s) not found: " (filter (λ k. not (contains found k)) (i ∷ is))))
  let wrong_app = filter (λ r. not (r.app_id == app_id)) roles
  throw_if (any (λ r. not (r.app_id == app_id)) roles) (
      bad_request
        (with_names "Role(s) belong to a different app: " (map (λ r. r.public_id) wrong_app)))
  pure (map (λ r. r.id) roles)

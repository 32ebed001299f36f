-- ===== src/Users/Service.antt =====
-- service-users.service.ts: an app assigns its own roles to its own users with a service token.
use sassy_auth.Common.{
  ℕ, String, not, ⊤, ◌==◌, if◌then◌else◌, any, bare, plain, Exception, forbidden, not_found, p2002,
  p2025, is_prisma_code, Action, ◌>>=◌, ◌>>◌, pure, throw, gets, or_throw, throw_if, commit,
  try_catch,
}
use sassy_auth.Db.{SaUser, SaRole, Db}
use sassy_auth.Access.{permissions_of_role}
use sassy_auth.Queries.{find_user, find_role, find_org_by_id}
use sassy_auth.Users.Writes.{insert_user_role, delete_user_role}

abbrev pub carries_system : Exception
carries_system =
    forbidden (plain "Cannot assign a role carrying a system permission via a service token")

-- `resolveAndAuthorize`
unfoldable pub resolve_and_authorize : ℕ → String → String → Action Db (SaUser × SaRole)
resolve_and_authorize calling_app_id user_public_id role_public_id = do
  user ← or_throw (← gets (find_user user_public_id)) (not_found bare)
  org ← or_throw (← gets (find_org_by_id user.org_id)) (not_found bare)
  throw_if (not (org.app_id == calling_app_id)) (not_found bare)
  role ← or_throw (← gets (find_role role_public_id)) (not_found bare)
  throw_if (not (role.app_id == calling_app_id)) (not_found bare)
  perms ← gets (λ db. permissions_of_role db role)
  throw_if (any (λ p. p.is_system) perms) carries_system
  pure (user, role)

-- `assignRole`: a role that is already assigned is no error.
unfoldable pub assign_role : ℕ → String → String → Action Db ⊤
assign_role calling_app_id user_public_id role_public_id = do
  both ← resolve_and_authorize calling_app_id user_public_id role_public_id
  try_catch (commit (insert_user_role both.0.id both.1.id))
      (λ e. if is_prisma_code e p2002 then pure tt else throw e)

-- `removeRole`: a role that is not assigned is no error.
unfoldable pub remove_role : ℕ → String → String → Action Db ⊤
remove_role calling_app_id user_public_id role_public_id = do
  both ← resolve_and_authorize calling_app_id user_public_id role_public_id
  try_catch (commit (delete_user_role both.0.id both.1.id))
      (λ e. if is_prisma_code e p2025 then pure tt else throw e)

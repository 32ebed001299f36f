-- ===== src/Tests/Tenants.antt =====
-- Roles, permissions and organisations of the sample deployment.
use sassy_auth.Common.{false, none, some, [], ◌∷◌, ◌≡◌, refl, ok, find?, ◌==◌}
use sassy_auth.Db.{Db}
use sassy_auth.Access.{
  find_user_by_ba_id, find_role_by_id, find_permission_by_id, permissions_of_role, roles_of_user,
  direct_permissions_of_user, permission_names, is_platform_permission, holds_platform, allows,
  check_permission,
}
use sassy_auth.Queries.{ListQuery, find_role, count_permissions_of_role, count_users_of_role}
use sassy_auth.Roles.{roles_manage, delete_role}
use sassy_auth.Roles.Deletion.{delete_role_cascades}
use sassy_auth.Orgs.{OrgView}
use sassy_auth.Tests.Data.{db, clerk, shop}

-- A role that a user has, in a deployment where no app has a default role.
abbrev no_default : Db
no_default = record db { apps = record shop { default_role_id = none } ∷ [] }

may_manage : check_permission "root" roles_manage none no_default ≡ (ok tt, no_default)
unfolding check_permission find_user_by_ba_id permission_names permissions_of_role roles_of_user
    direct_permissions_of_user find_role_by_id find_permission_by_id is_platform_permission
    holds_platform allows
may_manage = refl

delete_role_cascades_example :
    let r = delete_role "root" "r3" no_default in
    (r.0 ≡ ok tt)
    × (find? (λ x. x.id == 3) r.1.roles ≡ none)
    × (count_permissions_of_role 3 r.1 ≡ 0)
    × (count_users_of_role 3 r.1 ≡ 0)
unfolding find_role
delete_role_cascades_example =
    delete_role_cascades "root" "r3" clerk no_default may_manage refl refl

may_manage_roles : check_permission "root" roles_manage none db ≡ (ok tt, db)
unfolding check_permission find_user_by_ba_id permission_names permissions_of_role roles_of_user
    direct_permissions_of_user find_role_by_id find_permission_by_id is_platform_permission
    holds_platform allows
may_manage_roles = refl

abbrev everything : ListQuery
everything = record { app_id = none; q = none; page = none; page_size = none }

abbrev north_view : OrgView
north_view = record {
  public_id = "o2";
  name = "North";
  is_platform = false;
  user_count = 2;
  app = some (record { public_id = "shop"; name = "Shop" });
}

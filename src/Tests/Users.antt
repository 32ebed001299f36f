-- ===== src/Tests/Users.antt =====
-- Users of the sample deployment, and what their tokens say.
use sassy_auth.Common.{some, ◌≡◌, ◌≢◌, ◌↔◌, refl, ok, pos}
use sassy_auth.Db.{SaUser, SaRole}
use sassy_auth.Access.{
  find_user_by_ba_id, find_role_by_id, find_permission_by_id, permissions_of_role, roles_of_user,
  direct_permissions_of_user, permission_names, is_platform_permission, holds_platform, allows,
  check_permission, assert_caller_can_grant_system_perms,
}
use sassy_auth.Queries.{find_user, find_role, find_org_by_id}
use sassy_auth.Access.Tenancy.{check_permission_iff}
use sassy_auth.Users.{assign_role, managed_user, managed_user_and_role, system_names, users_manage}
use sassy_auth.Users.Writes.{insert_user_role}
use sassy_auth.Users.Escalation.{MayAssign, MayManage, assign_role_iff}
use sassy_auth.Users.Boundary.{IsOwn, service_assign_iff}
use sassy_auth.Users.Service
use sassy_auth.Tests.Data.{db}

-- Anna gives Ben a role of their organisation.
assign_role_iff_example :
    (((assign_role "anna" "u3" "r4" db).0 ≡ ok tt)
      ↔ ((user : SaUser) × (role : SaRole) × MayAssign "anna" "u3" "r4" db user role))
    × ((assign_role "anna" "u3" "r4" db).0 ≢ ok tt → (assign_role "anna" "u3" "r4" db).1 ≡ db)
assign_role_iff_example = assign_role_iff "anna" "u3" "r4" db

anna-MayAssign : (user : SaUser) × (role : SaRole) × MayAssign "anna" "u3" "r4" db user role
unfolding assign_role managed_user managed_user_and_role system_names insert_user_role find_user
    find_role check_permission assert_caller_can_grant_system_perms find_user_by_ba_id
    permission_names permissions_of_role roles_of_user direct_permissions_of_user find_role_by_id
    find_permission_by_id is_platform_permission holds_platform allows
anna-MayAssign = (assign_role_iff "anna" "u3" "r4" db).0.0 refl

-- The shop gives Ben its role of a packer, and takes it back.
service_assign_iff_example : (user : SaUser) × (role : SaRole) × IsOwn 2 "u3" "r4" db user role
unfolding Service.assign_role Service.resolve_and_authorize insert_user_role find_user find_role
    find_org_by_id permissions_of_role
service_assign_iff_example = (service_assign_iff 2 "u3" "r4" db).0.0 refl

anna_manages : MayManage db "anna" 2
unfolding assign_role managed_user managed_user_and_role system_names insert_user_role find_user
    find_role check_permission assert_caller_can_grant_system_perms find_user_by_ba_id
    permission_names permissions_of_role roles_of_user direct_permissions_of_user find_role_by_id
    find_permission_by_id is_platform_permission holds_platform allows
anna_manages = (check_permission_iff db "anna" users_manage (some (pos 2))).0 refl

-- ===== src/Tests/Access.antt =====
-- Who may do what in the sample deployment.
use sassy_auth.Common.{String, some, List, [], ◌∷◌, ◌≡◌, refl, pos, err, forbidden, bare, arith}
use sassy_auth.Db.{SaUser}
use sassy_auth.Access.{
  find_user_by_ba_id, find_role_by_id, find_permission_by_id, permissions_of_role, roles_of_user,
  direct_permissions_of_user, permission_names, is_platform_permission, holds_platform, allows,
  check_permission,
}
use sassy_auth.Access.Tenancy.{
  HoldsPlatform, Granted, check_permission_iff, check_permission_isolates, holds_platform_iff,
}
use sassy_auth.Tests.Data.{db, anna}

abbrev manage : List String
manage = "platform.users.manage" ∷ "org.users.manage" ∷ []

-- Anna manages the users of her own organisation, by a permission that is not a `platform.*` one.
check_permission_iff_example :
    (u : SaUser) × (find_user_by_ba_id "anna" db ≡ some u) × Granted db u manage (some (pos 2))
unfolding check_permission find_user_by_ba_id permission_names permissions_of_role roles_of_user
    direct_permissions_of_user find_role_by_id find_permission_by_id is_platform_permission
    holds_platform allows
check_permission_iff_example = (check_permission_iff db "anna" manage (some (pos 2))).0 refl

no_platform : ¬ HoldsPlatform db anna manage
unfolding permission_names permissions_of_role roles_of_user direct_permissions_of_user
    find_role_by_id find_permission_by_id is_platform_permission holds_platform
no_platform h = let computed = (holds_platform_iff db anna manage).1 h in cc

check_permission_isolates_example :
    check_permission "anna" manage (some (pos 3)) db ≡ (err (forbidden bare), db)
unfolding find_user_by_ba_id
check_permission_isolates_example =
    check_permission_isolates db "anna" anna manage (some (pos 3)) refl no_platform
      (λ e. ground arith)

-- ===== src/Users/Escalation.antt =====
-- An administrator gives no more than the administrator holds.
use sassy_auth.Common.{
  ℕ, String, true, some, List, [], ◌≡◌, ◌≢◌, ◌↔◌, ◌⊎◌, inl, inr, arith, ok, err, pos, Option-cases,
  Exception, All, forbidden, bare, any, plain, not_found,
}
use sassy_auth.Db.{SaUser, SaRole, Db}
use sassy_auth.Access.{find_user_by_ba_id, permissions_of_role, platform_users_manage}
use sassy_auth.Access.Holdings.{Holds}
use sassy_auth.Access.Tenancy.{Granted, check_permission_iff}
use sassy_auth.Access.Listing.{assert_caller_can_grant_iff}
use sassy_auth.Access.Outcomes.{check_permission_cases, assert_caller_can_grant_cases}
use sassy_auth.Queries.{find_user, find_role}
use sassy_auth.Users.Writes.{insert_user_role, is_user_role}
use sassy_auth.Users.{users_manage, system_names, managed_user, managed_user_and_role, assign_role}

-- The caller may manage the users of that organisation.
abbrev pub MayManage : Db → String → ℕ → Type 0
MayManage db caller org =
    (c : SaUser) × (find_user_by_ba_id caller db ≡ some c)
    × Granted db c users_manage (some (pos org))

-- The caller may give these system permissions.
abbrev pub MayGrant : Db → String → List String → Type 0
MayGrant db caller names =
    (names ≡ [])
    ⊎ ((c : SaUser) × (find_user_by_ba_id caller db ≡ some c)
        × (Holds db c platform_users_manage ⊎ All (Holds db c) names))

-- The request may go on: the caller manages the user and may give what the role carries.
abbrev pub MayAssign : String → String → String → Db → SaUser → SaRole → Type 0
MayAssign caller user_public_id role_public_id db user role =
    (find_user user_public_id db ≡ some user)
    × (find_role role_public_id db ≡ some role)
    × MayManage db caller user.org_id
    × MayGrant db caller (system_names (permissions_of_role db role))

managed_of_may :
    (caller user_public_id role_public_id : String) (db : Db) (user : SaUser) (role : SaRole)
    → MayAssign caller user_public_id role_public_id db user role
    → managed_user_and_role caller user_public_id role_public_id db ≡ (ok (user, role), db)
unfolding managed_user_and_role managed_user
managed_of_may caller user_public_id role_public_id db user role (eu, er, may, grant) =
    let checked = (check_permission_iff db caller users_manage (some (pos user.org_id))).1 may in
    let granted = (assert_caller_can_grant_iff db caller _).1 grant in ground arith

managed_cases :
    (caller user_public_id role_public_id : String) (db : Db)
    → ((user : SaUser) × (role : SaRole) × MayAssign caller user_public_id role_public_id db user
          role)
      ⊎ ((x : Exception) × (managed_user_and_role caller user_public_id role_public_id db
            ≡ (err x, db)))
unfolding managed_user_and_role managed_user
managed_cases caller user_public_id role_public_id db =
    elim (Option-cases (find_user user_public_id db)) [
      | inl missing ↦ inr (not_found (plain "User not found"), ground arith)
      | inr (u, eu) ↦ elim (check_permission_cases caller users_manage (some (pos u.org_id)) db) [
        | inr refused ↦ inr (forbidden bare, ground arith)
        | inl allowed ↦ elim (Option-cases (find_role role_public_id db)) [
          | inl missing ↦ inr (not_found (plain "Role not found"), ground arith)
          | inr (r, er) ↦
              elim (assert_caller_can_grant_cases caller (system_names (permissions_of_role db r))
                db) [
                  | inl granted ↦ inl (
                    u,
                    r,
                    (
                      eu,
                      er,
                      (check_permission_iff db caller users_manage (some (pos u.org_id))).0 allowed,
                      (assert_caller_can_grant_iff db caller _).0 granted,
                    ),
                  )
                  | inr (m, refused) ↦ inr (forbidden m, ground arith)
                ]
        ]
      ]
    ]

assign_of_may :
    (caller user_public_id role_public_id : String) (db : Db) (user : SaUser) (role : SaRole)
    → MayAssign caller user_public_id role_public_id db user role
    → let r = assign_role caller user_public_id role_public_id db in
      (r.0 ≡ ok tt) × (any (is_user_role user.id role.id) r.1.user_roles ≡ true)
unfolding assign_role insert_user_role
assign_of_may caller user_public_id role_public_id db user role may =
    let e = managed_of_may caller user_public_id role_public_id db user role may in ground arith

-- No escalation by roles: `assignRole` succeeds exactly when the user and the role exist, the
-- caller may manage the user's organisation, and the caller may give every system permission that
-- the role carries (by holding it, or by `platform.users.manage`). Where it does not succeed,
-- nothing changes.
pub assign_role_iff :
    (caller user_public_id role_public_id : String) (db : Db)
    → (((assign_role caller user_public_id role_public_id db).0 ≡ ok tt) ↔ (
        (user : SaUser) × (role : SaRole) × MayAssign caller user_public_id role_public_id db user
          role))
      × ((assign_role caller user_public_id role_public_id db).0 ≢ ok tt
          → (assign_role caller user_public_id role_public_id db).1 ≡ db)
assign_role_iff caller user_public_id role_public_id db =
    elim (managed_cases caller user_public_id role_public_id db) [
      | inl (user, role, may) ↦
          let done = assign_of_may caller user_public_id role_public_id db user role may in
          ((λ e. (user, role, may), λ h. done.0), λ failed. elim (failed done.0) [ ])
      | inr (x, e) ↦
          let refused : assign_role caller user_public_id role_public_id db ≡ (err x, db) =
            unfold assign_role in ground arith in
          rw refused (
            (
              λ bad. ground arith,
              λ h.
                  let e' = managed_of_may caller user_public_id role_public_id db h.0 h.1 h.2 in
                  ground arith,
            ),
            λ failed. λ i. db,
          )
    ]

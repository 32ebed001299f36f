-- ===== src/Users/Reading.antt =====
-- `getUserRoles`, `getEffectivePermissions` and `getUserDirectPermissions` of users.service.ts.
use sassy_auth.Common.{
  unique, mem-unique_iff, String, Option, none, some, List, map, Memᴰ, ◌≡◌, ◌↔◌, arith, pos, bare,
  plain, not_found, ok, err, Action, ◌>>=◌, ◌>>◌, gets, or_throw, pure, inl, inr, forbidden,
  contains_iff, Message,
}
use sassy_auth.Db.{SaUser, SaRole, SaPermission, Db}
use sassy_auth.Access.{
  check_permission, permissions_of_role, roles_of_user, direct_permissions_of_user,
  permission_names,
}
use sassy_auth.Access.Holdings.{Holds, contains-permission_names_iff}
use sassy_auth.Access.Tenancy.{check_permission_iff}
use sassy_auth.Access.Outcomes.{check_permission_cases}
use sassy_auth.Queries.{find_user, find_app_by_id}
use sassy_auth.TokenClaims.{Sorting}
use sassy_auth.Users.{users_manage}
use sassy_auth.Users.Escalation.{MayManage}

-- The user whose access is shown, if the caller may manage that user.
unfoldable pub readable_user : Message → String → String → Action Db SaUser
readable_user missing caller public_id = do
  user ← or_throw (← gets (find_user public_id)) (not_found missing)
  check_permission caller users_manage (some (pos user.org_id))
  pure user

pub record PermissionView : Type 0 where
  pub public_id : String
  pub name : String
  pub app_id : Option String

pub record RoleView : Type 0 where
  pub public_id : String
  pub name : String
  pub app_id : Option String
  pub permissions : List PermissionView

-- `role.app.publicId`; the foreign key makes it `some`.
unfoldable pub app_public_id : Db → SaRole → Option String
app_public_id db r = elim (find_app_by_id r.app_id db) [ none ↦ none | some a ↦ some a.public_id ]

unfoldable pub role_view : Db → SaRole → RoleView
role_view db r = record {
  public_id = r.public_id;
  name = r.name;
  app_id = app_public_id db r;
  permissions =
      map (λ p. record { public_id = p.public_id; name = p.name; app_id = app_public_id db r })
        (permissions_of_role db r);
}

unfoldable pub get_user_roles : String → String → Action Db (List RoleView)
get_user_roles caller public_id = do
  user ← readable_user bare caller public_id
  gets (λ db. map (role_view db) (roles_of_user db user))

unfoldable pub get_effective_permissions : Sorting → String → String → Action Db (List String)
get_effective_permissions sorting caller public_id = do
  user ← readable_user bare caller public_id
  gets (λ db. sorting.sort (unique (permission_names db user)))

-- The `appId` of a direct permission is always answered as the empty text.
unfoldable pub direct_view : SaPermission → PermissionView
direct_view p = record { public_id = p.public_id; name = p.name; app_id = some "" }

unfoldable pub get_user_direct_permissions : String → String → Action Db (List PermissionView)
get_user_direct_permissions caller public_id = do
  user ← readable_user (plain "User not found") caller public_id
  gets (λ db. map direct_view (direct_permissions_of_user db user))

readable_of_may :
    (missing : Message) (caller public_id : String) (db : Db) (user : SaUser)
    → find_user public_id db ≡ some user
    → MayManage db caller user.org_id
    → readable_user missing caller public_id db ≡ (ok user, db)
unfolding readable_user
readable_of_may missing caller public_id db user found may =
    let checked = (check_permission_iff db caller users_manage (some (pos user.org_id))).1 may in
    ground arith

readable_refused :
    (missing : Message) (caller public_id : String) (db : Db) (user : SaUser)
    → find_user public_id db ≡ some user
    → ¬ MayManage db caller user.org_id
    → readable_user missing caller public_id db ≡ (err (forbidden bare), db)
unfolding readable_user
readable_refused missing caller public_id db user found may_not =
    elim (check_permission_cases caller users_manage (some (pos user.org_id)) db) [
      | inl allowed ↦
          elim (may_not
            ((check_permission_iff db caller users_manage (some (pos user.org_id))).0 allowed)) [ ]
      | inr refused ↦ ground arith
    ]

-- A caller who may manage a user reads the names of exactly the permissions that the user holds;
-- a caller who may not is refused, and nothing is shown.
pub get_effective_permissions_lem :
    (sorting : Sorting) (caller public_id : String) (db : Db) (user : SaUser) (n : String)
    → find_user public_id db ≡ some user
    → (MayManage db caller user.org_id
        → (names : List String) × (get_effective_permissions sorting caller public_id db
            ≡ (ok names, db))
          × (Memᴰ n names ↔ Holds db user n))
      × ((¬ MayManage db caller user.org_id)
          → get_effective_permissions sorting caller public_id db ≡ (err (forbidden bare), db))
unfolding get_effective_permissions
get_effective_permissions_lem sorting caller public_id db user n found = (
  λ may.
      let read = readable_of_may bare caller public_id db user found may in
      (
        sorting.sort (unique (permission_names db user)),
        ground arith,
        (
          λ m.
              (contains-permission_names_iff db user n).0
                ((contains_iff _ n).1 ((mem-unique_iff n _).0 ((sorting.mem-sort_iff n _).0 m))),
          λ h. (sorting.mem-sort_iff n _).1 (
              (mem-unique_iff n _).1
                ((contains_iff _ n).0 ((contains-permission_names_iff db user n).1 h))),
        ),
      ),
  λ may_not.
      let refused = readable_refused bare caller public_id db user found may_not in ground arith,
)

-- ===== src/Users/Writes.antt =====
-- The writes on the rows that give users roles and permissions. A pair is the primary key (P2002);
-- deleting a row that is not there throws P2025.
use sassy_auth.Common.{
  ℕ, Bool, ◌&&◌, List, [], ◌∷◌, ⊤, ◌==◌, if◌then◌else◌, any, delete_where, prisma_error, p2002,
  p2025, Result, ok, err,
}
use sassy_auth.Db.{SaUserRole, SaUserPermission, Db}

abbrev pub is_user_role : ℕ → ℕ → SaUserRole → Bool
is_user_role user role ur = ur.user_id == user && ur.role_id == role

-- `saUserRole.create`
unfoldable pub insert_user_role : ℕ → ℕ → Db → Result (⊤ × Db)
insert_user_role user role db =
    if any (is_user_role user role) db.user_roles
    then err (prisma_error p2002)
    else ok
        (tt, record db { user_roles = record { user_id = user; role_id = role } ∷ db.user_roles })

-- `saUserRole.delete`
unfoldable pub delete_user_role : ℕ → ℕ → Db → Result (⊤ × Db)
delete_user_role user role db =
    if any (is_user_role user role) db.user_roles
    then ok (tt, record db { user_roles = delete_where (is_user_role user role) db.user_roles })
    else err (prisma_error p2025)

-- `saUserRole.createMany` for one user
unfoldable pub insert_user_roles : ℕ → List ℕ → Db → Result (⊤ × Db)
insert_user_roles user [] db = ok (tt, db)
insert_user_roles user (r ∷ rs) db =
    let rest =
      insert_user_roles user rs
        (record db { user_roles = record { user_id = user; role_id = r } ∷ db.user_roles }) in
    if any (is_user_role user r) db.user_roles then err (prisma_error p2002) else rest

-- The transaction of `setUserRoles`.
unfoldable pub set_user_role_rows : ℕ → List ℕ → Db → Result (⊤ × Db)
set_user_role_rows user ids db =
    insert_user_roles user ids
      (record db { user_roles = delete_where (λ ur. ur.user_id == user) db.user_roles })

abbrev pub is_user_permission : ℕ → ℕ → SaUserPermission → Bool
is_user_permission user permission up = up.user_id == user && up.permission_id == permission

unfoldable pub insert_user_permissions : ℕ → List ℕ → Db → Result (⊤ × Db)
insert_user_permissions user [] db = ok (tt, db)
insert_user_permissions user (p ∷ ps) db =
    let rest = insert_user_permissions user ps (record db {
      user_permissions = record { user_id = user; permission_id = p } ∷ db.user_permissions;
    }) in
    if any (is_user_permission user p) db.user_permissions then err (prisma_error p2002) else rest

-- The transaction of `setUserDirectPermissions`.
unfoldable pub set_user_permission_rows : ℕ → List ℕ → Db → Result (⊤ × Db)
set_user_permission_rows user ids db =
    insert_user_permissions user ids
      (record db { user_permissions = delete_where (λ up. up.user_id == user) db.user_permissions })

-- ===== src/Access/Holdings.antt =====
-- The permissions that a user holds, as the rows of the join tables grant them.
use sassy_auth.Common.{
  ℕ, String, true, Option, some, List, ◌++◌, map, Memᴰ, ◌≡◌, sym, ◌↔◌, ◌⊎◌, inl, inr, filter,
  flat_map, filter_map, ◌==◌, ==_iff, mem-filter_iff, mem-flat_map_iff, mem-filter_map_iff,
  contains, contains_iff,
}
use mathlib.Core.List.Memᴰ
use sassy_auth.Db.{SaUser, SaRole, SaPermission, SaRolePermission, SaUserRole, SaUserPermission, Db}
use sassy_auth.Access.{
  find_role_by_id, find_permission_by_id, permissions_of_role, roles_of_user,
  direct_permissions_of_user, permission_names,
}

-- A row of SaRolePermission gives the permission to the role.
abbrev pub Carries : Db → SaRole → SaPermission → Type 0
Carries db r p =
    (rp : SaRolePermission) × Memᴰ rp db.role_permissions
    × (rp.role_id ≡ r.id)
    × (find_permission_by_id rp.permission_id db ≡ some p)

-- A row of SaUserRole gives the role to the user.
abbrev pub HasRole : Db → SaUser → SaRole → Type 0
HasRole db u r =
    (ur : SaUserRole) × Memᴰ ur db.user_roles
    × (ur.user_id ≡ u.id)
    × (find_role_by_id ur.role_id db ≡ some r)

-- A row of SaUserPermission gives the permission to the user directly.
abbrev pub HasDirectly : Db → SaUser → SaPermission → Type 0
HasDirectly db u p =
    (up : SaUserPermission) × Memᴰ up db.user_permissions
    × (up.user_id ≡ u.id)
    × (find_permission_by_id up.permission_id db ≡ some p)

abbrev pub Has : Db → SaUser → SaPermission → Type 0
Has db u p = ((r : SaRole) × HasRole db u r × Carries db r p) ⊎ HasDirectly db u p

-- The user holds a permission of that name.
abbrev pub Holds : Db → SaUser → String → Type 0
Holds db u n = (p : SaPermission) × Has db u p × (p.name ≡ n)

-- A query through a join table: the rows of the table that the key selects, and what each finds.
join_iff :
    {A B : Type 0} (key : A → ℕ) (k : ℕ) (f : A → Option B) (b : B) (xs : List A)
    → Memᴰ b (filter_map f (filter (λ x. key x == k) xs))
      ↔ ((a : A) × Memᴰ a xs × (key a ≡ k) × (f a ≡ some b))
join_iff key k f b xs = (
  λ m.
      let (a, i, e) = (mem-filter_map_iff f b _).0 m in
      let (j, q) = (mem-filter_iff (λ x. key x == k) a xs).0 i in (a, j, (==_iff (key a) k).0 q, e),
  λ h.
      (mem-filter_map_iff f b _).1
        (h.0, (mem-filter_iff (λ x. key x == k) h.0 xs).1 (h.1, (==_iff (key h.0) k).1 h.2), h.3),
)

pub mem-permissions_of_role_iff :
    (db : Db) (r : SaRole) (p : SaPermission) → Memᴰ p (permissions_of_role db r) ↔ Carries db r p
unfolding permissions_of_role
mem-permissions_of_role_iff db r p =
    join_iff (λ rp. rp.role_id) r.id (λ rp. find_permission_by_id rp.permission_id db) p
      db.role_permissions

pub mem-roles_of_user_iff :
    (db : Db) (u : SaUser) (r : SaRole) → Memᴰ r (roles_of_user db u) ↔ HasRole db u r
unfolding roles_of_user
mem-roles_of_user_iff db u r =
    join_iff (λ ur. ur.user_id) u.id (λ ur. find_role_by_id ur.role_id db) r db.user_roles

mem-direct_permissions_iff :
    (db : Db) (u : SaUser) (p : SaPermission)
    → Memᴰ p (direct_permissions_of_user db u) ↔ HasDirectly db u p
unfolding direct_permissions_of_user
mem-direct_permissions_iff db u p =
    join_iff (λ up. up.user_id) u.id (λ up. find_permission_by_id up.permission_id db) p
      db.user_permissions

mem-names :
    (db : Db) (u : SaUser) {n : String} (p : SaPermission)
    → Has db u p
    → p.name ≡ n
    → Memᴰ n (
        map
          (λ q. q.name)
          (flat_map (permissions_of_role db) (roles_of_user db u)
            ++ direct_permissions_of_user db u))
mem-names db u p (inl (r, i, j)) e =
    let from_roles =
      (mem-flat_map_iff (permissions_of_role db) p (roles_of_user db u)).1
        (r, (mem-roles_of_user_iff db u r).1 i, (mem-permissions_of_role_iff db r p).1 j) in
    Memᴰ.cast (sym e)
      (Memᴰ.map (λ q. q.name) (Memᴰ.append_left (direct_permissions_of_user db u) from_roles))
mem-names db u p (inr d) e = Memᴰ.cast (sym e) (
    Memᴰ.map (λ q. q.name)
      (Memᴰ.append_right (flat_map (permissions_of_role db) (roles_of_user db u))
        ((mem-direct_permissions_iff db u p).1 d)))

Has-of_mem :
    (db : Db) (u : SaUser) (p : SaPermission)
    → Memᴰ p (flat_map (permissions_of_role db) (roles_of_user db u))
      ⊎ Memᴰ p (direct_permissions_of_user db u)
    → Has db u p
Has-of_mem db u p (inl k) =
    let (r, i, j) = (mem-flat_map_iff (permissions_of_role db) p (roles_of_user db u)).0 k in
    inl (r, (mem-roles_of_user_iff db u r).0 i, (mem-permissions_of_role_iff db r p).0 j)
Has-of_mem db u p (inr k) = inr ((mem-direct_permissions_iff db u p).0 k)

-- The permissions that the user holds, in the order in which the code visits them.
pub mem-held_iff :
    (db : Db) (u : SaUser) (p : SaPermission)
    → Memᴰ p
        (flat_map (permissions_of_role db) (roles_of_user db u) ++ direct_permissions_of_user db u)
      ↔ Has db u p
mem-held_iff db u p = (
  λ m.
      Has-of_mem db u p
        (Memᴰ.append_cases (flat_map (permissions_of_role db) (roles_of_user db u)) m),
  λ h. elim h [
    | inl r ↦ Memᴰ.append_left (direct_permissions_of_user db u) (
        (mem-flat_map_iff (permissions_of_role db) p (roles_of_user db u)).1 (
          r.0,
          (mem-roles_of_user_iff db u r.0).1 r.1,
          (mem-permissions_of_role_iff db r.0 p).1 r.2,
        ))
    | inr d ↦
        Memᴰ.append_right (flat_map (permissions_of_role db) (roles_of_user db u))
          ((mem-direct_permissions_iff db u p).1 d)
  ],
)

Holds-of_mem : (db : Db) (u : SaUser) (n : String) → Memᴰ n (permission_names db u) → Holds db u n
unfolding permission_names
Holds-of_mem db u n m =
    let (p, k, e) =
      Memᴰ.of_map (λ q. q.name)
        (flat_map (permissions_of_role db) (roles_of_user db u) ++ direct_permissions_of_user db u)
        m in
    (
      p,
      Has-of_mem db u p
          (Memᴰ.append_cases (flat_map (permissions_of_role db) (roles_of_user db u)) k),
      e,
    )

mem-permission_names :
    (db : Db) (u : SaUser) (n : String) → Holds db u n → Memᴰ n (permission_names db u)
unfolding permission_names
mem-permission_names db u n (p, h, e) = mem-names db u p h e

-- The set that the helpers compute holds a name exactly when a row of the join tables grants a
-- permission of that name, by a role of the user or directly.
pub contains-permission_names_iff :
    (db : Db) (u : SaUser) (n : String) → (contains (permission_names db u) n ≡ true) ↔ Holds db u n
contains-permission_names_iff db u n = (
  λ h. Holds-of_mem db u n ((contains_iff (permission_names db u) n).0 h),
  λ h. (contains_iff (permission_names db u) n).1 (mem-permission_names db u n h),
)

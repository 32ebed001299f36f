-- ===== src/Permissions/Reserved.antt =====
-- The reserved permissions: no request on permissions adds, renames or removes one.
use sassy_auth.Common.{
  ℕ, String, Bool, true, false, ◌&&◌, ◌||◌, Option, some, none, List, [], ◌∷◌, ◌≡◌, refl, inl, inr,
  arith, ◌==◌, filter, find?, any, ok, Result-cases, Option-cases, Bool-cases, ◌===◌, update_where,
}
use sassy_auth.Db.{SaPermission, Db}
use sassy_auth.Access.Outcomes.{check_permission_cases}
use sassy_auth.Queries.{Externals, find_permission, find_app}
use sassy_auth.Queries.Tables.{
  insert_permission, ok-of_both, update_permission_row, delete_permission_row,
}
use sassy_auth.Queries.Keys.{distinct, only_found, filter-update_where, filter-delete_where}
use sassy_auth.Permissions.{
  CreatePermissionDto, is_platform, permissions_manage, create_permission_tx, create_permission,
  update_permission, delete_permission,
}

-- A permission that the code calls platform-system.
abbrev pub is_reserved : SaPermission → Bool
is_reserved p = is_platform p.name || p.is_system

abbrev pub reserved_of : Db → List SaPermission
reserved_of db = filter is_reserved db.permissions

-- The two writes on the row that a query found.
update_row_keeps :
    (public_id name : String) (row : SaPermission) (db db' : Db)
    → distinct (λ p. p.id) db.permissions ≡ true
    → find_permission public_id db ≡ some row
    → is_reserved row ≡ false
    → is_platform name ≡ false
    → update_permission_row row.id (λ p. record p { name = name }) db ≡ ok (tt, db')
    → reserved_of db' ≡ reserved_of db
unfolding update_permission_row find_permission
update_row_keeps public_id name row db db' d found free ok_name e =
    let one =
      only_found (λ p. p.id) (λ p. p.public_id === public_id)
        (λ p. is_reserved p || (is_platform name || p.is_system)) db.permissions row d found
        (ground arith) in
    let same =
      filter-update_where (λ p. p.id == row.id) is_reserved (λ p. record p { name = name })
        db.permissions one in
    ground arith

delete_row_keeps :
    (public_id : String) (row : SaPermission) (db db' : Db)
    → distinct (λ p. p.id) db.permissions ≡ true
    → find_permission public_id db ≡ some row
    → is_reserved row ≡ false
    → delete_permission_row row.id db ≡ ok (tt, db')
    → reserved_of db' ≡ reserved_of db
unfolding delete_permission_row find_permission
delete_row_keeps public_id row db db' d found free e =
    let one =
      only_found (λ p. p.id) (λ p. p.public_id === public_id) is_reserved db.permissions row d found
        free in
    let same = filter-delete_where (λ p. p.id == row.id) is_reserved db.permissions one in
    ground arith

-- A deletion leaves the system permissions and those named `platform.*` as they were, whoever asks
-- and however it ends, where an id has one row at most.
pub delete_permission-keeps_reserved :
    (caller public_id : String) (db : Db)
    → distinct (λ p. p.id) db.permissions ≡ true
    → reserved_of (delete_permission caller public_id db).1 ≡ reserved_of db
unfolding delete_permission
delete_permission-keeps_reserved caller public_id db d =
    elim (check_permission_cases caller permissions_manage none db) [
      | inr refused ↦ ground arith
      | inl allowed ↦ elim (Option-cases (find_permission public_id db)) [
        | inl missing ↦ ground arith
        | inr (row, found) ↦ elim (Bool-cases (is_reserved row)) [
          | inl guarded ↦ ground arith
          | inr free ↦ elim (Result-cases (delete_permission_row row.id db)) [
            | inl ((u, db'), e) ↦ ground (arith, delete_row_keeps public_id row db db')
            | inr (x, e) ↦ ground arith
          ]
        ]
      ]
    ]

-- An update changes no system permission and none named `platform.*`, and renames none into a
-- `platform.*` name, whoever asks and however it ends, where an id has one row at most.
pub update_permission-keeps_reserved :
    (caller public_id : String) (new_name : Option String) (db : Db)
    → distinct (λ p. p.id) db.permissions ≡ true
    → reserved_of (update_permission caller public_id new_name db).1 ≡ reserved_of db
unfolding update_permission
update_permission-keeps_reserved caller public_id none db d =
    elim (check_permission_cases caller permissions_manage none db) [
      | inr refused ↦ ground arith
      | inl allowed ↦ ground arith
    ]
update_permission-keeps_reserved caller public_id (some name) db d =
    elim (check_permission_cases caller permissions_manage none db) [
      | inr refused ↦ ground arith
      | inl allowed ↦ elim (Option-cases (find_permission public_id db)) [
        | inl missing ↦ ground arith
        | inr (row, found) ↦ elim (Bool-cases (is_reserved row || is_platform name)) [
          | inl guarded ↦ ground arith
          | inr free ↦
              elim (Result-cases
                (update_permission_row row.id (λ p. record p { name = name }) db)) [
                  | inl ((u, db'), e) ↦ ground (
                    arith,
                    update_row_keeps public_id name row db db',
                    Option-cases (find_permission public_id db'),
                  )
                  | inr (x, e) ↦ ground arith
                ]
        ]
      ]
    ]

no_id :
    (i : ℕ) (key name : String) (g : SaPermission → Bool) (xs : List SaPermission)
    → any (λ p. p.id == i || p.public_id === key || p.name === name) xs ≡ false
    → any (λ p. p.id == i && g p) xs ≡ false
no_id i key name g [] h = refl
no_id i key name g (x ∷ xs) h = ground (arith, no_id i key name g xs)

insert_of :
    (row : SaPermission) (db db' : Db)
    → insert_permission row db ≡ ok (tt, db')
    → (any
          (λ p. p.id == row.id || p.public_id === row.public_id || p.name === row.name)
          db.permissions
        ≡ false)
      × (db'.permissions ≡ row ∷ db.permissions)
unfolding insert_permission
insert_of row db db' e = ground arith

update_of :
    (i : ℕ) (change : SaPermission → SaPermission) (db db' : Db)
    → update_permission_row i change db ≡ ok (tt, db')
    → db'.permissions ≡ update_where (λ p. p.id == i) change db.permissions
unfolding update_permission_row
update_of i change db db' e = elim (Option-cases (find? (λ p. p.id == i) db.permissions)) [
  | inl missing ↦ ground arith
  | inr (row, found) ↦ ground arith
]

-- The transaction of a creation, on an id that no row has.
create_tx_keeps :
    (ext : Externals) (pending name : String) (app_id : ℕ) (db db' : Db)
    → is_platform name ≡ false
    → create_permission_tx ext pending name app_id db ≡ ok (tt, db')
    → reserved_of db' ≡ reserved_of db
unfolding create_permission_tx
create_tx_keeps ext pending name app_id db db' free e =
    let i = db.next_permission_id in
    let row : SaPermission = record {
      id = i;
      public_id = pending;
      name = name;
      app_id = app_id;
      is_system = false;
    } in
    let change = λ (p : SaPermission). record p { public_id = ext.encode i } in
    let (draft, first, second) =
      ok-of_both (insert_permission row) (update_permission_row i change) db db' e in
    let (fresh, rows) = insert_of row db draft first in
    let alone =
      no_id i pending name (λ p. is_reserved p || is_reserved (change p)) db.permissions fresh in
    let same = filter-update_where (λ p. p.id == i) is_reserved change db.permissions alone in
    rw (update_of i change draft db' second, rows) (ground arith)

-- A creation adds no system permission and none named `platform.*`, and leaves those that are there
-- as they were, whoever asks and however it ends.
pub create_permission-keeps_reserved :
    (ext : Externals) (caller : String) (dto : CreatePermissionDto) (pending : String) (db : Db)
    → reserved_of (create_permission ext caller dto pending db).1 ≡ reserved_of db
unfolding create_permission
create_permission-keeps_reserved ext caller dto pending db =
    elim (check_permission_cases caller permissions_manage none db) [
      | inr refused ↦ ground arith
      | inl allowed ↦ elim (Bool-cases (is_platform dto.name)) [
        | inl guarded ↦ ground arith
        | inr free ↦ elim (Option-cases (find_app dto.app_id db)) [
          | inl missing ↦ ground arith
          | inr (app, found) ↦
              elim (Result-cases (create_permission_tx ext pending dto.name app.id db)) [
                | inl ((u, db'), e) ↦ ground (
                  arith,
                  create_tx_keeps ext pending dto.name app.id db db',
                  Option-cases (find? (λ p. p.id == db.next_permission_id) db'.permissions),
                )
                | inr (x, e) ↦ ground arith
              ]
        ]
      ]
    ]

-- ===== src/Orgs/Platform.antt =====
-- The platform organisation: no request on organisations adds, renames or removes one.
use sassy_auth.Common.{
  String, true, false, Option, some, none, List, ◌≡◌, inl, inr, arith, ◌==◌, ◌===◌, ◌||◌, filter,
  ok, Result-cases, Option-cases, Bool-cases,
}
use sassy_auth.Db.{SaOrg, Db}
use sassy_auth.Access.Outcomes.{check_permission_cases}
use sassy_auth.Queries.{find_org}
use sassy_auth.Queries.Tables.{update_org_row, delete_org_row}
use sassy_auth.Queries.Keys.{distinct, only_found, filter-update_where, filter-delete_where}
use sassy_auth.Orgs.{orgs_manage, update_org, delete_org}

abbrev pub platform_of : Db → List SaOrg
platform_of db = filter (λ o. o.is_platform) db.orgs

update_row_keeps :
    (public_id name : String) (row : SaOrg) (db db' : Db)
    → distinct (λ o. o.id) db.orgs ≡ true
    → find_org public_id db ≡ some row
    → row.is_platform ≡ false
    → update_org_row row.id (λ o. record o { name = name }) db ≡ ok (tt, db')
    → platform_of db' ≡ platform_of db
unfolding update_org_row find_org
update_row_keeps public_id name row db db' d found free e =
    let keep = λ (o : SaOrg). o.is_platform in
    let one =
      only_found (λ o. o.id) (λ o. o.public_id === public_id) (λ o. keep o || keep o) db.orgs row d
        found (ground arith) in
    let same =
      filter-update_where (λ o. o.id == row.id) keep (λ o. record o { name = name }) db.orgs one in
    ground arith

delete_row_keeps :
    (public_id : String) (row : SaOrg) (db db' : Db)
    → distinct (λ o. o.id) db.orgs ≡ true
    → find_org public_id db ≡ some row
    → row.is_platform ≡ false
    → delete_org_row row.id db ≡ ok (tt, db')
    → platform_of db' ≡ platform_of db
unfolding delete_org_row find_org
delete_row_keeps public_id row db db' d found free e =
    let keep = λ (o : SaOrg). o.is_platform in
    let one =
      only_found (λ o. o.id) (λ o. o.public_id === public_id) keep db.orgs row d found free in
    let same = filter-delete_where (λ o. o.id == row.id) keep db.orgs one in ground arith

-- A deletion leaves the platform organisations as they were, whoever asks and however it ends,
-- where an id has one row at most.
pub delete_org-keeps_platform :
    (caller public_id : String) (db : Db)
    → distinct (λ o. o.id) db.orgs ≡ true
    → platform_of (delete_org caller public_id db).1 ≡ platform_of db
unfolding delete_org
delete_org-keeps_platform caller public_id db d =
    elim (check_permission_cases caller orgs_manage none db) [
      | inr refused ↦ ground arith
      | inl allowed ↦ elim (Option-cases (find_org public_id db)) [
        | inl missing ↦ ground arith
        | inr (row, found) ↦ elim (Bool-cases row.is_platform) [
          | inl guarded ↦ ground arith
          | inr free ↦ elim (Result-cases (delete_org_row row.id db)) [
            | inl ((u, db'), e) ↦ ground (arith, delete_row_keeps public_id row db db')
            | inr (x, e) ↦ ground arith
          ]
        ]
      ]
    ]

-- An update leaves the platform organisations as they were, whoever asks and however it ends,
-- where an id has one row at most.
pub update_org-keeps_platform :
    (caller public_id : String) (new_name : Option String) (db : Db)
    → distinct (λ o. o.id) db.orgs ≡ true
    → platform_of (update_org caller public_id new_name db).1 ≡ platform_of db
unfolding update_org
update_org-keeps_platform caller public_id none db d = ground arith
update_org-keeps_platform caller public_id (some name) db d =
    elim (check_permission_cases caller orgs_manage none db) [
      | inr refused ↦ ground arith
      | inl allowed ↦ elim (Option-cases (find_org public_id db)) [
        | inl missing ↦ ground arith
        | inr (row, found) ↦ elim (Bool-cases row.is_platform) [
          | inl guarded ↦ ground arith
          | inr free ↦
              elim (Result-cases (update_org_row row.id (λ o. record o { name = name }) db)) [
                | inl ((u, db'), e) ↦ ground (
                  arith,
                  update_row_keeps public_id name row db db',
                  Option-cases (find_org public_id db'),
                )
                | inr (x, e) ↦ ground arith
              ]
        ]
      ]
    ]

-- ===== src/Users/Boundary.antt =====
-- A service token acts inside its app only.
use sassy_auth.Common.{
  ℕ, String, false, some, ◌≡◌, ◌↔◌, inl, inr, arith, ◌==◌, any, ok, err, Option-cases, Bool-cases,
  Exception, ◌≢◌, Result, Result-cases, ◌∙◌, refl, delete_where, List, [], ◌∷◌, if◌then◌else◌, Bool,
  ◌⊎◌, if◌then◌else◌, not_found, bare, not,
}
use sassy_auth.Db.{SaUser, SaOrg, SaRole, SaUserRole, Db}
use sassy_auth.Access.{permissions_of_role, find_permission_by_id}
use sassy_auth.Queries.{find_user, find_role, find_org_by_id}
use sassy_auth.Users.Writes.{insert_user_role, delete_user_role, is_user_role}
use sassy_auth.Users.Service.{resolve_and_authorize, assign_role, remove_role, carries_system}

-- The user and the role that the request names belong to the calling app, and the role carries no
-- system permission.
abbrev pub IsOwn : ℕ → String → String → Db → SaUser → SaRole → Type 0
IsOwn app user_public_id role_public_id db user role =
    (find_user user_public_id db ≡ some user)
    × ((o : SaOrg) × (find_org_by_id user.org_id db ≡ some o) × (o.app_id ≡ app))
    × (find_role role_public_id db ≡ some role)
    × (role.app_id ≡ app)
    × (any (λ p. p.is_system) (permissions_of_role db role) ≡ false)

abbrev pub own_pair : ℕ → SaUser → SaOrg → SaRole → Bool → Result (SaUser × SaRole)
own_pair app u o r system =
    if not (o.app_id == app)
    then err (not_found bare)
    else if not (r.app_id == app)
    then err (not_found bare)
    else if system
    then err carries_system
    else ok (u, r)

resolve_of_found :
    (app : ℕ) (user_public_id role_public_id : String) (db : Db) (u : SaUser) (o : SaOrg)
    (r : SaRole)
    → find_user user_public_id db ≡ some u
    → find_org_by_id u.org_id db ≡ some o
    → find_role role_public_id db ≡ some r
    → resolve_and_authorize app user_public_id role_public_id db
      ≡ (own_pair app u o r (any (λ p. p.is_system) (permissions_of_role db r)), db)
unfolding resolve_and_authorize
resolve_of_found app user_public_id role_public_id db u o r eu eo er = ground arith

own_pair_sound :
    (app : ℕ) (u : SaUser) (o : SaOrg) (r : SaRole) (system : Bool) (both : SaUser × SaRole)
    → own_pair app u o r system ≡ ok both
    → (o.app_id ≡ app) × (r.app_id ≡ app) × (system ≡ false)
own_pair_sound app u o r system both e = ground arith

resolve_missing :
    (app : ℕ) (user_public_id role_public_id : String) (db : Db)
    → ((u : SaUser) × (o : SaOrg) × (r : SaRole) × (find_user user_public_id db ≡ some u)
        × (find_org_by_id u.org_id db ≡ some o)
        × (find_role role_public_id db ≡ some r))
      ⊎ ((x : Exception) × (resolve_and_authorize app user_public_id role_public_id db
            ≡ (err x, db)))
unfolding resolve_and_authorize
resolve_missing app user_public_id role_public_id db =
    elim (Option-cases (find_user user_public_id db)) [
      | inl missing ↦ inr (not_found bare, ground arith)
      | inr (u, eu) ↦ elim (Option-cases (find_org_by_id u.org_id db)) [
        | inl missing ↦ inr (not_found bare, ground arith)
        | inr (o, eo) ↦ elim (Option-cases (find_role role_public_id db)) [
          | inl missing ↦ elim (Bool-cases (o.app_id == app)) [
            | inl same ↦ inr (not_found bare, ground arith)
            | inr other ↦ inr (not_found bare, ground arith)
          ]
          | inr (r, er) ↦ inl (u, o, r, eu, eo, er)
        ]
      ]
    ]

resolve_of_own :
    (app : ℕ) (user_public_id role_public_id : String) (db : Db) (user : SaUser) (role : SaRole)
    → IsOwn app user_public_id role_public_id db user role
    → resolve_and_authorize app user_public_id role_public_id db ≡ (ok (user, role), db)
resolve_of_own app user_public_id role_public_id db user role (eu, (o, eo, same), er, same', free) =
    rw (resolve_of_found app user_public_id role_public_id db user o role eu eo er) (ground arith)

-- Either the request names an own pair, or it is refused and nothing changes.
resolve_cases :
    (app : ℕ) (user_public_id role_public_id : String) (db : Db)
    → ((user : SaUser) × (role : SaRole) × IsOwn app user_public_id role_public_id db user role)
      ⊎ ((x : Exception) × (resolve_and_authorize app user_public_id role_public_id db
            ≡ (err x, db)))
resolve_cases app user_public_id role_public_id db =
    elim (resolve_missing app user_public_id role_public_id db) [
      | inr refused ↦ inr refused
      | inl (u, o, r, eu, eo, er) ↦
          let system = any (λ p. p.is_system) (permissions_of_role db r) in
          elim (Result-cases (own_pair app u o r system)) [
            | inl (both, e) ↦
                let (same, same', free) = own_pair_sound app u o r system both e in
                inl (u, r, (eu, (o, eo, same), er, same', free))
            | inr (x, e) ↦ inr (
              x,
              rw (resolve_of_found app user_public_id role_public_id db u o r eu eo er, e)
                  (λ i. (err x, db)),
            )
          ]
    ]

assign_of_own :
    (app : ℕ) (user_public_id role_public_id : String) (db : Db) (user : SaUser) (role : SaRole)
    → IsOwn app user_public_id role_public_id db user role
    → let r = assign_role app user_public_id role_public_id db in
      (r.0 ≡ ok tt)
      × (r.1.user_roles ≡ (
          if any (is_user_role user.id role.id) db.user_roles
          then db.user_roles
          else record { user_id = user.id; role_id = role.id } ∷ db.user_roles))
unfolding assign_role insert_user_role
assign_of_own app user_public_id role_public_id db user role own =
    let e = resolve_of_own app user_public_id role_public_id db user role own in ground arith

-- `assignRole` with a service token succeeds exactly when the user's organisation and the role
-- both belong to the calling app and the role carries no system permission. Where it does not
-- succeed, nothing changes.
pub service_assign_iff :
    (app : ℕ) (user_public_id role_public_id : String) (db : Db)
    → (((assign_role app user_public_id role_public_id db).0 ≡ ok tt) ↔ (
        (user : SaUser) × (role : SaRole) × IsOwn app user_public_id role_public_id db user role))
      × ((assign_role app user_public_id role_public_id db).0 ≢ ok tt
          → (assign_role app user_public_id role_public_id db).1 ≡ db)
service_assign_iff app user_public_id role_public_id db =
    elim (resolve_cases app user_public_id role_public_id db) [
      | inl (user, role, own) ↦
          let done = assign_of_own app user_public_id role_public_id db user role own in
          ((λ e. (user, role, own), λ h. done.0), λ failed. elim (failed done.0) [ ])
      | inr (x, e) ↦
          let refused : assign_role app user_public_id role_public_id db ≡ (err x, db) =
            unfold assign_role in ground arith in
          rw refused (
            (
              λ bad. ground arith,
              λ h.
                  let e' = resolve_of_own app user_public_id role_public_id db h.0 h.1 h.2 in
                  ground arith,
            ),
            λ failed. λ i. db,
          )
    ]

delete-none :
    (p : SaUserRole → Bool) (xs : List SaUserRole) → any p xs ≡ false → delete_where p xs ≡ xs
delete-none p [] h = refl
delete-none p (x ∷ xs) h = ground (arith, delete-none p xs)

remove_of_own :
    (app : ℕ) (user_public_id role_public_id : String) (db : Db) (user : SaUser) (role : SaRole)
    → IsOwn app user_public_id role_public_id db user role
    → let r = remove_role app user_public_id role_public_id db in
      (r.0 ≡ ok tt) × (r.1.user_roles ≡ delete_where (is_user_role user.id role.id) db.user_roles)
unfolding remove_role delete_user_role
remove_of_own app user_public_id role_public_id db user role own =
    let e = resolve_of_own app user_public_id role_public_id db user role own in
    let kept = delete-none (is_user_role user.id role.id) db.user_roles in ground arith

with_pair : SaUser → SaRole → Db → Db
with_pair user role db = record db {
  user_roles = record { user_id = user.id; role_id = role.id } ∷ db.user_roles;
}

IsOwn-with_pair :
    (app : ℕ) (user_public_id role_public_id : String) (db : Db) (user : SaUser) (role : SaRole)
    → IsOwn app user_public_id role_public_id db user role
    → IsOwn app user_public_id role_public_id (with_pair user role db) user role
unfolding with_pair find_user find_role find_org_by_id permissions_of_role find_permission_by_id
IsOwn-with_pair app user_public_id role_public_id db user role own = own

assign_fresh :
    (app : ℕ) (user_public_id role_public_id : String) (db : Db) (user : SaUser) (role : SaRole)
    → IsOwn app user_public_id role_public_id db user role
    → any (is_user_role user.id role.id) db.user_roles ≡ false
    → assign_role app user_public_id role_public_id db ≡ (ok tt, with_pair user role db)
unfolding assign_role insert_user_role with_pair
assign_fresh app user_public_id role_public_id db user role own fresh =
    let e = resolve_of_own app user_public_id role_public_id db user role own in ground arith

-- Assigning an own role that the user does not have and removing it again, both with a service
-- token, succeed and leave the assignments as they were.
pub service_remove-assign :
    (app : ℕ) (user_public_id role_public_id : String) (db : Db) (user : SaUser) (role : SaRole)
    → IsOwn app user_public_id role_public_id db user role
    → any (is_user_role user.id role.id) db.user_roles ≡ false
    → let db' = (assign_role app user_public_id role_public_id db).1 in
      let r = remove_role app user_public_id role_public_id db' in
      (r.0 ≡ ok tt) × (r.1.user_roles ≡ db.user_roles)
unfolding with_pair
service_remove-assign app user_public_id role_public_id db user role own fresh =
    let own' = IsOwn-with_pair app user_public_id role_public_id db user role own in
    let gone =
      remove_of_own app user_public_id role_public_id (with_pair user role db) user role own' in
    let kept = delete-none (is_user_role user.id role.id) db.user_roles fresh in
    rw (assign_fresh app user_public_id role_public_id db user role own fresh)
      (gone.0, gone.1 ∙ ground arith)

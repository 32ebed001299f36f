-- ===== src/Roles/Deletion.antt =====
-- What a deletion of a role takes away, and which roles cannot be deleted.
use sassy_auth.Common.{
  ℕ, String, true, false, some, none, List, [], ◌∷◌, ◌≡◌, refl, inl, inr, arith, ok, err, conflict,
  with_names, any, find?, delete_where, count_where, is_number, Option-cases, Bool, ◌==◌,
  find?-none,
}
use sassy_auth.Db.{SaRole, SaApp, Db}
use sassy_auth.Access.{check_permission}
use sassy_auth.Queries.{find_role, count_users_of_role, count_permissions_of_role}
use sassy_auth.Queries.Tables.{delete_role_row, delete_role_permissions}
use sassy_auth.Roles.{roles_manage, delete_role_tx, delete_role, role_in_use}

module _ {A : Type 0} where
  count-delete_where : (p : A → Bool) (xs : List A) → count_where p (delete_where p xs) ≡ 0
  count-delete_where p [] = refl
  count-delete_where p (x ∷ xs) = ground (arith, count-delete_where p xs)

  find-delete_where : (p : A → Bool) (xs : List A) → find? p (delete_where p xs) ≡ none
  find-delete_where p [] = refl
  find-delete_where p (x ∷ xs) = ground (arith, find-delete_where p xs)

delete_role_db : ℕ → Db → Db
delete_role_db i db = record db {
  roles = delete_where (λ r. r.id == i) db.roles;
  role_permissions =
      delete_where (λ rp. rp.role_id == i)
        (delete_where (λ rp. rp.role_id == i) db.role_permissions);
  user_roles = delete_where (λ ur. ur.role_id == i) db.user_roles;
}

delete_tx_done :
    (role : SaRole) (db : Db)
    → any (λ a. is_number a.default_role_id role.id) db.apps ≡ false
    → delete_role_tx role db ≡ ok (tt, delete_role_db role.id db)
unfolding delete_role_tx delete_role_row delete_role_permissions delete_role_db
delete_tx_done role db h = ground arith

delete_role_done :
    (caller public_id : String) (role : SaRole) (db : Db)
    → check_permission caller roles_manage none db ≡ (ok tt, db)
    → find_role public_id db ≡ some role
    → any (λ a. is_number a.default_role_id role.id) db.apps ≡ false
    → delete_role caller public_id db ≡ (ok tt, delete_role_db role.id db)
unfolding delete_role
delete_role_done caller public_id role db allowed found h =
    let e = delete_tx_done role db h in ground arith

-- A caller who may manage roles deletes any role that is not the default role of an app, also one
-- that users have: the call succeeds, and the role, its permissions and its assignments are gone.
pub delete_role_cascades :
    (caller public_id : String) (role : SaRole) (db : Db)
    → check_permission caller roles_manage none db ≡ (ok tt, db)
    → find_role public_id db ≡ some role
    → any (λ a. is_number a.default_role_id role.id) db.apps ≡ false
    → let r = delete_role caller public_id db in
      (r.0 ≡ ok tt)
      × (find? (λ x. x.id == role.id) r.1.roles ≡ none)
      × (count_permissions_of_role role.id r.1 ≡ 0)
      × (count_users_of_role role.id r.1 ≡ 0)
unfolding delete_role_db count_permissions_of_role count_users_of_role
delete_role_cascades caller public_id role db allowed found h =
    rw (delete_role_done caller public_id role db allowed found h) (
      refl,
      find-delete_where (λ x. x.id == role.id) db.roles,
      count-delete_where (λ rp. rp.role_id == role.id)
          (delete_where (λ rp. rp.role_id == role.id) db.role_permissions),
      count-delete_where (λ ur. ur.role_id == role.id) db.user_roles,
    )

default_app :
    (i : ℕ) (apps : List SaApp)
    → any (λ a. is_number a.default_role_id i) apps ≡ true
    → (a : SaApp) × (find? (λ a. is_number a.default_role_id i) apps ≡ some a)
default_app i apps h = elim (Option-cases (find? (λ a. is_number a.default_role_id i) apps)) [
  | inl missing ↦
      let t = find?-none (λ a. is_number a.default_role_id i) apps missing in ground arith
  | inr found ↦ found
]

-- The default role of an app is never deleted: the call is refused as a conflict that names the
-- app, and nothing changes.
pub delete_role_default :
    (caller public_id : String) (role : SaRole) (db : Db)
    → check_permission caller roles_manage none db ≡ (ok tt, db)
    → find_role public_id db ≡ some role
    → any (λ a. is_number a.default_role_id role.id) db.apps ≡ true
    → (a : SaApp) × (find? (λ x. is_number x.default_role_id role.id) db.apps ≡ some a)
      × (delete_role caller public_id db ≡ (
        err (conflict (with_names "Role is the default role for app \"%\"" (a.name ∷ []))),
        db,
      ))
unfolding delete_role delete_role_tx delete_role_row delete_role_permissions role_in_use
delete_role_default caller public_id role db allowed found h =
    let (a, named) = default_app role.id db.apps h in (a, named, ground arith)

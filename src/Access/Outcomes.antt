-- ===== src/Access/Outcomes.antt =====
-- The permission helpers read, and answer or refuse: they never write.
use sassy_auth.Common.{
  String, List, Option, ◌≡◌, ◌⊎◌, inl, inr, arith, ok, err, forbidden, bare, Option-cases,
  Bool-cases, ℤ, Message, filter, with_names, contains, any, not, [], ◌∷◌,
}
use sassy_auth.Db.{Db}
use sassy_auth.Access.{
  find_user_by_ba_id, permission_names, allows, check_permission, ListScope, platform, org,
  resolve_list_scope, holds_platform, holds_scoped, assert_caller_can_grant_system_perms,
  platform_users_manage,
}

pub check_permission_cases :
    (caller : String) (required : List String) (target : Option ℤ) (db : Db)
    → (check_permission caller required target db ≡ (ok tt, db))
      ⊎ (check_permission caller required target db ≡ (err (forbidden bare), db))
unfolding check_permission
check_permission_cases caller required target db =
    elim (Option-cases (find_user_by_ba_id caller db)) [
      | inl missing ↦ inr (ground arith)
      | inr (u, found) ↦
          elim (Bool-cases (allows (permission_names db u) required target u.org_id)) [
            | inl allowed ↦ inl (ground arith)
            | inr refused ↦ inr (ground arith)
          ]
    ]

pub resolve_list_scope_cases :
    (caller : String) (required : List String) (db : Db)
    → ((scope : ListScope) × (resolve_list_scope caller required db ≡ (ok scope, db)))
      ⊎ (resolve_list_scope caller required db ≡ (err (forbidden bare), db))
unfolding resolve_list_scope
resolve_list_scope_cases caller required db = elim (Option-cases (find_user_by_ba_id caller db)) [
  | inl missing ↦ inr (ground arith)
  | inr (u, found) ↦ elim (Bool-cases (holds_platform (permission_names db u) required)) [
    | inl everywhere ↦ inl (platform, ground arith)
    | inr h ↦ elim (Bool-cases (holds_scoped (permission_names db u) required)) [
      | inl scoped ↦ inl (org u.org_id, ground arith)
      | inr refused ↦ inr (ground arith)
    ]
  ]
]

pub assert_caller_can_grant_cases :
    (caller : String) (names : List String) (db : Db)
    → (assert_caller_can_grant_system_perms caller names db ≡ (ok tt, db))
      ⊎ ((m : Message) × (assert_caller_can_grant_system_perms caller names db
            ≡ (err (forbidden m), db)))
unfolding assert_caller_can_grant_system_perms
assert_caller_can_grant_cases caller [] db = inl (ground arith)
assert_caller_can_grant_cases caller (n ∷ ns) db =
    elim (Option-cases (find_user_by_ba_id caller db)) [
      | inl missing ↦ inr (bare, ground arith)
      | inr (u, found) ↦
          elim (Bool-cases (contains (permission_names db u) platform_users_manage)) [
            | inl everywhere ↦ inl (ground arith)
            | inr h ↦
                elim (Bool-cases (any (λ m. not (contains (permission_names db u) m)) (n ∷ ns))) [
                  | inl lacking ↦
                      let missing =
                        filter (λ m. not (contains (permission_names db u) m)) (n ∷ ns) in
                      inr (
                        with_names "Cannot grant system permission(s) you do not hold: " missing,
                        ground arith,
                      )
                  | inr held ↦ inl (ground arith)
                ]
          ]
    ]

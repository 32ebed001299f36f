-- ===== src/Access/Listing.antt =====
-- What a list endpoint may show, and what an administrator may hand on.
use sassy_auth.Common.{
  ℕ, String, false, not, List, [], ◌∷◌, ◌≡◌, ◌↔◌, ◌⊎◌, inl, inr, arith, any, some, contains,
  Option-cases, ok, All,
}
use sassy_auth.Db.{SaUser, Db}
use sassy_auth.Access.{
  find_user_by_ba_id, permission_names, resolve_list_scope, platform, org,
  assert_caller_can_grant_system_perms, platform_users_manage,
}
use sassy_auth.Access.Holdings.{Holds, contains-permission_names_iff}
use sassy_auth.Access.Tenancy.{HoldsPlatform, HoldsScoped, holds_platform_iff, holds_scoped_iff}

-- `resolveListScope` answers the platform scope exactly when the caller holds a required
-- `platform.*` permission.
pub resolve_list_scope-platform_iff :
    (db : Db) (ba : String) (required : List String)
    → (resolve_list_scope ba required db ≡ (ok platform, db))
      ↔ ((u : SaUser) × (find_user_by_ba_id ba db ≡ some u) × HoldsPlatform db u required)
unfolding resolve_list_scope
resolve_list_scope-platform_iff db ba required = elim (Option-cases (find_user_by_ba_id ba db)) [
  | inl missing ↦ ground arith
  | inr (u, found) ↦
      ground (arith, holds_platform_iff db u required, holds_scoped_iff db u required)
]

-- It answers an organisation's scope exactly when that organisation is the caller's own, and the
-- caller holds a required permission but no required `platform.*` one.
pub resolve_list_scope-org_iff :
    (db : Db) (ba : String) (required : List String) (n : ℕ)
    → (resolve_list_scope ba required db ≡ (ok (org n), db)) ↔ (
        (u : SaUser) × (find_user_by_ba_id ba db ≡ some u)
        × (u.org_id ≡ n)
        × (¬ HoldsPlatform db u required)
        × HoldsScoped db u required)
unfolding resolve_list_scope
resolve_list_scope-org_iff db ba required n = elim (Option-cases (find_user_by_ba_id ba db)) [
  | inl missing ↦ ground arith
  | inr (u, found) ↦
      ground (arith, holds_platform_iff db u required, holds_scoped_iff db u required)
]

missing_none_iff :
    (db : Db) (u : SaUser) (names : List String)
    → (any (λ m. not (contains (permission_names db u) m)) names ≡ false) ↔ All (Holds db u) names
missing_none_iff db u [] = ground arith
missing_none_iff db u (n ∷ ns) =
    ground (arith, missing_none_iff db u ns, contains-permission_names_iff db u n)

-- `assertCallerCanGrantSystemPerms` lets a grant through exactly when it grants no system
-- permission, or the caller has a row and holds `platform.users.manage` or every one of them.
pub assert_caller_can_grant_iff :
    (db : Db) (ba : String) (names : List String)
    → (assert_caller_can_grant_system_perms ba names db ≡ (ok tt, db)) ↔ (
        (names ≡ [])
        ⊎ ((u : SaUser) × (find_user_by_ba_id ba db ≡ some u)
            × (Holds db u platform_users_manage ⊎ All (Holds db u) names)))
unfolding assert_caller_can_grant_system_perms
assert_caller_can_grant_iff db ba [] = ground arith
assert_caller_can_grant_iff db ba (n ∷ ns) = elim (Option-cases (find_user_by_ba_id ba db)) [
  | inl missing ↦ ground arith
  | inr (u, found) ↦ ground (
    arith,
    missing_none_iff db u (n ∷ ns),
    contains-permission_names_iff db u platform_users_manage,
  )
]

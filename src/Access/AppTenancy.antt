-- ===== src/Access/AppTenancy.antt =====
-- What the app-scoped helpers decide.
use sassy_auth.Common.{
  ℕ, String, true, false, not, Option, none, some, List, [], ◌∷◌, map, Memᴰ, ◌≡◌, ◌↔◌, ◌⊎◌, inl,
  inr, arith, ℤ, pos, is_target_iff, any, any_none, ◌==◌, contains, contains_iff, mem-filter_iff,
  Option-cases, ok, subst, sym, ◌&&◌,
}
use mathlib.Core.List.Memᴰ
use sassy_auth.Db.{SaUser, SaPermission, Db}
use sassy_auth.Access.{find_user_by_ba_id, permission_names}
use sassy_auth.Access.AppScope.{
  same_app, allows_for_app, check_permission_for_app, permissions_by_public_id,
  resolve_permission_ids_for_app,
}
use sassy_auth.Access.Tenancy.{
  HoldsPlatform, HoldsScoped, holds_platform_iff, holds_scoped_iff, second_loop,
}

same_app_iff :
    (target : Option ℤ) (caller : Option ℕ)
    → (same_app target caller ≡ true) ↔ ((a : ℕ) × (caller ≡ some a) × (target ≡ some (pos a)))
unfolding same_app
same_app_iff target none = ground arith
same_app_iff target (some a) = ground (arith, is_target_iff target a)

-- `checkPermissionForApp` lets a request through, and changes nothing, exactly when the caller
-- has a row and either holds a required `platform.*` permission, or holds another required
-- permission and both the caller's app and the target app are given and are the same.
check_permission_for_app_iff :
    (db : Db) (ba : String) (required : List String) (target : Option ℤ) (caller : Option ℕ)
    → (check_permission_for_app ba required target caller db ≡ (ok tt, db)) ↔ (
        (u : SaUser) × (find_user_by_ba_id ba db ≡ some u)
        × (HoldsPlatform db u required
            ⊎ (HoldsScoped db u required
                × ((a : ℕ) × (caller ≡ some a) × (target ≡ some (pos a))))))
unfolding check_permission_for_app allows_for_app
check_permission_for_app_iff db ba required target caller =
    elim (Option-cases (find_user_by_ba_id ba db)) [
      | inl missing ↦ ground arith
      | inr (u, found) ↦ ground (
        arith,
        second_loop (permission_names db u) required (same_app target caller),
        holds_platform_iff db u required,
        holds_scoped_iff db u required,
        same_app_iff target caller,
      )
    ]

-- What `resolvePermissionIdsForApp` answers with names only permissions that were asked for, and
-- each of them is a system permission or belongs to the app.
pub resolve_permission_ids_in_app :
    (db db' : Db) (app_id : ℕ) (asked : List String) (ids : List ℕ) (i : ℕ)
    → resolve_permission_ids_for_app app_id asked db ≡ (ok ids, db')
    → Memᴰ i ids
    → (p : SaPermission) × Memᴰ p db.permissions
      × (p.id ≡ i)
      × Memᴰ p.public_id asked
      × ((p.is_system ≡ true) ⊎ (p.app_id ≡ app_id))
unfolding resolve_permission_ids_for_app permissions_by_public_id
resolve_permission_ids_in_app db db' app_id [] ids i e m =
    let empty : [] ≡ ids = ground arith in
    let none_left : Memᴰ i [] = subst (λ l. Memᴰ i l) (sym empty) m in elim none_left [ ]
resolve_permission_ids_in_app db db' app_id (a ∷ as') ids i e m =
    let perms = permissions_by_public_id (a ∷ as') db in
    let wrong = λ (p : SaPermission). not p.is_system && not (p.app_id == app_id) in
    let same : map (λ p. p.id) perms ≡ ids = ground arith in
    let in_app : any wrong perms ≡ false = ground arith in
    let (p, k, q) = Memᴰ.of_map (λ p. p.id) perms (subst (λ l. Memᴰ i l) (sym same) m) in
    let (row, asked) =
      (mem-filter_iff (λ p. contains (a ∷ as') p.public_id) p db.permissions).0 k in
    let right : wrong p ≡ false = any_none wrong perms in_app p k in
    (p, row, q, (contains_iff (a ∷ as') p.public_id).0 asked, ground arith)

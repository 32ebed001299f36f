-- ===== src/Access/Tenancy.antt =====
-- What the permission helpers decide, against the rows of the join tables.
use sassy_auth.Common.{
  String, Bool, true, false, not, ◌&&◌, Option, some, List, [], ◌∷◌, Memᴰ, ◌≡◌, ◌≢◌, refl, ◌↔◌, ◌⊎◌,
  inl, inr, arith, ℤ, pos, is_target, is_target_iff, any, contains, any_sound, any_complete,
  Option-cases, ok, err, forbidden, bare,
}
use sassy_auth.Db.{SaUser, Db}
use sassy_auth.Access.{
  find_user_by_ba_id, permission_names, is_platform_permission, holds_platform, holds_scoped,
  allows, check_permission,
}
use sassy_auth.Access.Holdings.{Holds, contains-permission_names_iff}

-- One of the required permissions is a `platform.*` one that the user holds.
abbrev pub HoldsPlatform : Db → SaUser → List String → Type 0
HoldsPlatform db u required =
    (r : String) × Memᴰ r required × (is_platform_permission r ≡ true) × Holds db u r

-- One of the required permissions is no `platform.*` one, and the user holds it.
abbrev pub HoldsScoped : Db → SaUser → List String → Type 0
HoldsScoped db u required =
    (r : String) × Memᴰ r required × (is_platform_permission r ≡ false) × Holds db u r

pub holds_platform_iff :
    (db : Db) (u : SaUser) (required : List String)
    → (holds_platform (permission_names db u) required ≡ true) ↔ HoldsPlatform db u required
unfolding holds_platform
holds_platform_iff db u required = (
  λ h.
      let (r, m, e) = any_sound _ required h in
      (r, m, ground arith, (contains-permission_names_iff db u r).0 (ground arith)),
  λ h.
      any_complete _ h.0 required h.1
        (let c = (contains-permission_names_iff db u h.0).1 h.3 in rw (h.2, c)),
)

pub holds_scoped_iff :
    (db : Db) (u : SaUser) (required : List String)
    → (holds_scoped (permission_names db u) required ≡ true) ↔ HoldsScoped db u required
unfolding holds_scoped
holds_scoped_iff db u required = (
  λ h.
      let (r, m, e) = any_sound _ required h in
      (r, m, ground arith, (contains-permission_names_iff db u r).0 (ground arith)),
  λ h.
      any_complete _ h.0 required h.1
        (let c = (contains-permission_names_iff db u h.0).1 h.3 in rw (h.2, c)),
)

-- The test of the second loop is `holds_scoped` and the equality of the targets.
any-and_const :
    (p : String → Bool) (b : Bool) (xs : List String) → any (λ r. p r && b) xs ≡ (any p xs && b)
any-and_const p true [] = refl
any-and_const p false [] = refl
any-and_const p b (x ∷ xs) = ground (arith, any-and_const p b xs)

pub second_loop :
    (perms required : List String) (b : Bool)
    → any (λ r. not (is_platform_permission r) && contains perms r && b) required
      ≡ (holds_scoped perms required && b)
unfolding holds_scoped
second_loop perms required b =
    any-and_const (λ r. not (is_platform_permission r) && contains perms r) b required

abbrev pub Granted : Db → SaUser → List String → Option ℤ → Type 0
Granted db u required target =
    HoldsPlatform db u required ⊎ (HoldsScoped db u required × (target ≡ some (pos u.org_id)))

pub allows_iff :
    (db : Db) (u : SaUser) (required : List String) (target : Option ℤ)
    → (allows (permission_names db u) required target u.org_id ≡ true)
      ↔ Granted db u required target
unfolding allows
allows_iff db u required target = ground (
  arith,
  second_loop (permission_names db u) required (is_target target u.org_id),
  holds_platform_iff db u required,
  holds_scoped_iff db u required,
  is_target_iff target u.org_id,
)

-- `checkPermission` lets a request through, and changes nothing, exactly when the caller has a
-- row and either holds a required `platform.*` permission, or holds another required permission
-- and belongs to the organisation that the request is about.
pub check_permission_iff :
    (db : Db) (ba : String) (required : List String) (target : Option ℤ)
    → (check_permission ba required target db ≡ (ok tt, db))
      ↔ ((u : SaUser) × (find_user_by_ba_id ba db ≡ some u) × Granted db u required target)
unfolding check_permission
check_permission_iff db ba required target = elim (Option-cases (find_user_by_ba_id ba db)) [
  | inl missing ↦ ground arith
  | inr (u, found) ↦ ground (arith, allows_iff db u required target)
]

-- Tenant isolation: a caller who holds no required `platform.*` permission is refused on every
-- organisation but the caller's own, whatever else the caller holds, and nothing changes.
pub check_permission_isolates :
    (db : Db) (ba : String) (u : SaUser) (required : List String) (target : Option ℤ)
    → find_user_by_ba_id ba db ≡ some u
    → ¬ HoldsPlatform db u required
    → target ≢ some (pos u.org_id)
    → check_permission ba required target db ≡ (err (forbidden bare), db)
unfolding check_permission
check_permission_isolates db ba u required target found no_platform other =
    ground (arith, allows_iff db u required target)

-- ===== src/Users/Listing.antt =====
-- Whom a list of users shows.
use sassy_auth.Common.{
  String, true, Option, none, some, List, ◌≡◌, ◌⊎◌, inl, inr, refl, arith, ok, err, map, Memᴰ,
  Option-cases, Bool-cases, ==_iff, ◌===◌, subst, sym, not_found, plain,
}
use mathlib.Core.List.Memᴰ
use sassy_auth.Db.{SaUser, SaOrg, Db}
use sassy_auth.Queries.{find_org, rows_of_page}
use sassy_auth.Queries.Pages.{mem-rows_of_page}
use sassy_auth.Access.{find_user_by_ba_id}
use sassy_auth.Access.Outcomes.{check_permission_cases}
use sassy_auth.Access.Tenancy.{HoldsPlatform, Granted, check_permission_iff}
use sassy_auth.Users.{users_manage}
use sassy_auth.Users.Accounts.{UserView, format_user, org_filter, target_org, in_org, list_users}

org_filter_cases :
    (filter : Option String) (db : Db)
    → ((o : Option SaOrg) × (org_filter filter db ≡ (ok o, db)))
      ⊎ (org_filter filter db ≡ (err (not_found (plain "Org not found")), db))
unfolding org_filter
org_filter_cases none db = inl (none, refl)
org_filter_cases (some i) db = elim (Option-cases (find_org i db)) [
  | inl missing ↦ elim (Bool-cases (i === "")) [
    | inl empty ↦ inl (none, ground arith)
    | inr given ↦ inr (ground arith)
  ]
  | inr (o, found) ↦ elim (Bool-cases (i === "")) [
    | inl empty ↦ inl (none, ground arith)
    | inr given ↦ inl (some o, ground arith)
  ]
]

list_users-eq-ok :
    (caller : String) (filter : Option String) (db db' : Db) (views : List UserView)
    → list_users caller filter db ≡ (ok views, db')
    → (o : Option SaOrg) × (c : SaUser) × (find_user_by_ba_id caller db ≡ some c)
      × Granted db c users_manage (some (target_org o))
      × (views ≡ map (format_user db) (rows_of_page (λ u. u.id) (in_org o) 1 500 db.users))
unfolding list_users
list_users-eq-ok caller filter db db' views h = elim (org_filter_cases filter db) [
  | inr missing ↦ ground arith
  | inl (o, picked) ↦ elim (check_permission_cases caller users_manage (some (target_org o)) db) [
    | inr refused ↦ ground arith
    | inl allowed ↦
        let (c, found, granted) =
          (check_permission_iff db caller users_manage (some (target_org o))).0 allowed in
        (o, c, found, granted, ground arith)
  ]
]

own_org :
    (db : Db) (c u : SaUser) (o : Option SaOrg)
    → Granted db c users_manage (some (target_org o))
    → in_org o u ≡ true
    → HoldsPlatform db c users_manage ⊎ (u.org_id ≡ c.org_id)
unfolding target_org in_org
own_org db c u o (inl holds) picked = inl holds
own_org db c u none (inr (scoped, same)) picked = ground arith
own_org db c u (some o) (inr (scoped, same)) picked =
    inr (let eq = (==_iff u.org_id o.id).0 picked in ground arith)

-- Tenant isolation of the list of users: whatever organisation a caller asks for, each item is a
-- user of the table, of the caller's own organisation unless the caller holds a `platform.*`
-- permission that lets users be managed.
pub list_users_isolates :
    (caller : String) (filter : Option String) (db db' : Db) (views : List UserView)
    (item : UserView)
    → list_users caller filter db ≡ (ok views, db')
    → Memᴰ item views
    → (c : SaUser) × (u : SaUser) × (find_user_by_ba_id caller db ≡ some c)
      × Memᴰ u db.users
      × (item ≡ format_user db u)
      × (HoldsPlatform db c users_manage ⊎ (u.org_id ≡ c.org_id))
list_users_isolates caller filter db db' views item h m =
    let (o, c, found, granted, items) = list_users-eq-ok caller filter db db' views h in
    let (u, k, shown) = Memᴰ.of_map (format_user db) _ (subst (λ l. Memᴰ item l) items m) in
    let (row, picked) = mem-rows_of_page (λ u. u.id) _ _ _ db.users u k in
    (c, u, found, row, sym shown, own_org db c u o granted picked)

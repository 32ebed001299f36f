-- ===== src/Orgs/Listing.antt =====
-- What the list of organisations shows.
use sassy_auth.Common.{
  ℕ, String, true, Option, some, none, Memᴰ, ◌≡◌, refl, ◌===◌, Bool-cases, not_found, plain, ◌⊎◌,
  inl, inr, arith, map, ok, Option-cases, subst, sym, get_or, err, not_found, plain, Bool-cases,
  ◌===◌,
}
use mathlib.Core.List.Memᴰ
use sassy_auth.Db.{SaUser, SaOrg, Db}
use sassy_auth.Access.{find_user_by_ba_id, resolve_list_scope, platform, org, ListScope}
use sassy_auth.Access.Tenancy.{HoldsPlatform}
use sassy_auth.Access.Outcomes.{resolve_list_scope_cases}
use sassy_auth.Access.Listing.{resolve_list_scope-platform_iff, resolve_list_scope-org_iff}
use sassy_auth.Queries.{Externals, ListQuery, Page, app_filter, rows_of_page}
use sassy_auth.Queries.Pages.{mem-rows_of_page}
use sassy_auth.Orgs.{OrgView, format_org, orgs_read, in_scope, org_selected, list_orgs, find_app}

app_filter_cases :
    (app : Option String) (db : Db)
    → ((i : Option ℕ) × (app_filter app db ≡ (ok i, db)))
      ⊎ (app_filter app db ≡ (err (not_found (plain "App not found")), db))
unfolding app_filter
app_filter_cases none db = inl (none, refl)
app_filter_cases (some a) db = elim (Option-cases (find_app a db)) [
  | inl missing ↦ elim (Bool-cases (a === "")) [
    | inl empty ↦ inl (none, ground arith)
    | inr given ↦ inr (ground arith)
  ]
  | inr (app, found) ↦ elim (Bool-cases (a === "")) [
    | inl empty ↦ inl (none, ground arith)
    | inr given ↦ inl (some app.id, ground arith)
  ]
]

list_orgs_ok :
    (ext : Externals) (caller : String) (q : ListQuery) (db db' : Db) (page : Page OrgView)
    → list_orgs ext caller q db ≡ (ok page, db')
    → (scope : ListScope) × (app_id : Option ℕ) × (resolve_list_scope caller orgs_read db
        ≡ (ok scope, db))
      × (page.items
          ≡ map (format_org db) (
              rows_of_page
                (λ o. o.id)
                (org_selected ext scope app_id q.q)
                (get_or q.page 1)
                (get_or q.page_size 25)
                db.orgs))
unfolding list_orgs
list_orgs_ok ext caller q db db' page e = elim (resolve_list_scope_cases caller orgs_read db) [
  | inr refused ↦ ground arith
  | inl (scope, scoped) ↦ elim (app_filter_cases q.app_id db) [
    | inr missing ↦ ground arith
    | inl (i, found) ↦ (scope, i, scoped, ground arith)
  ]
]

selected_in_scope :
    (ext : Externals) (caller : String) (db : Db) (scope : ListScope) (i : Option ℕ)
    (q : Option String) (o : SaOrg)
    → resolve_list_scope caller orgs_read db ≡ (ok scope, db)
    → org_selected ext scope i q o ≡ true
    → (u : SaUser) × (find_user_by_ba_id caller db ≡ some u)
      × (HoldsPlatform db u orgs_read ⊎ (o.id ≡ u.org_id))
unfolding org_selected in_scope
selected_in_scope ext caller db platform i q o scoped picked =
    let (u, found, holds) = (resolve_list_scope-platform_iff db caller orgs_read).0 scoped in
    (u, found, inl holds)
selected_in_scope ext caller db (org n) i q o scoped picked =
    let (u, found, same, none_held, scoped_held) =
      (resolve_list_scope-org_iff db caller orgs_read n).0 scoped in
    (u, found, inr (ground arith))

-- Tenant isolation of the list: whatever a caller filters for, each item is an organisation of the
-- table, and it is the caller's own unless the caller holds a `platform.*` permission that lets
-- organisations be read.
pub list_orgs_isolates :
    (ext : Externals) (caller : String) (q : ListQuery) (db db' : Db) (page : Page OrgView)
    (item : OrgView)
    → list_orgs ext caller q db ≡ (ok page, db')
    → Memᴰ item page.items
    → (u : SaUser) × (o : SaOrg) × (find_user_by_ba_id caller db ≡ some u)
      × Memᴰ o db.orgs
      × (item ≡ format_org db o)
      × (HoldsPlatform db u orgs_read ⊎ (o.id ≡ u.org_id))
list_orgs_isolates ext caller q db db' page item e m =
    let (scope, i, scoped, items) = list_orgs_ok ext caller q db db' page e in
    let (o, k, shown) = Memᴰ.of_map (format_org db) _ (subst (λ l. Memᴰ item l) items m) in
    let (row, picked) = mem-rows_of_page (λ o. o.id) _ _ _ db.orgs o k in
    let (u, found, own) = selected_in_scope ext caller db scope i q.q o scoped picked in
    (u, o, found, row, sym shown, own)

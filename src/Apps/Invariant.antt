-- ===== src/Apps/Invariant.antt =====
-- The invariant of the table of apps, and that each write of a transaction keeps it.
use sassy_auth.Common.{
  ℕ, suc, String, true, false, not, Option, List, [], ◌∷◌, Memᴰ, ◌≡◌, refl, sym, subst, inl, inr,
  arith, ◌==◌, ◌&&◌, any, find?, delete_where, update_where, ok, mem-delete_where, Bool-cases,
  Option-cases,
}
use mathlib.Core.List.Memᴰ
use sassy_auth.RedirectUri.{Url, RedirectUri}
use sassy_auth.Db.{SaApp, SaOrg, SaRole, Db}
use sassy_auth.Queries.Tables.{Write, ◌>>>◌, ok-of_both}
use sassy_auth.Queries.Keys.{distinct, distinct-update_where, distinct-delete_where}
use sassy_auth.Apps.Rows.{
  insert_app, update_app_row, replace_redirects, set_redirects, delete_app_row, same_app_key,
}
use sassy_auth.Apps.Valid.{IsValidApp, Keeps, KeepsAmong, update_where-IsValid}

module _ (parse_url : String → Option Url) (orgs : List SaOrg) (roles : List SaRole) where
  -- The organisations and roles are those, every app is valid, and the ids of apps are distinct.
  pub record IsConsistent (db : Db) : Type 0 where
    pub same_orgs : db.orgs ≡ orgs
    pub same_roles : db.roles ≡ roles
    pub each : (a : SaApp) → Memᴰ a db.apps → IsValidApp parse_url orgs roles a
    pub keys : distinct (λ a. a.id) db.apps ≡ true

  -- Where the write commits, the invariant holds again.
  abbrev pub Preserves : Write → Type 0
  Preserves w = (db db' : Db) → w db ≡ ok (tt, db') → IsConsistent db → IsConsistent db'

  pub Preserves-both : (v w : Write) → Preserves v → Preserves w → Preserves (v >>> w)
  Preserves-both v w kv kw db db' e c =
      let (mid, first, second) = ok-of_both v w db db' e in kw mid db' second (kv db mid first c)

  changed_rows :
      (i : ℕ) (f : SaApp → SaApp) (db : Db)
      → KeepsAmong parse_url db.apps orgs roles i f
      → ((a : SaApp) → (f a).id ≡ a.id)
      → IsConsistent db
      → IsConsistent (record db { apps = update_where (λ a. a.id == i) f db.apps })
  changed_rows i f db keeps same c = record {
    same_orgs = c.same_orgs;
    same_roles = c.same_roles;
    each = update_where-IsValid parse_url orgs roles i f db.apps keeps c.each;
    keys = distinct-update_where (λ a. a.id) (λ a. a.id == i) f db.apps same c.keys;
  }

  pub update_app_row-eq-ok :
      (i : ℕ) (f : SaApp → SaApp) (db db' : Db)
      → update_app_row i f db ≡ ok (tt, db')
      → record db { apps = update_where (λ a. a.id == i) f db.apps } ≡ db'
  unfolding update_app_row
  update_app_row-eq-ok i f db db' e = elim (Option-cases (find? (λ a. a.id == i) db.apps)) [
    | inl missing ↦ ground arith
    | inr (row, found) ↦
        elim (Bool-cases (any (λ a. not (a.id == i) && same_app_key (f row) a) db.apps)) [
          | inl clash ↦ ground arith
          | inr free ↦ ground arith
        ]
  ]

  pub update_app_row-Consistent :
      (i : ℕ) (f : SaApp → SaApp) (db db' : Db)
      → KeepsAmong parse_url db.apps orgs roles i f
      → ((a : SaApp) → (f a).id ≡ a.id)
      → update_app_row i f db ≡ ok (tt, db')
      → IsConsistent db
      → IsConsistent db'
  update_app_row-Consistent i f db db' keeps same e c =
      subst IsConsistent (update_app_row-eq-ok i f db db' e) (changed_rows i f db keeps same c)

  pub update_app_row-Preserves :
      (i : ℕ) (f : SaApp → SaApp)
      → Keeps parse_url orgs roles i f
      → ((a : SaApp) → (f a).id ≡ a.id)
      → Preserves (update_app_row i f)
  update_app_row-Preserves i f keeps same db db' e c =
      update_app_row-Consistent i f db db' (λ a m. keeps a) same e c

  pub replace_redirects-Preserves :
      (i : ℕ) (rows : List RedirectUri)
      → Keeps parse_url orgs roles i (set_redirects rows)
      → Preserves (replace_redirects i rows)
  unfolding replace_redirects set_redirects
  replace_redirects-Preserves i rows keeps db db' e c =
      subst IsConsistent (ground arith)
        (changed_rows i (set_redirects rows) db (λ a m. keeps a) (λ a. refl) c)

  fresh_id :
      (row : SaApp) (apps : List SaApp)
      → any (same_app_key row) apps ≡ false
      → any (λ y. y.id == row.id) apps ≡ false
  fresh_id row [] h = refl
  fresh_id row (a ∷ apps) h = ground (arith, fresh_id row apps)

  pub insert_app-Preserves :
      (row : SaApp) → IsValidApp parse_url orgs roles row → Preserves (insert_app row)
  unfolding insert_app
  insert_app-Preserves row valid db db' e c = elim (Bool-cases (any (same_app_key row) db.apps)) [
    | inl clash ↦ ground arith
    | inr free ↦
        let written : record db { apps = row ∷ db.apps; next_app_id = suc db.next_app_id } ≡ db' =
          ground arith in
        subst IsConsistent written (record {
          same_orgs = c.same_orgs;
          same_roles = c.same_roles;
          each = λ a m. elim (Memᴰ.cases_cons m) [
            | inl q ↦ subst (IsValidApp parse_url orgs roles) (sym q) valid
            | inr k ↦ c.each a k
          ];
          keys = let f = fresh_id row db.apps free in let k = c.keys in ground arith;
        })
  ]

  pub delete_app_row-Preserves : (i : ℕ) → Preserves (delete_app_row i)
  unfolding delete_app_row
  delete_app_row-Preserves i db db' e c =
      let written : record db {
        apps = delete_where (λ a. a.id == i) db.apps;
        consents = delete_where (λ c. c.app_id == i) db.consents;
      }
          ≡ db' =
        ground arith in
      subst IsConsistent written (record {
        same_orgs = c.same_orgs;
        same_roles = c.same_roles;
        each = λ a m. c.each a (mem-delete_where (λ a. a.id == i) a db.apps m);
        keys = distinct-delete_where (λ a. a.id) (λ a. a.id == i) db.apps c.keys;
      })

-- ===== src/Apps/Kept.antt =====
-- Reads, commits and transactions on apps keep the invariant of their table.
use sassy_auth.Common.{
  ℕ, String, Option, none, some, List, map, ⊤, ◌≡◌, ◌⊎◌, inl, inr, refl, sym, subst, arith, Action,
  ok, err, Result-cases, Option-cases, commit, try_catch, throw, Exception, forbidden, not_found,
  bare, is_prisma_code, p2002, if◌then◌else◌, find?, ◌>>=◌, bind-reads, ◌==◌,
}
use sassy_auth.RedirectUri.{Url}
use sassy_auth.PasswordPolicy.{PasswordPolicy}
use sassy_auth.Db.{SaApp, SaOrg, SaRole, Db}
use sassy_auth.Access.{check_permission}
use sassy_auth.Access.Outcomes.{check_permission_cases}
use sassy_auth.Queries.{Externals, find_app}
use sassy_auth.Queries.Tables.{Write}
use sassy_auth.Apps.Validation.{RedirectUriDto, redirect_row, assert_valid_redirect_uris}
use sassy_auth.Apps.Settings.{CreateAppDto, UpdateAppDto, updated_app, draft_app}
use sassy_auth.Apps.Writes.{
  IsChecked, updated_app-Keeps, redirects-Keeps, public_id-Keeps, draft_app-IsValidApp,
}
use sassy_auth.Apps.Invariant.{
  IsConsistent, Preserves, Preserves-both, update_app_row-Preserves, replace_redirects-Preserves,
  insert_app-Preserves,
}
use sassy_auth.Apps.{
  apps_manage, find_managed_app, or_name_taken, app_name_taken, view_of_id, check_given,
  update_app_tx, create_app_tx, write_redirects,
}

-- The query of the row throws, or it answers the row of the public id; it changes nothing.
pub find_managed_app-cases :
    (caller public_id : String) (db : Db)
    → ((e : Exception) × (find_managed_app caller public_id db ≡ (err e, db)))
      ⊎ ((a : SaApp) × (find_app public_id db ≡ some a)
          × (check_permission caller apps_manage none db ≡ (ok tt, db))
          × (find_managed_app caller public_id db ≡ (ok a, db)))
unfolding find_managed_app
find_managed_app-cases caller public_id db =
    elim (check_permission_cases caller apps_manage none db) [
      | inr refused ↦ inl (forbidden bare, ground arith)
      | inl allowed ↦ elim (Option-cases (find_app public_id db)) [
        | inl missing ↦ inl (not_found bare, ground arith)
        | inr (a, found) ↦ inr (a, found, allowed, ground arith)
      ]
    ]

pub view_of_id-reads : (policy : PasswordPolicy) (i : ℕ) (db : Db) → (view_of_id policy i db).1 ≡ db
unfolding view_of_id
view_of_id-reads policy i db = elim (Option-cases (find? (λ a. a.id == i) db.apps)) [
  | inl missing ↦ ground arith
  | inr (a, found) ↦ ground arith
]

-- What holds after the query and the rest of an operation.
pub after_find :
    {A : Type 0} (P : Db → Type 0) (caller public_id : String) (rest : SaApp → Action Db A)
    (db : Db)
    → ((a : SaApp) → find_app public_id db ≡ some a → P (rest a db).1)
    → P db
    → P ((find_managed_app caller public_id >>= rest) db).1
after_find P caller public_id rest db step h = elim (find_managed_app-cases caller public_id db) [
  | inl (e, refused) ↦ subst P (ground arith) h
  | inr (a, found, allowed, answered) ↦ subst P (ground arith) (step a found)
]

module _ (parse_url : String → Option Url) (orgs : List SaOrg) (roles : List SaRole) where
  abbrev Consistent : Db → Type 0
  Consistent = IsConsistent parse_url orgs roles

  pub commit-Consistent :
      (w : Write) (db : Db)
      → ((db' : Db) → w db ≡ ok (tt, db') → Consistent db')
      → Consistent db
      → Consistent (commit w db).1
  commit-Consistent w db kept c = elim (Result-cases (w db)) [
    | inl ((u, db'), done) ↦ subst Consistent (ground arith) (kept db' done)
    | inr (e, failed) ↦ subst Consistent (ground arith) c
  ]

  pub caught-Consistent :
      (w : Write) (handler : Exception → Action Db ⊤) (db : Db)
      → ((e : Exception) (t : Db) → (handler e t).1 ≡ t)
      → Preserves parse_url orgs roles w
      → Consistent db
      → Consistent (try_catch (commit w) handler db).1
  caught-Consistent w handler db reads kept c = elim (Result-cases (w db)) [
    | inl ((u, db'), done) ↦ subst Consistent (ground arith) (kept db db' done c)
    | inr (e, failed) ↦ subst Consistent (ground (arith, reads e db)) c
  ]

  pub or_name_taken-Consistent :
      (w : Write) (db : Db)
      → Preserves parse_url orgs roles w
      → Consistent db
      → Consistent (or_name_taken (commit w) db).1
  or_name_taken-Consistent w db kept c =
      caught-Consistent w (λ e. if is_prisma_code e p2002 then throw app_name_taken else throw e) db
        (λ e t. ground arith) kept c

  pub then_reads :
      {A B : Type 0} (m : Action Db A) (f : A → Action Db B) (db : Db)
      → ((a : A) (t : Db) → (f a t).1 ≡ t)
      → Consistent (m db).1
      → Consistent ((m >>= f) db).1
  then_reads m f db reads c = subst Consistent (sym (bind-reads m f db reads)) c

  pub write_redirects-Preserves :
      (i : ℕ) (given : Option (List RedirectUriDto))
      → check_given (assert_valid_redirect_uris parse_url) given ≡ ok tt
      → Preserves parse_url orgs roles (write_redirects i given)
  unfolding write_redirects
  write_redirects-Preserves i none checked db db' e c = subst Consistent (ground arith) c
  write_redirects-Preserves i (some rows) checked db db' e c =
      replace_redirects-Preserves parse_url orgs roles i (map redirect_row rows)
        (redirects-Keeps parse_url orgs roles i rows checked) db db' e c

  pub update_app_tx-Preserves :
      (dto : UpdateAppDto) (i : ℕ) (org role : Option (Option ℕ))
      → IsChecked parse_url orgs roles dto i org role
      → Preserves parse_url orgs roles (update_app_tx dto i org role)
  unfolding update_app_tx updated_app
  update_app_tx-Preserves dto i org role checked =
      Preserves-both parse_url orgs roles _ _
        (update_app_row-Preserves parse_url orgs roles i (updated_app dto org role)
          (updated_app-Keeps parse_url orgs roles dto i org role checked) (λ a. refl))
        (write_redirects-Preserves i dto.redirect_uris checked.redirects)

  pub create_app_tx-Preserves :
      (ext : Externals) (dto : CreateAppDto) (pending : String)
      → check_given (assert_valid_redirect_uris parse_url) dto.redirect_uris ≡ ok tt
      → Preserves parse_url orgs roles (create_app_tx ext dto pending)
  unfolding create_app_tx draft_app
  create_app_tx-Preserves ext dto pending checked db =
      let i = db.next_app_id in
      Preserves-both parse_url orgs roles _ _
        (Preserves-both parse_url orgs roles _ _
          (insert_app-Preserves parse_url orgs roles (draft_app dto pending i)
            (draft_app-IsValidApp parse_url orgs roles dto pending i))
          (update_app_row-Preserves parse_url orgs roles i
            (λ a. record a { public_id = ext.encode i })
            (public_id-Keeps parse_url orgs roles i (ext.encode i)) (λ a. refl)))
        (write_redirects-Preserves i dto.redirect_uris checked) db

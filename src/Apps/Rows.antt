-- ===== src/Apps/Rows.antt =====
-- The writes on the tables SaApp and SaAppRedirectUri, with the constraints of schema.prisma.
use sassy_auth.Common.{
  ℕ, suc, Bool, false, not, ◌&&◌, ◌||◌, none, some, List, [], ◌∷◌, ◌==◌, ◌===◌, if◌then◌else◌,
  find?, any, delete_where, update_where, prisma_error, p2002, p2003, p2025, ok, err,
}
use sassy_auth.Db.{SaApp}
use sassy_auth.RedirectUri.{RedirectUri, same_kind}
use sassy_auth.Queries.Tables.{Write}

-- Unique columns: the id, the public id, the name.
abbrev pub same_app_key : SaApp → SaApp → Bool
same_app_key a b = a.id == b.id || a.public_id === b.public_id || a.name === b.name

unfoldable pub insert_app : SaApp → Write
insert_app row db =
    if any (same_app_key row) db.apps
    then err (prisma_error p2002)
    else ok (tt, record db { apps = row ∷ db.apps; next_app_id = suc db.next_app_id })

unfoldable pub update_app_row : ℕ → (SaApp → SaApp) → Write
update_app_row i change db = elim (find? (λ a. a.id == i) db.apps) [
  | none ↦ err (prisma_error p2025)
  | some row ↦
      if any (λ a. not (a.id == i) && same_app_key (change row) a) db.apps
      then err (prisma_error p2002)
      else ok (tt, record db { apps = update_where (λ a. a.id == i) change db.apps })
]

-- `@@unique([appId, uri, kind])`
unfoldable pub has_repeat : List RedirectUri → Bool
has_repeat [] = false
has_repeat (r ∷ rs) = any (λ x. x.uri === r.uri && same_kind x.kind r.kind) rs || has_repeat rs

unfoldable pub set_redirects : List RedirectUri → SaApp → SaApp
set_redirects rows a = record a { redirects = record a.redirects { redirect_uris = rows } }

-- `deleteMany` and `createMany` on the redirect URIs of an app, which are a column of its row here.
unfoldable pub replace_redirects : ℕ → List RedirectUri → Write
replace_redirects i rows db =
    if has_repeat rows
    then err (prisma_error p2002)
    else ok (tt, record db { apps = update_where (λ a. a.id == i) (set_redirects rows) db.apps })

-- `saApp.delete`: organisations, roles and permissions restrict, the consents cascade.
unfoldable pub delete_app_row : ℕ → Write
delete_app_row i db =
    if any (λ o. o.app_id == i) db.orgs
      || any (λ r. r.app_id == i) db.roles
      || any (λ p. p.app_id == i) db.permissions
    then err (prisma_error p2003)
    else ok (
      tt,
      record db {
        apps = delete_where (λ a. a.id == i) db.apps;
        consents = delete_where (λ c. c.app_id == i) db.consents;
      },
    )

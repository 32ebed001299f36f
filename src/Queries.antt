-- ===== src/Queries.antt =====
-- The queries that several services make on the tables of Db, and what a page of a list is.
-- Postgres orders by name and matches ILIKE patterns, and the Sqids library encodes ids: these are
-- an interface.
pub mod Tables
pub mod Keys
pub mod Pages
use Prim.Native.Char.{Char, code}
use Prim.Native.String
use sassy_auth.Common.{
  ℕ, zero, suc, ◌+◌, ◌-◌, ◌*◌, String, Bool, true, false, not, ◌&&◌, ◌||◌, Option, none, some, List,
  [], ◌∷◌, ◌++◌, map, ⊤, ◌==◌, ◌===◌, ltb, leb, is_number, get_or, if◌then◌else◌, filter, find?,
  any, length, take, drop, filter_map, count_where, delete_where, update_where, prisma_error, p2002,
  p2003, p2025, Result, ok, err, Action, ◌>>=◌, pure, gets, or_throw, not_found, plain, Action,
  pure,
}
use sassy_auth.Db.{
  SaApp, SaOrg, SaUser, SaRole, SaPermission, SaRolePermission, SaUserRole, SaUserPermission, Db,
}

pub record Externals : Type 0 where
  -- `SqidService.encode`
  pub encode : ℕ → String
  -- `name ILIKE '%' || pattern || '%'`: the name, then the escaped pattern
  pub name_matches : String → String → Bool
  -- `ORDER BY name ASC`
  pub by_name : List SaPermission → List SaPermission

unfoldable pub find_app : String → Db → Option SaApp
find_app i db = find? (λ a. a.public_id === i) db.apps

unfoldable pub find_app_by_id : ℕ → Db → Option SaApp
find_app_by_id i db = find? (λ a. a.id == i) db.apps

unfoldable pub find_org : String → Db → Option SaOrg
find_org i db = find? (λ o. o.public_id === i) db.orgs

unfoldable pub find_org_by_id : ℕ → Db → Option SaOrg
find_org_by_id i db = find? (λ o. o.id == i) db.orgs

unfoldable pub find_user : String → Db → Option SaUser
find_user i db = find? (λ u. u.public_id === i) db.users

unfoldable pub find_role : String → Db → Option SaRole
find_role i db = find? (λ r. r.public_id === i) db.roles

unfoldable pub find_permission : String → Db → Option SaPermission
find_permission i db = find? (λ p. p.public_id === i) db.permissions

unfoldable pub count_users_of_role : ℕ → Db → ℕ
count_users_of_role i db = count_where (λ ur. ur.role_id == i) db.user_roles

unfoldable pub count_permissions_of_role : ℕ → Db → ℕ
count_permissions_of_role i db = count_where (λ rp. rp.role_id == i) db.role_permissions

unfoldable pub count_roles_of_permission : ℕ → Db → ℕ
count_roles_of_permission i db = count_where (λ rp. rp.permission_id == i) db.role_permissions

unfoldable pub count_users_of_permission : ℕ → Db → ℕ
count_users_of_permission i db = count_where (λ up. up.permission_id == i) db.user_permissions

unfoldable pub count_users_of_org : ℕ → Db → ℕ
count_users_of_org i db = count_where (λ u. u.org_id == i) db.users

-- `app: { select: { publicId: true, name: true } }`; the foreign key makes it `some`.
pub record AppRef : Type 0 where
  pub public_id : String
  pub name : String

unfoldable pub app_ref : ℕ → Db → Option AppRef
app_ref i db = elim (find_app_by_id i db) [
  | none ↦ none
  | some a ↦ some (record { public_id = a.public_id; name = a.name })
]

-- The query of a list endpoint; an absent field is `none`.
pub record ListQuery : Type 0 where
  pub app_id : Option String
  pub q : Option String
  pub page : Option ℕ
  pub page_size : Option ℕ

pub record Page (A : Type 0) : Type 0 where
  pub items : List A
  pub total : ℕ
  pub page : ℕ
  pub page_size : ℕ

-- `q.replace(/%/g, '\\%').replace(/_/g, '\\_')`
unfoldable pub escape_like : String → String
escape_like String.[] = String.[]
escape_like (String.◌∷◌ c s) =
    let rest = escape_like s in
    if code c == b'%' || code c == b'_'
    then String.◌++◌ "\\" (String.◌∷◌ c rest)
    else String.◌∷◌ c rest

-- `if (q.q) where.name = …`
unfoldable pub name_selected : Externals → Option String → String → Bool
name_selected ext none name = true
name_selected ext (some q) name = if q === "" then true else ext.name_matches name (escape_like q)

-- `if (q.appId)`: the app's id, or no filter; a missing app throws.
unfoldable pub app_filter : Option String → Action Db (Option ℕ)
app_filter none = pure none
app_filter (some i) = if i === "" then pure none else do
  app ← or_throw (← gets (find_app i)) (not_found (plain "App not found"))
  pure (some app.id)

unfoldable pub in_app : Option ℕ → ℕ → Bool
in_app none a = true
in_app (some i) a = a == i

-- `orderBy: { id: 'desc' }`
insert_desc : {A : Type 0} → (A → ℕ) → A → List A → List A
insert_desc id x [] = x ∷ []
insert_desc id x (y ∷ ys) =
    let later = y ∷ insert_desc id x ys in if leb (id y) (id x) then x ∷ y ∷ ys else later

unfoldable pub sort_desc : {A : Type 0} → (A → ℕ) → List A → List A
unfolding insert_desc
sort_desc id [] = []
sort_desc id (x ∷ xs) = insert_desc id x (sort_desc id xs)

-- `findMany({ where, skip: (page - 1) * pageSize, take: pageSize, orderBy: { id: 'desc' } })`
unfoldable pub rows_of_page : {A : Type 0} → (A → ℕ) → (A → Bool) → ℕ → ℕ → List A → List A
rows_of_page id selected page size rows =
    take size (drop ((page - 1) * size) (sort_desc id (filter selected rows)))

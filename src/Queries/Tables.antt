-- ===== src/Queries/Tables.antt =====
-- The writes on roles, permissions and organisations, with the constraints of schema.prisma:
-- unique columns (P2002), restricted foreign keys (P2003), a missing row (P2025). A call inside a
-- transaction answers the new tables, or throws and leaves the old ones.
use sassy_auth.Common.{
  ℕ, suc, Bool, true, false, not, ◌&&◌, ◌||◌, none, some, List, [], ◌∷◌, ⊤, ◌==◌, ◌===◌, is_number,
  if◌then◌else◌, find?, any, delete_where, update_where, prisma_error, p2002, p2003, p2025, Result,
  ok, err, ◌≡◌, Result-cases, inl, arith, inr,
}
use sassy_auth.Db.{SaOrg, SaRole, SaPermission, Db}

-- A write inside a transaction.
abbrev pub Write : Type 0
Write = Db → Result (⊤ × Db)

-- One write after another; the first that throws ends the transaction.
infixl 5 ◌>>>◌
abbrev pub ◌>>>◌ : Write → Write → Write
◌>>>◌ first second db = elim (first db) [ ok (u, db') ↦ second db' | err e ↦ err e ]

-- Where two writes commit, each of them did.
pub ok-of_both :
    (first second : Write) (db db' : Db)
    → (first >>> second) db ≡ ok (tt, db')
    → (mid : Db) × (first db ≡ ok (tt, mid)) × (second mid ≡ ok (tt, db'))
ok-of_both first second db db' e = elim (Result-cases (first db)) [
  | inl ((u, mid), h) ↦ (mid, ground arith, ground arith)
  | inr (x, h) ↦ ground arith
]

abbrev pub write_if : Bool → Write → Write
write_if true w db = w db
write_if false w db = ok (tt, db)

abbrev pub same_role_key : SaRole → SaRole → Bool
same_role_key a b =
    a.id == b.id || a.public_id === b.public_id || (a.app_id == b.app_id && a.name === b.name)

unfoldable pub insert_role : SaRole → Write
insert_role row db =
    if any (same_role_key row) db.roles
    then err (prisma_error p2002)
    else ok (tt, record db { roles = row ∷ db.roles; next_role_id = suc db.next_role_id })

-- `saRole.update({ where: { id }, data })`
unfoldable pub update_role_row : ℕ → (SaRole → SaRole) → Write
update_role_row i change db = elim (find? (λ r. r.id == i) db.roles) [
  | none ↦ err (prisma_error p2025)
  | some row ↦
      if any (λ r. not (r.id == i) && same_role_key (change row) r) db.roles
      then err (prisma_error p2002)
      else ok (tt, record db { roles = update_where (λ r. r.id == i) change db.roles })
]

-- `saRole.delete`: SaApp.defaultRole restricts, the join tables cascade.
unfoldable pub delete_role_row : ℕ → Write
delete_role_row i db =
    if any (λ a. is_number a.default_role_id i) db.apps
    then err (prisma_error p2003)
    else ok (
      tt,
      record db {
        roles = delete_where (λ r. r.id == i) db.roles;
        role_permissions = delete_where (λ rp. rp.role_id == i) db.role_permissions;
        user_roles = delete_where (λ ur. ur.role_id == i) db.user_roles;
      },
    )

unfoldable pub delete_role_permissions : ℕ → Write
delete_role_permissions i db =
    ok (
      tt,
      record db { role_permissions = delete_where (λ rp. rp.role_id == i) db.role_permissions },
    )

-- `saRolePermission.createMany`: a pair that is already there throws.
unfoldable pub insert_role_permissions : ℕ → List ℕ → Write
insert_role_permissions i [] db = ok (tt, db)
insert_role_permissions i (p ∷ ps) db =
    let rest = insert_role_permissions i ps (record db {
      role_permissions = record { role_id = i; permission_id = p } ∷ db.role_permissions;
    }) in
    if any (λ rp. rp.role_id == i && rp.permission_id == p) db.role_permissions
    then err (prisma_error p2002)
    else rest

unfoldable pub insert_permission : SaPermission → Write
insert_permission row db =
    if any (λ p. p.id == row.id || p.public_id === row.public_id || p.name === row.name)
      db.permissions
    then err (prisma_error p2002)
    else ok (
      tt,
      record db {
        permissions = row ∷ db.permissions;
        next_permission_id = suc db.next_permission_id;
      },
    )

unfoldable pub update_permission_row : ℕ → (SaPermission → SaPermission) → Write
update_permission_row i change db = elim (find? (λ p. p.id == i) db.permissions) [
  | none ↦ err (prisma_error p2025)
  | some row ↦
      let new = change row in
      if any (λ p. not (p.id == i) && (p.public_id === new.public_id || p.name === new.name))
        db.permissions
      then err (prisma_error p2002)
      else ok (tt, record db { permissions = update_where (λ p. p.id == i) change db.permissions })
]

-- `saPermission.delete`: both join tables cascade, so no foreign key can refuse it.
unfoldable pub delete_permission_row : ℕ → Write
delete_permission_row i db = ok (
  tt,
  record db {
    permissions = delete_where (λ p. p.id == i) db.permissions;
    role_permissions = delete_where (λ rp. rp.permission_id == i) db.role_permissions;
    user_permissions = delete_where (λ up. up.permission_id == i) db.user_permissions;
  },
)

unfoldable pub insert_org : SaOrg → Write
insert_org row db =
    if any
      (λ o.
        o.id == row.id
        || o.public_id === row.public_id
        || (o.app_id == row.app_id && o.name === row.name))
      db.orgs
    then err (prisma_error p2002)
    else ok (tt, record db { orgs = row ∷ db.orgs; next_org_id = suc db.next_org_id })

unfoldable pub update_org_row : ℕ → (SaOrg → SaOrg) → Write
update_org_row i change db = elim (find? (λ o. o.id == i) db.orgs) [
  | none ↦ err (prisma_error p2025)
  | some row ↦
      let new = change row in
      if any
        (λ o.
          not (o.id == i)
          && (o.public_id === new.public_id || (o.app_id == new.app_id && o.name === new.name)))
        db.orgs
      then err (prisma_error p2002)
      else ok (tt, record db { orgs = update_where (λ o. o.id == i) change db.orgs })
]

-- `saOrg.delete`: SaUser.org and SaApp.defaultOrg restrict.
unfoldable pub delete_org_row : ℕ → Write
delete_org_row i db =
    if any (λ u. u.org_id == i) db.users || any (λ a. is_number a.default_org_id i) db.apps
    then err (prisma_error p2003)
    else ok (tt, record db { orgs = delete_where (λ o. o.id == i) db.orgs })

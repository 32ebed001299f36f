-- ===== src/Registration/Rows.antt =====
-- The rows that a registration writes, in one transaction: an organisation where the app has no
-- default, the user, its role and its acceptances.
use sassy_auth.Common.{
  ℕ, zero, suc, String, Bool, false, not, ◌&&◌, ◌||◌, Option, none, some, List, ◌∷◌, ◌==◌, ◌===◌,
  if◌then◌else◌, any, delete_where, get_or, Result, ok, err, prisma_error, p2002, p2003, p2025,
}
use sassy_auth.Consent.{RequiredConsentDocument, record_consent}
use sassy_auth.Db.{SaApp, SaOrg, SaUser, UserStatus, Db}
use sassy_auth.Queries.{Externals}
use sassy_auth.Queries.Tables.{Write, ◌>>>◌, insert_org, update_org_row}

-- `SaUser` has three unique columns here; `betterAuthUserId` references the table `user`.
unfoldable pub insert_user : SaUser → Write
insert_user row db =
    if any
      (λ u.
        u.id == row.id
        || u.public_id === row.public_id
        || u.better_auth_user_id === row.better_auth_user_id)
      db.users
    then err (prisma_error p2002)
    else if not (any (λ b. b.id === row.better_auth_user_id) db.ba_users)
    then err (prisma_error p2003)
    else ok (tt, record db { users = row ∷ db.users; next_user_id = suc db.next_user_id })

-- `saUserRole.create`: the user and the role are the primary key.
unfoldable pub insert_user_role : ℕ → ℕ → Write
insert_user_role user_id role_id db =
    if any (λ r. r.user_id == user_id && r.role_id == role_id) db.user_roles
    then err (prisma_error p2002)
    else ok (
      tt,
      record db { user_roles = record { user_id = user_id; role_id = role_id } ∷ db.user_roles },
    )

-- `if (app.defaultRoleId) await tx.saUserRole.create(…)`
unfoldable pub assign_default_role : Option ℕ → ℕ → Write
assign_default_role none user_id db = ok (tt, db)
assign_default_role (some role_id) user_id db = insert_user_role user_id role_id db

unfoldable pub record_consents : ℕ → ℕ → List RequiredConsentDocument → Write
record_consents user_id app_id documents db =
    elim (record_consent user_id app_id documents db.consents) [
      | ok (u, rows) ↦ ok (tt, record db { consents = rows })
      | err e ↦ err e
    ]

-- `s.slice(0, n)`; the ids that BetterAuth makes are ASCII.
unfoldable pub first_chars : ℕ → String → String
first_chars zero s = String.[]
first_chars (suc n) String.[] = String.[]
first_chars (suc n) (String.◌∷◌ c s) = String.◌∷◌ c (first_chars n s)

-- The arguments of `finishRegistration` that the transaction reads.
pub record NewUser : Type 0 where
  pub app : SaApp
  pub ba_user_id : String
  pub first_name : String
  pub last_name : String
  pub company_name : Option String
  pub marketing_opt_in : Option Bool
  pub default_org : Option SaOrg
  pub required : List RequiredConsentDocument
  pub status : UserStatus

unfoldable pub user_row : NewUser → ℕ → ℕ → SaUser
unfolding first_chars
user_row args org_id i = record {
  id = i;
  public_id = first_chars 12 args.ba_user_id;
  better_auth_user_id = args.ba_user_id;
  org_id = org_id;
  first_name = args.first_name;
  last_name = args.last_name;
  marketing_opt_in = get_or args.marketing_opt_in false;
  phone_number = none;
  username = none;
  status = args.status;
  last_login_at = none;
}

abbrev pub new_org : SaApp → Option String → String → ℕ → SaOrg
new_org app company public_id i = record {
  id = i;
  public_id = public_id;
  name = get_or company "";
  app_id = app.id;
  is_platform = false;
}

unfoldable pub create_org : Externals → SaApp → Option String → String → Write
create_org ext app company pending db =
    let i = db.next_org_id in
    (insert_org (new_org app company pending i)
        >>> update_org_row i (λ o. record o { public_id = ext.encode i }))
      db

-- The organisation that the user joins, written first where it is new.
unfoldable pub place :
    Externals → SaApp → Option String → String → Option SaOrg → Db → Result (SaOrg × Db)
place ext app company pending (some org) db = ok (org, db)
place ext app company pending none db = elim (create_org ext app company pending db) [
  | err e ↦ err e
  | ok (u, db') ↦ ok (new_org app company (ext.encode db.next_org_id) db.next_org_id, db')
]

-- The rest of the transaction, for the organisation.
unfoldable pub insert_signup : NewUser → ℕ → Write
insert_signup args org_id db =
    let i = db.next_user_id in
    (insert_user (user_row args org_id i)
        >>> assign_default_role args.app.default_role_id i
        >>> record_consents i args.app.id args.required)
      db

-- What the transaction answers.
pub record Placed : Type 0 where
  pub org : SaOrg
  pub sa_user_id : ℕ
  pub sa_user_public_id : String

unfoldable pub signup_tx : Externals → NewUser → String → Db → Result (Placed × Db)
unfolding first_chars
signup_tx ext args pending db =
    elim (place ext args.app args.company_name pending args.default_org db) [
      | err e ↦ err e
      | ok (org, mid) ↦ elim (insert_signup args org.id mid) [
        | err e ↦ err e
        | ok (u, db') ↦ ok (
          record {
            org = org;
            sa_user_id = mid.next_user_id;
            sa_user_public_id = first_chars 12 args.ba_user_id;
          },
          db',
        )
      ]
    ]

-- `prisma.user.delete`: SaUser.betterAuthUser restricts, the tables of BetterAuth cascade.
unfoldable pub delete_ba_user : String → Write
delete_ba_user i db =
    if not (any (λ b. b.id === i) db.ba_users)
    then err (prisma_error p2025)
    else if any (λ u. u.better_auth_user_id === i) db.users
    then err (prisma_error p2003)
    else ok (
      tt,
      record db {
        ba_users = delete_where (λ b. b.id === i) db.ba_users;
        accounts = delete_where (λ a. a.user_id === i) db.accounts;
        sessions = delete_where (λ s. s.user_id === i) db.sessions;
        two_factors = delete_where (λ t. t.user_id === i) db.two_factors;
      },
    )

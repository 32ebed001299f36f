-- ===== src/Registration/Transaction.antt =====
-- What the transaction of a registration writes, where it commits.
use sassy_auth.Common.{
  ℕ, suc, String, true, Option, none, some, List, ◌∷◌, ◌≡◌, inl, inr, refl, sym, ap, ◌∙◌, subst,
  arith, ok, Result-cases, any, ◌===◌,
}
use sassy_auth.Consent.{RequiredConsentDocument, SaUserConsent, record_consent}
use sassy_auth.Db.{SaUser, SaUserRole, BaUser, Db}
use sassy_auth.Queries.{Externals}
use sassy_auth.Queries.Tables.{◌>>>◌, ok-of_both}
use sassy_auth.Registration.Rows.{
  NewUser, Placed, user_row, insert_user, insert_user_role, assign_default_role, record_consents,
  place, insert_signup, signup_tx, first_chars,
}
use sassy_auth.Registration.Organisations.{OrgPlaced, OrgsAfter, SameRest, place_lem, orgs_after}

abbrev pub with_default_role : Option ℕ → ℕ → List SaUserRole → List SaUserRole
with_default_role none user_id rows = rows
with_default_role (some role_id) user_id rows =
    record { user_id = user_id; role_id = role_id } ∷ rows

pub record IsSignedUp (ext : Externals) (args : NewUser) (db : Db) (placed : Placed) (db' : Db)
    : Type 0 where
  pub org : OrgPlaced ext args.app args.company_name db args.default_org placed.org
  pub orgs : OrgsAfter db args.default_org placed.org db'
  pub user_id : placed.sa_user_public_id ≡ first_chars 12 args.ba_user_id
  pub users : db'.users ≡ user_row args placed.org.id db.next_user_id ∷ db.users
  pub roles :
      db'.user_roles ≡ with_default_role args.app.default_role_id db.next_user_id db.user_roles
  pub consents :
      record_consent db.next_user_id args.app.id args.required db.consents ≡ ok (tt, db'.consents)
  pub account : any (λ (b : BaUser). b.id === args.ba_user_id) db'.ba_users ≡ true

insert_user-eq-ok :
    (row : SaUser) (db db' : Db)
    → insert_user row db ≡ ok (tt, db')
    → (record db { users = row ∷ db.users; next_user_id = suc db.next_user_id } ≡ db')
      × (any (λ (b : BaUser). b.id === row.better_auth_user_id) db.ba_users ≡ true)
unfolding insert_user
insert_user-eq-ok row db db' h = ground arith

assign_default_role-eq-ok :
    (role : Option ℕ) (i : ℕ) (db db' : Db)
    → assign_default_role role i db ≡ ok (tt, db')
    → record db { user_roles = with_default_role role i db.user_roles } ≡ db'
unfolding assign_default_role insert_user_role
assign_default_role-eq-ok none i db db' h = ground arith
assign_default_role-eq-ok (some r) i db db' h = ground arith

record_consents-eq-ok :
    (user app : ℕ) (ds : List RequiredConsentDocument) (db db' : Db)
    → record_consents user app ds db ≡ ok (tt, db')
    → (record_consent user app ds db.consents ≡ ok (tt, db'.consents))
      × (record db { consents = db'.consents } ≡ db')
unfolding record_consents
record_consents-eq-ok user app ds db db' h =
    elim (Result-cases (record_consent user app ds db.consents)) [
      | inl ((u, rows), done) ↦ ground arith
      | inr (e, failed) ↦ ground arith
    ]

-- The rows beside the organisation, in terms of the tables before.
abbrev RowsWritten : NewUser → ℕ → ℕ → Db → Db → Type 0
RowsWritten args org_id i db db' =
    (db'.users ≡ user_row args org_id i ∷ db.users)
    × (db'.user_roles ≡ with_default_role args.app.default_role_id i db.user_roles)
    × (record_consent i args.app.id args.required db.consents ≡ ok (tt, db'.consents))
    × (any (λ (b : BaUser). b.id === args.ba_user_id) db'.ba_users ≡ true)

insert_signup_lem :
    (args : NewUser) (org_id : ℕ) (db db' : Db)
    → insert_signup args org_id db ≡ ok (tt, db')
    → RowsWritten args org_id db.next_user_id db db' × (db'.orgs ≡ db.orgs)
unfolding insert_signup user_row
insert_signup_lem args org_id db db' h =
    let i = db.next_user_id in
    let (b, front, last) =
      ok-of_both
        (insert_user (user_row args org_id i) >>> assign_default_role args.app.default_role_id i)
        (record_consents i args.app.id args.required) db db' h in
    let (a, first, second) =
      ok-of_both (insert_user (user_row args org_id i))
        (assign_default_role args.app.default_role_id i) db b front in
    let (user, account) = insert_user-eq-ok (user_row args org_id i) db a first in
    let role = assign_default_role-eq-ok args.app.default_role_id i a b second in
    let (accepted, rows) = record_consents-eq-ok i args.app.id args.required b db' last in
    let consents_kept : db.consents ≡ b.consents =
      ap (λ (d : Db). d.consents) user ∙ ap (λ (d : Db). d.consents) role in
    let users_kept : user_row args org_id i ∷ db.users ≡ db'.users =
      ap (λ (d : Db). d.users) user
      ∙ ap (λ (d : Db). d.users) role
      ∙ ap (λ (d : Db). d.users) rows in
    let roles_kept : with_default_role args.app.default_role_id i a.user_roles ≡ db'.user_roles =
      ap (λ (d : Db). d.user_roles) role ∙ ap (λ (d : Db). d.user_roles) rows in
    let roles_before : db.user_roles ≡ a.user_roles = ap (λ (d : Db). d.user_roles) user in
    let accounts_kept : db.ba_users ≡ db'.ba_users =
      ap (λ (d : Db). d.ba_users) user
      ∙ ap (λ (d : Db). d.ba_users) role
      ∙ ap (λ (d : Db). d.ba_users) rows in
    let orgs_kept : db.orgs ≡ db'.orgs =
      ap (λ (d : Db). d.orgs) user ∙ ap (λ (d : Db). d.orgs) role ∙ ap (λ (d : Db). d.orgs) rows in
    (
      (
        sym users_kept,
        sym (
            subst
              (λ (rs : List SaUserRole).
                with_default_role args.app.default_role_id i rs ≡ db'.user_roles)
              (sym roles_before) roles_kept),
        subst
            (λ (cs : List SaUserConsent).
              record_consent i args.app.id args.required cs ≡ ok (tt, db'.consents))
            (sym consents_kept) accepted,
        subst (λ (bs : List BaUser). any (λ (b : BaUser). b.id === args.ba_user_id) bs ≡ true)
            accounts_kept account,
      ),
      sym orgs_kept,
    )

rows_from :
    (args : NewUser) (org_id : ℕ) (db mid db' : Db)
    → SameRest db mid
    → RowsWritten args org_id mid.next_user_id mid db'
    → RowsWritten args org_id db.next_user_id db db'
rows_from args org_id db mid db' (users, roles, consents, accounts, next) (u, r, c, b) = (
  subst (λ i. db'.users ≡ user_row args org_id i ∷ db.users) next
      (subst (λ (us : List SaUser). db'.users ≡ user_row args org_id mid.next_user_id ∷ us) users
        u),
  subst (λ i. db'.user_roles ≡ with_default_role args.app.default_role_id i db.user_roles) next
      (subst
        (λ (rs : List SaUserRole).
          db'.user_roles ≡ with_default_role args.app.default_role_id mid.next_user_id rs)
        roles r),
  subst (λ i. record_consent i args.app.id args.required db.consents ≡ ok (tt, db'.consents)) next
      (subst
        (λ (cs : List SaUserConsent).
          record_consent mid.next_user_id args.app.id args.required cs ≡ ok (tt, db'.consents))
        consents c),
  b,
)

pub signup_tx-IsSignedUp :
    (ext : Externals) (args : NewUser) (pending : String) (db db' : Db) (placed : Placed)
    → signup_tx ext args pending db ≡ ok (placed, db')
    → IsSignedUp ext args db placed db'
unfolding signup_tx
signup_tx-IsSignedUp ext args pending db db' placed h =
    elim (Result-cases (place ext args.app args.company_name pending args.default_org db)) [
      | inr (e, failed) ↦ ground arith
      | inl ((org, mid), done) ↦ elim (Result-cases (insert_signup args org.id mid)) [
        | inr (e, failed) ↦ ground arith
        | inl ((u, end), written) ↦
            let (where_to, rest, orgs) =
              place_lem ext args.app args.company_name pending args.default_org db mid org done in
            let same : end ≡ db' = ground arith in
            let answer : Placed = record {
              org = org;
              sa_user_id = mid.next_user_id;
              sa_user_public_id = first_chars 12 args.ba_user_id;
            } in
            let answered : answer ≡ placed = ground arith in
            let (rows, kept) = insert_signup_lem args org.id mid end written in
            let (users, roles, consents, account) = rows_from args org.id db mid end rest rows in
            subst (λ p. IsSignedUp ext args db p db') answered
              (subst (IsSignedUp ext args db answer) same (record {
                org = where_to;
                orgs = orgs_after db mid end args.default_org org kept orgs;
                user_id = refl;
                users = users;
                roles = roles;
                consents = consents;
                account = account;
              }))
      ]
    ]

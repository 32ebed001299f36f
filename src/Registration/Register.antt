-- ===== src/Registration/Register.antt =====
-- The whole of `register`: which user a request that is answered has created, and in whose tenant.
use sassy_auth.Common.{
  ℕ, ◌⊎◌, get_or, refl, String, Bool, true, false, Option, none, some, List, ◌∷◌, ◌≡◌, inl, inr,
  sym, ap, ◌∙◌, subst, arith, ok, Result, Result-cases, Bool-cases, any, >>=-eq-ok, ◌===◌, ◌==◌,
  ==_iff, find?_sound,
}
use sassy_auth.Consent.{SaUserConsent, record_consent}
use sassy_auth.Db.{SaApp, SaOrg, SaUser, SaUserRole, BaUser, unverified, Db}
use sassy_auth.Queries.{Externals, find_app, find_org_by_id}
use sassy_auth.Queries.Keys.{distinct, same_row}
use sassy_auth.World.{World, on_db}
use sassy_auth.Apps.Valid.{OrgOf}
use sassy_auth.Apps.Invariant.{IsConsistent}
use sassy_auth.Registration.Requests.{SignupDto, SignupCheck, Surroundings, check_signup}
use sassy_auth.Registration.Rows.{NewUser, Placed, user_row}
use sassy_auth.Registration.Checks.{IsAdmitted, PlacedBy, check_signup-IsAdmitted}
use sassy_auth.Registration.Transaction.{IsSignedUp, with_default_role}
use sassy_auth.Registration.Organisations.{OrgPlaced, OrgsAfter}
use sassy_auth.Registration.Outcome.{finish_registration-IsSignedUp}
use sassy_auth.Registration.{
  Services, Draws, SignupResponse, finish_registration, sign_up, register, register_checked,
  new_user,
}

-- What BetterAuth leaves alone: it writes its own tables.
pub record OwnTables (db db' : Db) : Type 0 where
  pub users : db'.users ≡ db.users
  pub roles : db'.user_roles ≡ db.user_roles
  pub consents : db'.consents ≡ db.consents
  pub next_user : db'.next_user_id ≡ db.next_user_id
  pub orgs : db'.orgs ≡ db.orgs
  pub next_org : db'.next_org_id ≡ db.next_org_id

module _ (sv : Services) (ext : Externals) where
  sign_up-eq-ok :
      (email password name : String) (db db' : Db) (i : String)
      → sign_up sv ext email password name db ≡ (ok i, db')
      → sv.sign_up_email email password name db ≡ (ok i, db')
  unfolding sign_up
  sign_up-eq-ok email password name db db' i h =
      elim (Result-cases (sv.sign_up_email email password name db).0) [
        | inr (e, failed) ↦ ground arith
        | inl (j, done) ↦
            elim (Bool-cases (
              any (λ (b : BaUser). b.id === j)
                (sv.sign_up_email email password name db).1.ba_users)) [
                  | inl there ↦ ground arith
                  | inr synthetic ↦ ground arith
                ]
      ]

  -- The row of a new user.
  pub record IsNewUser (dto : SignupDto) (db : Db) (ba_user_id : String) (org : SaOrg)
      (user : SaUser) : Type 0 where
    pub id : user.id ≡ db.next_user_id
    pub identity : user.better_auth_user_id ≡ ba_user_id
    pub member : user.org_id ≡ org.id
    pub status : user.status ≡ unverified
    pub first_name : user.first_name ≡ dto.first_name
    pub last_name : user.last_name ≡ dto.last_name

  -- The organisation is the app's default, a row that was there, or a new row for the company.
  abbrev pub Joins : SignupDto → Db → SaApp → SaOrg → Db → Type 0
  Joins dto db app org db' =
      ((i : ℕ) × (app.default_org_id ≡ some i)
        × (find_org_by_id i db ≡ some org)
        × (db'.orgs ≡ db.orgs))
      ⊎ ((app.default_org_id ≡ none)
          × (org.id ≡ db.next_org_id)
          × (org.name ≡ get_or dto.company_name "")
          × (db'.orgs ≡ org ∷ db.orgs))

  joins_lem :
      (env : Surroundings) (dto : SignupDto) (db mid db' : Db) (app : SaApp)
      (default : Option SaOrg) (org : SaOrg)
      → OwnTables db mid
      → PlacedBy env.trim db app dto.company_name default
      → OrgPlaced ext app dto.company_name mid default org
      → OrgsAfter mid default org db'
      → Joins dto db app org db'
  joins_lem env dto db mid db' app none org own by placed orgs =
      let same = own.orgs in
      let next = own.next_org in
      inr (
        by.0,
        ap (λ (o : SaOrg). o.id) placed ∙ next,
        ap (λ (o : SaOrg). o.name) placed,
        orgs ∙ ap (λ (os : List SaOrg). org ∷ os) same,
      )
  joins_lem env dto db mid db' app (some o) org own (i, set, found) placed orgs =
      inl (i, set, found ∙ ap some (sym placed), orgs ∙ own.orgs)

  user_row-IsNewUser :
      (dto : SignupDto) (c : SignupCheck) (db : Db) (i : String) (org : SaOrg)
      → IsNewUser dto db i org
          (user_row (new_user sv ext dto c i unverified none) org.id db.next_user_id)
  unfolding user_row
  user_row-IsNewUser dto c db i org = record {
    id = refl;
    identity = refl;
    member = refl;
    status = refl;
    first_name = refl;
    last_name = refl;
  }

  -- What holds of a registration that is answered.
  pub record IsRegistered (env : Surroundings) (dto : SignupDto) (w w' : World) (r : SignupResponse)
      : Type 0 where
    pub checked : SignupCheck
    pub ba_user_id : String
    pub placed : Placed
    pub admitted : IsAdmitted env dto w.db checked
    pub user : SaUser
    pub users : w'.db.users ≡ user ∷ w.db.users
    pub is_new : IsNewUser dto w.db ba_user_id placed.org user
    pub roles :
        w'.db.user_roles
        ≡ with_default_role checked.app.default_role_id w.db.next_user_id w.db.user_roles
    pub consents :
        record_consent w.db.next_user_id checked.app.id checked.required w.db.consents
        ≡ ok (tt, w'.db.consents)
    pub account : any (λ (b : BaUser). b.id === ba_user_id) w'.db.ba_users ≡ true
    pub joins : Joins dto w.db checked.app placed.org w'.db
    pub tenant : placed.org.app_id ≡ checked.app.id
    pub answer : r.org_public_id ≡ placed.org.public_id

  -- The organisation of a new user is one of the app.
  tenant_of :
      (env : Surroundings) (db d : Db) (app : SaApp) (company : Option String)
      (default : Option SaOrg) (org : SaOrg)
      → distinct (λ o. o.id) db.orgs ≡ true
      → OrgOf db.orgs app.id app.default_org_id
      → PlacedBy env.trim db app company default
      → OrgPlaced ext app company d default org
      → org.app_id ≡ app.id
  unfolding find_org_by_id
  tenant_of env db d app company none org keys own by placed = ap (λ (o : SaOrg). o.app_id) placed
  tenant_of env db d app company (some o) org keys own (i, set, found) placed =
      let (p, m, id, of_app) = subst (OrgOf db.orgs app.id) set own in
      let (k, q) = find?_sound (λ o. o.id == i) db.orgs found in
      let same : o ≡ p = same_row (λ o. o.id) db.orgs p o keys m k ((==_iff o.id i).0 q ∙ sym id) in
      ap (λ (o : SaOrg). o.app_id) (placed ∙ same) ∙ of_app

  -- The rows that were written, in terms of the tables before the account was made.
  rows_before :
      (args : NewUser) (db mid db' : Db) (placed : Placed)
      → OwnTables db mid
      → IsSignedUp ext args mid placed db'
      → (db'.users ≡ user_row args placed.org.id db.next_user_id ∷ db.users)
        × (db'.user_roles
            ≡ with_default_role args.app.default_role_id db.next_user_id db.user_roles)
        × (record_consent db.next_user_id args.app.id args.required db.consents
            ≡ ok (tt, db'.consents))
  rows_before args db mid db' placed own signed = (
    subst (λ i. db'.users ≡ user_row args placed.org.id i ∷ db.users) own.next_user
        (subst (λ (us : List SaUser). db'.users ≡ user_row args placed.org.id mid.next_user_id ∷ us)
          own.users signed.users),
    subst (λ i. db'.user_roles ≡ with_default_role args.app.default_role_id i db.user_roles)
        own.next_user
        (subst
          (λ (rs : List SaUserRole).
            db'.user_roles ≡ with_default_role args.app.default_role_id mid.next_user_id rs)
          own.roles signed.roles),
    subst (λ i. record_consent i args.app.id args.required db.consents ≡ ok (tt, db'.consents))
        own.next_user
        (subst
          (λ (cs : List SaUserConsent).
            record_consent mid.next_user_id args.app.id args.required cs ≡ ok (tt, db'.consents))
          own.consents signed.consents),
  )

  module _ (env : Surroundings) (dto : SignupDto) (name : String) (draws : Draws) (w : World)
      (consistent : IsConsistent sv.parse_url w.db.orgs w.db.roles w.db)
      (keys : distinct (λ o. o.id) w.db.orgs ≡ true)
      (own : OwnTables w.db (sv.sign_up_email dto.email dto.password name w.db).1) where
    passed :
        (c : SignupCheck) (w' : World) (r : SignupResponse)
        → IsAdmitted env dto w.db c
        → register_checked sv ext dto name draws c w ≡ (ok r, w')
        → IsRegistered env dto w w' r
    unfolding register_checked find_app
    passed c w' r admitted h =
        let (i, s, made, rest) =
          >>=-eq-ok (on_db (sign_up sv ext dto.email dto.password name))
            (λ i.
              finish_registration sv ext (new_user sv ext dto c i unverified none) dto.next true
                dto.email draws)
            w w' r h in
        let (placed, signed, answer) =
          finish_registration-IsSignedUp sv ext (new_user sv ext dto c i unverified none) dto.next
            dto.email draws true s w' r rest in
        let created : sign_up sv ext dto.email dto.password name w.db ≡ (ok i, s.db) =
          ap (λ (x : Result String × World). (x.0, x.1.db)) made in
        let answered = sign_up-eq-ok dto.email dto.password name w.db s.db i created in
        let kept : OwnTables w.db s.db =
          subst (OwnTables w.db) (ap (λ (x : Result String × Db). x.1) answered) own in
        let (users, roles, consents) =
          rows_before (new_user sv ext dto c i unverified none) w.db s.db w'.db placed kept
            signed in
        let app =
          consistent.each c.app
            (find?_sound (λ a. a.public_id === dto.app_public_id) w.db.apps admitted.found).0 in
        record {
          checked = c;
          ba_user_id = i;
          placed = placed;
          admitted = admitted;
          user = user_row (new_user sv ext dto c i unverified none) placed.org.id w.db.next_user_id;
          users = users;
          is_new = user_row-IsNewUser dto c w.db i placed.org;
          roles = roles;
          consents = consents;
          account = signed.account;
          joins =
              joins_lem env dto w.db s.db w'.db c.app c.default_org placed.org kept admitted.placed
                signed.org signed.orgs;
          tenant =
              tenant_of env w.db s.db c.app dto.company_name c.default_org placed.org keys
                app.default_org admitted.placed signed.org;
          answer = answer;
        }

    -- A registration that is answered passed the checks of the app that it names (its password
    -- policy, and every document that it requires accepted), and it created exactly one user:
    -- unverified, with the names of the request, an account that is there, and in the organisation
    -- of the answer. That is the app's default organisation, or where the app has none the one
    -- organisation that was added, with the company's name; it belongs to that app. The user has the
    -- app's default role and an acceptance of each required document. BetterAuth's call writes its own tables only, the ids of organisations are distinct,
    -- and the table of apps is consistent.
    pub register_sound :
        (captcha : Bool) (w' : World) (r : SignupResponse)
        → register sv ext env dto name captcha draws w ≡ (ok r, w')
        → IsRegistered env dto w w' r
    unfolding register
    register_sound false w' r h = ground arith
    register_sound true w' r h =
        let (c, s, checked, rest) =
          >>=-eq-ok (on_db (check_signup env dto)) (register_checked sv ext dto name draws) w w' r
            h in
        let at_db : check_signup env dto w.db ≡ (ok c, s.db) =
          ap (λ (x : Result SignupCheck × World). (x.0, x.1.db)) checked in
        let (same, admitted) = check_signup-IsAdmitted env dto w.db s.db c at_db in
        let unchanged : w.db ≡ (check_signup env dto w.db).1 =
          same ∙ sym (ap (λ (x : Result SignupCheck × Db). x.1) at_db) in
        let world : w ≡ s =
          ap (λ (d : Db). record w { db = d }) unchanged
          ∙ ap (λ (x : Result SignupCheck × World). x.1) checked in
        passed c w' r admitted
          (subst (λ v. register_checked sv ext dto name draws c v ≡ (ok r, w')) (sym world) rest)

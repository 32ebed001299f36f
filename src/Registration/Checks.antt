-- ===== src/Registration/Checks.antt =====
-- What a signup has passed when it goes on: the checks change nothing.
use sassy_auth.Common.{
  ℕ, String, true, false, Option, none, some, List, [], ◌∷◌, Memᴰ, ⊤, ◌≡◌, inl, inr, refl, sym, ap,
  ◌∙◌, subst, arith, ok, err, Result, Option-cases, Bool-cases, Action, ◌>>=◌, ◌>>◌, pure,
  >>=-eq-ok,
}
use mathlib.Core.List.Memᴰ
use sassy_auth.Consent.{RequiredConsentDocument, resolve_required_consent}
use sassy_auth.PasswordPolicy.{resolve_password_policy, validate_password_or_throw}
use sassy_auth.Db.{SaApp, SaOrg, Db}
use sassy_auth.Queries.{find_app, find_org_by_id}
use sassy_auth.Registration.Requests.{
  SignupDto, SignupCheck, Surroundings, accepted_of, check_consents, resolve_default_org, check_app,
  check_signup, check, is_blank,
}

-- Where a new user goes: the app's default organisation, or a new one with a name.
abbrev pub PlacedBy : (String → String) → Db → SaApp → Option String → Option SaOrg → Type 0
PlacedBy trim db app company none = (app.default_org_id ≡ none) × (is_blank trim company ≡ false)
PlacedBy trim db app company (some org) =
    (i : ℕ) × (app.default_org_id ≡ some i) × (find_org_by_id i db ≡ some org)

pub record IsAdmitted (env : Surroundings) (dto : SignupDto) (db : Db) (c : SignupCheck)
    : Type 0 where
  pub found : find_app dto.app_public_id db ≡ some c.app
  pub password :
      validate_password_or_throw dto.password
        (resolve_password_policy env.default_policy c.app.password_policy_override)
      ≡ ok tt
  pub required :
      c.required ≡ resolve_required_consent env.is_gdpr_country c.app.consent_urls env.country
  pub accepted :
      (d : RequiredConsentDocument)
      → Memᴰ d c.required
      → accepted_of dto d.document_type ≡ some true
  pub placed : PlacedBy env.trim db c.app dto.company_name c.default_org

check_consents_lem :
    (dto : SignupDto) (ds : List RequiredConsentDocument)
    → check_consents dto ds ≡ ok tt
    → (d : RequiredConsentDocument) → Memᴰ d ds
    → accepted_of dto d.document_type ≡ some true
unfolding check_consents
check_consents_lem dto [] h d m = elim m [ ]
check_consents_lem dto (x ∷ xs) h d m = elim (Option-cases (accepted_of dto x.document_type)) [
  | inl missing ↦ ground arith
  | inr (b, given) ↦ elim (Bool-cases b) [
    | inr refused ↦ ground arith
    | inl accepted ↦ elim (Memᴰ.cases_cons m) [
      | inl e ↦
          subst (λ (y : RequiredConsentDocument). accepted_of dto y.document_type ≡ some true)
            (sym e) (given ∙ ap some accepted)
      | inr k ↦ check_consents_lem dto xs (ground arith) d k
    ]
  ]
]

resolve_default_org_lem :
    (trim : String → String) (app : SaApp) (company : Option String) (db db' : Db)
    (o : Option SaOrg)
    → resolve_default_org trim app company db ≡ (ok o, db')
    → (db ≡ db') × PlacedBy trim db app company o
unfolding resolve_default_org
resolve_default_org_lem trim app company db db' o h = elim (Option-cases app.default_org_id) [
  | inr (i, set) ↦ elim (Option-cases (find_org_by_id i db)) [
    | inl missing ↦ ground arith
    | inr (org, found) ↦
        let e : some org ≡ o = ground arith in
        (ground arith, subst (PlacedBy trim db app company) e (i, set, found))
  ]
  | inl unset ↦ elim (Bool-cases (is_blank trim company)) [
    | inl blank ↦ ground arith
    | inr named ↦
        let e : none ≡ o = ground arith in
        (ground arith, subst (PlacedBy trim db app company) e (unset, named))
  ]
]

two_checks :
    {A : Type 0} (a b : Result ⊤) (m : Action Db A) (db db' : Db) (x : A)
    → (do check a; check b; m) db ≡ (ok x, db')
    → (a ≡ ok tt) × (b ≡ ok tt) × (m db ≡ (ok x, db'))
two_checks (err e) b m db db' x h = ground arith
two_checks (ok u) (err e) m db db' x h = ground arith
two_checks (ok u) (ok v) m db db' x h = (refl, refl, h)

admitted :
    (env : Surroundings) (dto : SignupDto) (app : SaApp) (db db' : Db) (c : SignupCheck)
    → find_app dto.app_public_id db ≡ some app
    → check_app env dto app db ≡ (ok c, db')
    → (db ≡ db') × IsAdmitted env dto db c
unfolding check_app
admitted env dto app db db' c found h =
    let required = resolve_required_consent env.is_gdpr_country app.consent_urls env.country in
    let rest : Action Db SignupCheck = resolve_default_org env.trim app dto.company_name >>= λ o.
    pure (record { app = app; required = required; default_org = o }) in
    let (password, accepted, placing) =
      two_checks
        (validate_password_or_throw dto.password
          (resolve_password_policy env.default_policy app.password_policy_override))
        (check_consents dto required) rest db db' c h in
    let (o, mid, placed, answer) =
      >>=-eq-ok (resolve_default_org env.trim app dto.company_name)
        (λ o. pure (record { app = app; required = required; default_org = o })) db db' c placing in
    let (same, by) = resolve_default_org_lem env.trim app dto.company_name db mid o placed in
    let e : record { app = app; required = required; default_org = o } ≡ c = ground arith in
    (
      same ∙ ground arith,
      subst (IsAdmitted env dto db) e (record {
        found = found;
        password = password;
        required = refl;
        accepted = check_consents_lem dto required accepted;
        placed = by;
      }),
    )

-- A signup that goes on was checked against the app that it names.
pub check_signup-IsAdmitted :
    (env : Surroundings) (dto : SignupDto) (db db' : Db) (c : SignupCheck)
    → check_signup env dto db ≡ (ok c, db')
    → (db ≡ db') × IsAdmitted env dto db c
unfolding check_signup
check_signup-IsAdmitted env dto db db' c h = elim (Option-cases (find_app dto.app_public_id db)) [
  | inl missing ↦ ground arith
  | inr (app, found) ↦ admitted env dto app db db' c found (ground arith)
]

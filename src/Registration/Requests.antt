-- ===== src/Registration/Requests.antt =====
-- apps/auth-server/src/registration: the requests, and what they have to satisfy before anything is
-- written.
use sassy_auth.Common.{
  String, Bool, true, false, Option, none, some, List, [], ◌∷◌, ⊤, ◌===◌, if◌then◌else◌, get_or,
  Result, ok, err, Action, ◌>>=◌, ◌>>◌, pure, throw, gets, or_throw, bad_request, not_found, plain,
  with_names,
}
use sassy_auth.Consent.{
  ConsentDocumentType, privacy_policy, terms, gdpr, RequiredConsentDocument,
  resolve_required_consent,
}
use sassy_auth.PasswordPolicy.{PasswordPolicy, resolve_password_policy, validate_password_or_throw}
use sassy_auth.Db.{SaApp, SaOrg, Db}
use sassy_auth.Queries.{find_app, find_org_by_id}

-- The fields that RegisterDto and CompleteRegistrationDto share.
pub record SignupDto : Type 0 where
  pub email : String
  pub password : String
  pub first_name : String
  pub last_name : String
  pub company_name : Option String
  pub app_public_id : String
  pub accepted_privacy_policy : Option Bool
  pub accepted_terms : Option Bool
  pub accepted_gdpr : Option Bool
  pub next : Option String

-- What the checks read besides the tables: the environment's policy, the GDPR countries, the country
-- of the caller's address, and `trim`.
pub record Surroundings : Type 0 where
  pub default_policy : PasswordPolicy
  pub is_gdpr_country : String → Bool
  pub country : Option String
  pub trim : String → String

abbrev pub accepted_of : SignupDto → ConsentDocumentType → Option Bool
accepted_of dto privacy_policy = dto.accepted_privacy_policy
accepted_of dto terms = dto.accepted_terms
accepted_of dto gdpr = dto.accepted_gdpr

abbrev field_of : ConsentDocumentType → String
field_of privacy_policy = "privacyPolicy"
field_of terms = "terms"
field_of gdpr = "gdpr"

-- The loop over the required documents: `if (accepted !== true) throw …`
unfoldable pub check_consents : SignupDto → List RequiredConsentDocument → Result ⊤
check_consents dto [] = ok tt
check_consents dto (d ∷ ds) =
    let rest = check_consents dto ds in
    if get_or (accepted_of dto d.document_type) false
    then rest
    else err (
        bad_request
          (with_names "You must accept the % before signing up" (field_of d.document_type ∷ [])))

-- `!dto.companyName?.trim()`
abbrev pub is_blank : (String → String) → Option String → Bool
is_blank trim none = true
is_blank trim (some s) = trim s === ""

-- The organisation that an app's new users join; without one, a company has to be named.
unfoldable pub resolve_default_org :
    (String → String) → SaApp → Option String → Action Db (Option SaOrg)
resolve_default_org trim app company = elim app.default_org_id [
  | some i ↦ do
    org ← or_throw (← gets (find_org_by_id i)) (not_found (plain "Default org not found"))
    pure (some org)
  | none ↦
      if is_blank trim company
      then throw (bad_request (plain "companyName is required"))
      else pure none
]

-- What the checks answer: the app, the documents to accept, and the organisation to join.
pub record SignupCheck : Type 0 where
  pub app : SaApp
  pub required : List RequiredConsentDocument
  pub default_org : Option SaOrg

abbrev pub check : Result ⊤ → Action Db ⊤
check r db = (r, db)

-- The checks of `register` and `completeRegistration` before an account is touched.
unfoldable pub check_app : Surroundings → SignupDto → SaApp → Action Db SignupCheck
check_app env dto app = do
  check (
      validate_password_or_throw dto.password
        (resolve_password_policy env.default_policy app.password_policy_override))
  let required = resolve_required_consent env.is_gdpr_country app.consent_urls env.country
  check (check_consents dto required)
  default_org ← resolve_default_org env.trim app dto.company_name
  pure (record { app = app; required = required; default_org = default_org })

unfoldable pub check_signup : Surroundings → SignupDto → Action Db SignupCheck
check_signup env dto = do
  app ← or_throw (← gets (find_app dto.app_public_id)) (not_found (plain "App not found"))
  check_app env dto app

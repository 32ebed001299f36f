-- ===== src/Consent.antt =====
-- apps/auth-server/src/consent: which documents an app wants accepted, which of them a user has
-- not accepted yet, and the rows that an acceptance writes.
pub mod Recording
use sassy_auth.Common.{
  ℕ, String, Bool, true, false, not, ◌&&◌, ◌||◌, Option, none, some, List, [], ◌∷◌, ◌++◌, map, ◌≡◌,
  ◌==◌, if◌then◌else◌, filter, any, is_truthy, Result, ok, err, prisma_error, p2002, ⊤,
}

pub data ConsentDocumentType : Type 0 where
  privacy_policy terms gdpr : ConsentDocumentType

abbrev pub same_type : ConsentDocumentType → ConsentDocumentType → Bool
same_type privacy_policy privacy_policy = true
same_type terms terms = true
same_type gdpr gdpr = true
same_type _ _ = false

pub record ConsentAppUrls : Type 0 where
  pub privacy_policy_url : Option String
  pub terms_url : Option String
  pub gdpr_url : Option String

pub record RequiredConsentDocument : Type 0 where
  pub document_type : ConsentDocumentType
  pub url : String

pub record SaUserConsent : Type 0 where
  pub sa_user_id : ℕ
  pub app_id : ℕ
  pub document_type : ConsentDocumentType
  pub url : String

-- `if (url && applies) required.push({ documentType, url })`
unfoldable pub document : Option String → Bool → ConsentDocumentType → List RequiredConsentDocument
document none applies t = []
document (some url) applies t =
    if is_truthy (some url) && applies then record { document_type = t; url = url } ∷ [] else []

-- `countryCode === null || isGdprCountry(countryCode)`
unfoldable pub gdpr_applies : (String → Bool) → Option String → Bool
gdpr_applies is_gdpr_country none = true
gdpr_applies is_gdpr_country (some code) = is_gdpr_country code

-- `resolveRequiredConsent`: `is_gdpr_country` is the lookup of gdpr-countries.ts.
unfoldable pub resolve_required_consent :
    (String → Bool) → ConsentAppUrls → Option String → List RequiredConsentDocument
resolve_required_consent is_gdpr_country app country =
    document app.privacy_policy_url true privacy_policy
    ++ (document app.terms_url true terms
        ++ document app.gdpr_url (gdpr_applies is_gdpr_country country) gdpr)

-- `acceptedTypes.has(t)`, over the rows of the user and the app
unfoldable pub accepted : ℕ → ℕ → List SaUserConsent → ConsentDocumentType → Bool
accepted user app rows t =
    any (λ c. c.sa_user_id == user && c.app_id == app && same_type c.document_type t) rows

-- `resolveOutstandingConsent`
unfoldable pub resolve_outstanding_consent :
    (String → Bool)
    → ℕ
    → ℕ
    → ConsentAppUrls
    → Option String
    → List SaUserConsent
    → List RequiredConsentDocument
resolve_outstanding_consent is_gdpr_country user app urls country rows =
    filter (λ d. not (accepted user app rows d.document_type))
      (resolve_required_consent is_gdpr_country urls country)

abbrev pub consent_row : ℕ → ℕ → RequiredConsentDocument → SaUserConsent
consent_row user app d = record {
  sa_user_id = user;
  app_id = app;
  document_type = d.document_type;
  url = d.url;
}

-- `recordConsent`: one row for each document, all in one statement; the user, the app and the type
-- are unique together (P2002).
unfoldable pub record_consent :
    ℕ → ℕ → List RequiredConsentDocument → List SaUserConsent → Result (⊤ × List SaUserConsent)
record_consent user app [] rows = ok (tt, rows)
record_consent user app (d ∷ ds) rows =
    let rest = record_consent user app ds (consent_row user app d ∷ rows) in
    if accepted user app rows d.document_type then err (prisma_error p2002) else rest

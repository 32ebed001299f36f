-- ===== src/Consent/Recording.antt =====
-- What is outstanding once it was recorded.
use sassy_auth.Common.{
  ℕ, String, Bool, true, false, not, ◌&&◌, ◌||◌, Option, none, some, List, [], ◌∷◌, ◌≡◌, refl,
  arith, filter, any, all, is_truthy, ◌⊎◌, inl, inr, Bool-cases, ap, ◌∙◌, ok,
}
use sassy_auth.Consent.{
  ConsentDocumentType, privacy_policy, terms, gdpr, same_type, ConsentAppUrls,
  RequiredConsentDocument, SaUserConsent, document, gdpr_applies, resolve_required_consent,
  accepted, resolve_outstanding_consent, consent_row, record_consent,
}

same_type_refl : (t : ConsentDocumentType) → same_type t t ≡ true
same_type_refl privacy_policy = refl
same_type_refl terms = refl
same_type_refl gdpr = refl

same_type_comm : (s t : ConsentDocumentType) → same_type s t ≡ same_type t s
same_type_comm privacy_policy privacy_policy = refl
same_type_comm privacy_policy terms = refl
same_type_comm privacy_policy gdpr = refl
same_type_comm terms privacy_policy = refl
same_type_comm terms terms = refl
same_type_comm terms gdpr = refl
same_type_comm gdpr privacy_policy = refl
same_type_comm gdpr terms = refl
same_type_comm gdpr gdpr = refl

abbrev of_type : ConsentDocumentType → List RequiredConsentDocument → Bool
of_type t ds = any (λ d. same_type d.document_type t) ds

-- No type occurs twice.
abbrev distinct_types : List RequiredConsentDocument → Bool
distinct_types [] = true
distinct_types (d ∷ ds) = not (of_type d.document_type ds) && distinct_types ds

document_cases :
    (url : Option String) (applies : Bool) (t : ConsentDocumentType)
    → (document url applies t ≡ [])
      ⊎ ((u : String) × (document url applies t ≡ record { document_type = t; url = u } ∷ []))
unfolding document
document_cases none applies t = inl refl
document_cases (some u) applies t = elim (Bool-cases (is_truthy (some u) && applies)) [
  | inl listed ↦ inr (u, ground arith)
  | inr left_out ↦ inl (ground arith)
]

required-distinct :
    (is_gdpr_country : String → Bool) (urls : ConsentAppUrls) (country : Option String)
    → distinct_types (resolve_required_consent is_gdpr_country urls country) ≡ true
unfolding resolve_required_consent
required-distinct is_gdpr_country urls country =
    let privacy = document_cases urls.privacy_policy_url true privacy_policy in
    let terms_of_use = document_cases urls.terms_url true terms in
    let data_protection =
      document_cases urls.gdpr_url (gdpr_applies is_gdpr_country country) gdpr in
    ground arith

of_type-filter :
    (keep : RequiredConsentDocument → Bool) (t : ConsentDocumentType)
    (ds : List RequiredConsentDocument)
    → of_type t ds ≡ false
    → of_type t (filter keep ds) ≡ false
of_type-filter keep t [] h = refl
of_type-filter keep t (d ∷ ds) h = ground (arith, of_type-filter keep t ds)

filter-distinct :
    (keep : RequiredConsentDocument → Bool) (ds : List RequiredConsentDocument)
    → distinct_types ds ≡ true
    → distinct_types (filter keep ds) ≡ true
filter-distinct keep [] h = refl
filter-distinct keep (d ∷ ds) h =
    ground (arith, filter-distinct keep ds, of_type-filter keep d.document_type ds)

module _ (user app : ℕ) where
  -- None of the documents was accepted.
  abbrev unaccepted : List SaUserConsent → List RequiredConsentDocument → Bool
  unaccepted rows ds = all (λ d. not (accepted user app rows d.document_type)) ds

  accepted-row :
      (rows : List SaUserConsent) (d : RequiredConsentDocument) (t : ConsentDocumentType)
      → accepted user app (consent_row user app d ∷ rows) t
        ≡ (same_type d.document_type t || accepted user app rows t)
  unfolding accepted
  accepted-row rows d t = ground arith

  unaccepted-row :
      (rows : List SaUserConsent) (d : RequiredConsentDocument) (ds : List RequiredConsentDocument)
      → of_type d.document_type ds ≡ false
      → unaccepted rows ds ≡ true
      → unaccepted (consent_row user app d ∷ rows) ds ≡ true
  unaccepted-row rows d [] h u = refl
  unaccepted-row rows d (e ∷ es) h u =
      let now = accepted-row rows d e.document_type in
      let turned = same_type_comm d.document_type e.document_type in
      ground (arith, unaccepted-row rows d es)

  -- Documents of different types that were not accepted are recorded; then they are accepted, and
  -- what was accepted before still is.
  record_consent-fresh :
      (ds : List RequiredConsentDocument) (rows : List SaUserConsent)
      → distinct_types ds ≡ true
      → unaccepted rows ds ≡ true
      → (rows' : List SaUserConsent) × (record_consent user app ds rows ≡ ok (tt, rows'))
        × ((t : ConsentDocumentType)
            → accepted user app rows' t ≡ (of_type t ds || accepted user app rows t))
  unfolding record_consent
  record_consent-fresh [] rows h u = (rows, refl, λ t. refl)
  record_consent-fresh (d ∷ ds) rows h u =
      let rest = unaccepted-row rows d ds (ground arith) (ground arith) in
      let (rows', done, after) =
        record_consent-fresh ds (consent_row user app d ∷ rows) (ground arith) rest in
      (
        rows',
        ground arith,
        λ t. let now = accepted-row rows d t in let then' = after t in ground arith,
      )

  unaccepted-filter :
      (rows : List SaUserConsent) (ds : List RequiredConsentDocument)
      → unaccepted rows (filter (λ d. not (accepted user app rows d.document_type)) ds) ≡ true
  unaccepted-filter rows [] = refl
  unaccepted-filter rows (d ∷ ds) = ground (arith, unaccepted-filter rows ds)

filter_ext :
    {A : Type 0} (p q : A → Bool)
    → ((x : A) → p x ≡ q x)
    → (xs : List A) → filter p xs ≡ filter q xs
filter_ext p q h [] = refl
filter_ext p q h (x ∷ xs) = ground (arith, h x, filter_ext p q h xs)

-- Of a list from which the accepted types were taken out, nothing is left once the rest is too.
settled :
    (done : ConsentDocumentType → Bool) (all ds : List RequiredConsentDocument)
    → ((t : ConsentDocumentType)
        → any (λ d. same_type d.document_type t) (filter (λ d. not (done d.document_type)) ds)
          ≡ true
        → any (λ d. same_type d.document_type t) all ≡ true)
    → filter
        (λ d.
          not (any (λ e. same_type e.document_type d.document_type) all || done d.document_type))
        ds
      ≡ []
settled done all [] h = refl
settled done all (d ∷ ds) h = elim (Bool-cases (done d.document_type)) [
  | inl old ↦ ground (arith, settled done all ds (λ t e. h t (ground arith)))
  | inr new ↦
      let here = h d.document_type (ground (arith, same_type_refl d.document_type)) in
      ground (arith, settled done all ds (λ t e. h t (ground arith)))
]

-- The documents that are outstanding for a user of an app can be recorded, and then none is
-- outstanding any more, for requests from the same country: the user is not asked twice.
pub resolve_outstanding_consent-record :
    (is_gdpr_country : String → Bool) (user app : ℕ) (urls : ConsentAppUrls)
    (country : Option String) (rows : List SaUserConsent)
    → (rows' : List SaUserConsent) × (record_consent user app
          (resolve_outstanding_consent is_gdpr_country user app urls country rows)
          rows
        ≡ ok (tt, rows'))
      × (resolve_outstanding_consent is_gdpr_country user app urls country rows' ≡ [])
unfolding resolve_outstanding_consent
resolve_outstanding_consent-record is_gdpr_country user app urls country rows =
    let required = resolve_required_consent is_gdpr_country urls country in
    let done = accepted user app rows in
    let open_documents = filter (λ d. not (done d.document_type)) required in
    let (rows', recorded, after) =
      record_consent-fresh user app open_documents rows
        (filter-distinct _ required (required-distinct is_gdpr_country urls country))
        (unaccepted-filter user app rows required) in
    (
      rows',
      recorded,
      filter_ext _ _ (λ d. ap not (after d.document_type)) required
          ∙ settled done open_documents required (λ t e. e),
    )

-- ===== src/Policy/Resolve.antt =====
-- internal/policies/resolve.go: which policy applies to a domain and its organization. The queries
-- are functions on the rows of the tables; a database error is not modelled here.
pub mod Laws
pub mod Tests
use sentinel_mail_gateway.Prelude.{
  ℕ, zero, suc, Bool, true, false, not, ◌&&◌, Option, none, some, List, [], ◌∷◌, pos, ltb, ◌==◌,
  if◌then◌else◌,
}
use sentinel_mail_gateway.Event.{Fields, str, bool, end, field}
use sentinel_mail_gateway.Policy.{Policy}

-- a row of organizations
pub record Organization : Type 0 where
  pub id : ℕ
  pub parent_id : Option ℕ

abbrev is_id : ℕ → Option ℕ → Bool
is_id n none = false
is_id n (some m) = m == n

abbrev is_null : Option ℕ → Bool
is_null none = true
is_null (some n) = false

-- WHERE domain_id = $1
abbrev pub of_domain : ℕ → Policy → Bool
of_domain domain p = is_id domain p.domain_id

-- the policies of an organization as such
abbrev pub of_organization : ℕ → Policy → Bool
of_organization org p = is_id org p.organization_id && is_null p.domain_id

-- a row against the best of those behind it
abbrev pub later : (Policy → Bool) → Policy → Option Policy → Option Policy
later test r none = if test r then some r else none
later test r (some p) = if test r && not (ltb r.updated_at p.updated_at) then some r else some p

-- ORDER BY updated_at DESC LIMIT 1 over the rows that pass a test
unfoldable pub newest : (Policy → Bool) → List Policy → Option Policy
newest test [] = none
newest test (r ∷ rs) = later test r (newest test rs)

-- the row of an organization, and its parent
unfoldable pub row_for : ℕ → List Organization → Option Organization
row_for id [] = none
row_for id (o ∷ os) = let rest = row_for id os in if o.id == id then some o else rest

-- The recursive query `ancestors`, nearest first. The fuel bounds its depth: the query itself has no
-- bound and ends because the tree does.
unfoldable pub ancestors : ℕ → List Organization → ℕ → List ℕ
unfolding row_for
ancestors zero orgs id = []
ancestors (suc n) orgs id = elim (row_for id orgs) [
  | none ↦ []
  | some o ↦ elim o.parent_id [ none ↦ id ∷ [] | some parent ↦ id ∷ ancestors n orgs parent ]
]

-- ORDER BY depth, updated_at DESC LIMIT 1 over the policies of the ancestors
unfoldable pub nearest : List ℕ → List Policy → Option Policy
unfolding newest
nearest [] rows = none
nearest (org ∷ orgs) rows = elim (newest (of_organization org) rows) [
  | some p ↦ some p
  | none ↦ nearest orgs rows
]

abbrev hardcoded_settings : Fields
hardcoded_settings = field "source" (str "hardcoded") (
    field "sender_blacklist_enabled" (bool true) (
      field "challenge_response_enabled" (bool false) (
        field "challenge_response_require_verified_source" (bool true) (
          field "brand_impersonation_enabled" (bool true) (
            field "brand_impersonation_display_name_enabled" (bool true) (
              field "brand_impersonation_subject_enabled" (bool true) (
                field "brand_impersonation_link_mismatch_enabled" (bool true) (
                  field "brand_impersonation_third_party_receipts_enabled" (bool true) (
                    field "common_scam_detection_enabled" (bool true) (
                      field "common_scam_credential_phishing_enabled" (bool true) (
                        field "common_scam_payment_support_enabled" (bool true) (
                          field "common_scam_tax_document_enabled" (bool true) (
                            field "common_scam_malware_lure_enabled" (bool true) (
                              field "common_scam_health_miracle_enabled" (bool true) (
                                field "common_scam_home_services_enabled" (bool true)
                                  end)))))))))))))))

-- `hardcodedDefault`, its settings, and its thresholds in thousandths
abbrev pub hardcoded_default : Policy
hardcoded_default = record {
  id = 0;
  organization_id = none;
  domain_id = none;
  name = "fallback-default";
  spam_threshold = pos 5000;
  quarantine_threshold = pos 10000;
  reject_threshold = pos 15000;
  quarantine_action = "quarantine";
  settings = hardcoded_settings;
  is_default = true;
  updated_at = 0;
}

unfoldable pub resolve : ℕ → List Organization → List Policy → Option ℕ → Option ℕ → Policy
unfolding newest nearest ancestors
resolve depth orgs rows domain org =
    let by_domain : Option Policy = elim domain [
      | none ↦ none
      | some d ↦ newest (of_domain d) rows
    ] in
    let by_org : Option Policy = elim org [
      | none ↦ none
      | some o ↦ nearest (ancestors depth orgs o) rows
    ] in
    let by_default : Policy = elim (newest (λ (p : Policy). p.is_default) rows) [
      | none ↦ hardcoded_default
      | some p ↦ p
    ] in
    elim by_domain [ some p ↦ p | none ↦ elim by_org [ some p ↦ p | none ↦ by_default ] ]

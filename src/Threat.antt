-- ===== src/Threat.antt =====
-- internal/mail/ingest.go: the label of a threat, from symbols, scam wording and brand claims.
pub mod Tests
pub mod Order
use Prim.Native.String
use sentinel_mail_gateway.Prelude.{
  ℕ, String, Bool, true, false, not, ◌&&◌, ◌||◌, Option, none, some, List, [], ◌∷◌, pos, ltb_ℤ,
  leb_ℤ, ◌==◌, str_eq, if◌then◌else◌,
}
use sentinel_mail_gateway.Strings.{upper, lower, trim_space, contains}
use sentinel_mail_gateway.Platform.{Platform}
use sentinel_mail_gateway.Event.{Event, Value, Symbols, symbol_score}
use sentinel_mail_gateway.Policy.{
  Policy, common_scam_detection_enabled, common_scam_category_enabled,
}
use sentinel_mail_gateway.Disposition.{
  Disposition, Outcome, delivered, tagged, quarantined, rejected, is_delivered, is_final,
}
use sentinel_mail_gateway.Reputation.{
  is_reputation_block_symbol, is_authenticated_first_party_url_reputation_hit, is_reputation_hit,
}
use sentinel_mail_gateway.Scam.{
  EmailType, credential_phishing, wallet_access_phishing, payment_support_scam,
  tax_document_phishing, medical_miracle_scam, malware_lure, health_miracle_spam,
  health_lead_generation_spam, home_services_lead_gen_spam, email_type_text, analyze_common_scam,
}
use sentinel_mail_gateway.Brand.{
  BrandAnalysisOptions, default_brand_analysis_options, brand_analysis_options_from_policy,
  is_authenticated_protected_brand_sender,
}
use sentinel_mail_gateway.Brand.Profiles.{ProtectedBrandProfile, protected_brand_profiles}
use sentinel_mail_gateway.Brand.Score.{analyze_brand_impersonation}

-- The labels of `threatClass`; `no_threat` is the empty text.
pub data ThreatClass : Type 0 where
  no_threat phishing virus reputation malware spam pending_analysis challenge_response : ThreatClass

unfoldable pub common_scam_category_slug : EmailType → String
common_scam_category_slug credential_phishing = "credential_phishing"
common_scam_category_slug wallet_access_phishing = "credential_phishing"
common_scam_category_slug payment_support_scam = "payment_support"
common_scam_category_slug tax_document_phishing = "tax_document"
common_scam_category_slug malware_lure = "malware_lure"
common_scam_category_slug medical_miracle_scam = "health_miracle"
common_scam_category_slug health_miracle_spam = "health_miracle"
common_scam_category_slug health_lead_generation_spam = "health_miracle"
common_scam_category_slug home_services_lead_gen_spam = "home_services"
common_scam_category_slug _ = ""

-- `none` is the nil policy
unfoldable pub common_scam_detection_allows : Option Policy → EmailType → Bool
unfolding common_scam_category_slug
common_scam_detection_allows none type = not (str_eq (common_scam_category_slug type) "")
common_scam_detection_allows (some p) type =
    common_scam_detection_enabled p
    && (not (str_eq (common_scam_category_slug type) "")
        && common_scam_category_enabled p (common_scam_category_slug type))

unfoldable pub is_generic_phishing_heuristic_symbol : String → Bool
is_generic_phishing_heuristic_symbol symbol =
    let name = upper (trim_space symbol) in str_eq name "PHISHING" || str_eq name "PHISHING_CHECK"

is_positive : Value → Bool
is_positive value = ltb_ℤ (pos 0) (symbol_score value)

-- One round of the loop over the symbols; `none` goes on with the next one.
unfoldable pub classify_symbol :
    Event → List ProtectedBrandProfile → String × Value → Option ThreatClass
unfolding is_positive
classify_symbol ev profiles s =
    let name = upper (s.0) in
    let value = s.1 in
    if contains name "PHISH" && is_positive value
    then (if is_authenticated_protected_brand_sender ev profiles
          && is_generic_phishing_heuristic_symbol name
        then none
        else some phishing)
    else if (contains name "VIRUS" || contains name "CLAM") && is_positive value
    then some virus
    else if is_reputation_hit ev s
    then some reputation
    else none

unfoldable pub classify_symbols : Event → List ProtectedBrandProfile → Symbols → Option ThreatClass
unfolding classify_symbol
classify_symbols ev profiles [] = none
classify_symbols ev profiles (s ∷ symbols) = elim (classify_symbol ev profiles s) [
  | some threat ↦ some threat
  | none ↦ classify_symbols ev profiles symbols
]

-- the label that the scam wording alone gives
unfoldable pub scam_threat : EmailType → Bool → Option ThreatClass
scam_threat credential_phishing trusted = if trusted then none else some phishing
scam_threat wallet_access_phishing trusted = some phishing
scam_threat payment_support_scam trusted = some phishing
scam_threat tax_document_phishing trusted = some phishing
scam_threat medical_miracle_scam trusted = some phishing
scam_threat malware_lure trusted = some malware
scam_threat health_miracle_spam trusted = some spam
scam_threat health_lead_generation_spam trusted = some spam
scam_threat home_services_lead_gen_spam trusted = some spam
scam_threat _ trusted = none

unfoldable pub classify_scam :
    Event → Option Policy → List ProtectedBrandProfile → Option ThreatClass
unfolding scam_threat
classify_scam ev pol profiles =
    let type = analyze_common_scam ev.subject ev.body_text in
    if common_scam_detection_allows pol type
    then scam_threat type (is_authenticated_protected_brand_sender ev profiles)
    else none

module _ (platform : Platform) where
  -- `classifyThreatWithProfiles`
  unfoldable pub classify_threat_with_profiles :
      Event → BrandAnalysisOptions → Option Policy → List ProtectedBrandProfile → ThreatClass
  unfolding classify_symbols classify_scam
  classify_threat_with_profiles ev opts pol profiles =
      elim (classify_symbols ev profiles ev.symbols) [
        | some threat ↦ threat
        | none ↦ elim (classify_scam ev pol profiles) [
          | some threat ↦ threat
          | none ↦
              if (analyze_brand_impersonation platform ev opts profiles).quarantine
              then phishing
              else if leb_ℤ (pos 10000) ev.score
              then spam
              else no_threat
        ]
      ]

  -- `classifyThreat`: the default options, no policy and the built-in profiles
  unfoldable pub classify_threat : Event → ThreatClass
  unfolding classify_threat_with_profiles
  classify_threat ev =
      classify_threat_with_profiles ev default_brand_analysis_options none protected_brand_profiles

  -- the switch on the label
  unfoldable pub apply_threat : Outcome → ThreatClass → Outcome
  apply_threat (d, reason) phishing =
      if is_delivered d
      then (tagged, "phishing signal hit")
      else (d, if str_eq (trim_space reason) "" then "phishing signal hit" else reason)
  apply_threat (d, reason) virus = (quarantined, "malware signal hit")
  apply_threat (d, reason) malware = (quarantined, "malware signal hit")
  apply_threat (d, reason) _ = (d, reason)

  -- `applyThreatSignalDispositionWithPolicy`
  unfoldable pub apply_threat_signal_disposition : Outcome → Policy → Event → Outcome
  unfolding apply_threat
  apply_threat_signal_disposition (d, reason) pol ev =
      if is_final d
      then (d, reason)
      else apply_threat (d, reason)
          (classify_threat_with_profiles ev (brand_analysis_options_from_policy (some pol))
            (some pol) protected_brand_profiles)

-- `applyCommonScamDetectionWithPolicy`, for a policy that is not nil
unfoldable pub apply_common_scam_detection : Outcome → Policy → Event → Outcome
unfolding common_scam_detection_allows
apply_common_scam_detection (d, reason) pol ev =
    let type = analyze_common_scam ev.subject ev.body_text in
    let detected : Outcome =
      (quarantined, String.◌++◌ "detected " (lower (email_type_text type))) in
    if is_final d
    then (d, reason)
    else if not (common_scam_detection_allows (some pol) type)
    then (d, reason)
    else elim type [
      | credential_phishing ↦
          if is_authenticated_protected_brand_sender ev protected_brand_profiles
          then (d, reason)
          else detected
      | wallet_access_phishing ↦ detected
      | payment_support_scam ↦ detected
      | tax_document_phishing ↦ detected
      | medical_miracle_scam ↦ detected
      | malware_lure ↦ detected
      | health_miracle_spam ↦ detected
      | health_lead_generation_spam ↦ detected
      | home_services_lead_gen_spam ↦ detected
      | _ ↦ (d, reason)
    ]

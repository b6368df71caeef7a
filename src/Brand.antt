-- ===== src/Brand.antt =====
-- internal/mail/ingest.go: whether a mail claims a protected brand that did not send it.
pub mod Profiles
pub mod Score
pub mod Tests
use Prim.Native.String.{◌++◌}
use sentinel_mail_gateway.Prelude.{
  ℕ, ◌+◌, ◌-◌, String, Bool, true, false, not, ◌&&◌, ◌||◌, Option, none, some, List, [], ◌∷◌, any,
  keep, ltb, leb, ◌==◌, str_eq, if◌then◌else◌,
}
use sentinel_mail_gateway.Strings.{
  lower, trim, trim_space, equal_fold, contains_any, has_prefix, has_suffix, fields, join,
}
use sentinel_mail_gateway.Platform.{Platform, Url}
use sentinel_mail_gateway.Event.{Event}
use sentinel_mail_gateway.Policy.{
  Policy, brand_impersonation_enabled, brand_impersonation_display_name_enabled,
  brand_impersonation_subject_enabled, brand_impersonation_link_mismatch_enabled,
  brand_impersonation_third_party_receipts_enabled,
}
use sentinel_mail_gateway.Disposition.{Outcome, quarantined, is_final}
use sentinel_mail_gateway.MailAuth.{auth_signals, AuthSignals}
use sentinel_mail_gateway.Reputation.{email_domain}
use sentinel_mail_gateway.Sandbox.{prioritized_sandbox_urls}
use Profiles.{
  ProtectedBrandProfile, protected_brand_profiles, account_loss_pressure_phrases,
  update_details_cta_phrases,
}

pub record BrandAnalysisOptions : Type 0 where
  pub enabled : Bool
  pub display_name_enabled : Bool
  pub subject_enabled : Bool
  pub link_mismatch_enabled : Bool
  pub third_party_receipts_safe : Bool

abbrev pub default_brand_analysis_options : BrandAnalysisOptions
default_brand_analysis_options = record {
  enabled = true;
  display_name_enabled = true;
  subject_enabled = true;
  link_mismatch_enabled = true;
  third_party_receipts_safe = true;
}

unfoldable pub brand_analysis_options_from_policy : Option Policy → BrandAnalysisOptions
brand_analysis_options_from_policy none = default_brand_analysis_options
brand_analysis_options_from_policy (some p) = record {
  enabled = brand_impersonation_enabled p;
  display_name_enabled = brand_impersonation_display_name_enabled p;
  subject_enabled = brand_impersonation_subject_enabled p;
  link_mismatch_enabled = brand_impersonation_link_mismatch_enabled p;
  third_party_receipts_safe = brand_impersonation_third_party_receipts_enabled p;
}

-- The score is never negative where it is read: a subtraction is followed by a reset to 0.
pub record BrandAnalysis : Type 0 where
  pub brand : String
  pub score : ℕ
  pub signals : List String
  pub quarantine : Bool

abbrev pub no_brand : BrandAnalysis
no_brand = record { brand = ""; score = 0; signals = []; quarantine = false }

-- `brandAnalysis.Reason`
unfoldable pub brand_reason : BrandAnalysis → String
brand_reason a = if str_eq a.brand "" then "" else elim a.signals [
  | [] ↦ "brand impersonation: " ++ a.brand
  | s ∷ more ↦ "brand impersonation: " ++ (a.brand ++ ("; " ++ join "; " (s ∷ more)))
]

unfoldable pub domain_matches_any : String → List String → Bool
domain_matches_any domain allowed =
    let domain' = trim (lower domain) "." in
    any
      (λ candidate.
        let candidate' = trim (lower candidate) "." in
        str_eq domain' candidate' || has_suffix domain' ("." ++ candidate'))
      allowed

unfoldable pub suspicious_text : String → String
suspicious_text value = lower (join " " (fields value))

unfoldable pub is_authenticated_protected_brand_sender : Event → List ProtectedBrandProfile → Bool
is_authenticated_protected_brand_sender ev profiles =
    (auth_signals ev.symbols).dmarc_pass
    && (not (str_eq (email_domain ev.from) "")
        && any
            (λ (p : ProtectedBrandProfile).
              domain_matches_any (email_domain ev.from) p.sender_domains)
            profiles)

unfoldable pub is_authenticated_third_party_receipt : Event → String → Bool
is_authenticated_third_party_receipt ev from_domain =
    let text = suspicious_text (ev.subject ++ (" " ++ ev.body_text)) in
    is_authenticated_protected_brand_sender ev protected_brand_profiles
    && domain_matches_any from_domain ("paypal.com" ∷ "mail.paypal.com" ∷ [])
    && not (
        contains_any text (
          "verify" ∷ "verification" ∷ "password" ∷ "sign in" ∷ "login" ∷ "account suspended"
          ∷ "security alert" ∷ []))
    && contains_any text (
        "receipt" ∷ "transaction id" ∷ "you sent a payment" ∷ "payment sent" ∷ "paid to"
        ∷ "purchase details" ∷ "automatic payment" ∷ "preapproved payment" ∷ [])

module _ (platform : Platform) where
  -- the host of one link, where it is an HTTP link to a domain of neither the brand nor the sender
  mismatched_host : String → ProtectedBrandProfile → String → Option String
  mismatched_host from_domain profile raw = elim (platform.parse_url (trim_space raw)) [
    | none ↦ none
    | some parsed ↦
        let host = lower (trim parsed.hostname ".") in
        if str_eq parsed.hostname ""
        then none
        else if not (str_eq parsed.scheme "http" || str_eq parsed.scheme "https")
        then none
        else if domain_matches_any host profile.sender_domains
            || domain_matches_any host (from_domain ∷ [])
        then none
        else some host
  ]

  first_mismatch : String → ProtectedBrandProfile → List String → String
  unfolding mismatched_host
  first_mismatch from_domain profile [] = ""
  first_mismatch from_domain profile (raw ∷ urls) = elim (mismatched_host from_domain profile raw) [
    | some host ↦ host
    | none ↦ first_mismatch from_domain profile urls
  ]

  unfoldable pub first_mismatched_url_host :
      List String → Event → String → ProtectedBrandProfile → String
  unfolding first_mismatch
  first_mismatched_url_host urls ev from_domain profile =
      first_mismatch from_domain profile
        (prioritized_sandbox_urls platform ev.list_unsubscribe urls)

  is_direct : String → Bool
  is_direct raw = elim (platform.parse_url (trim_space raw)) [
    | none ↦ false
    | some parsed ↦ not (has_prefix (lower parsed.hostname) "click.")
  ]

  unfoldable pub first_mismatched_direct_url_host : Event → String → ProtectedBrandProfile → String
  unfolding is_direct first_mismatched_url_host
  first_mismatched_direct_url_host ev from_domain profile =
      first_mismatched_url_host (keep is_direct ev.urls) ev from_domain profile

-- ===== src/Brand/Tests.antt =====
-- An input at which the theorem on brand impersonation applies.
use sentinel_mail_gateway.Sandbox.{prioritized_sandbox_urls}
use sentinel_mail_gateway.MailAuth.{auth_signals}
use sentinel_mail_gateway.Strings.{
  contains, contains_any, cut_last, has_suffix, lower, trim, trim_space, upper, join, has_prefix,
  fields,
}
use sentinel_mail_gateway.Prelude.{◌≡◌, refl, true, not, ◌&&◌, any, str_eq}
use sentinel_mail_gateway.Samples.{small_platform, plain_mail}
use sentinel_mail_gateway.Event.{Event, has_symbol_containing}
use sentinel_mail_gateway.Reputation.{email_domain}
use sentinel_mail_gateway.Brand.{
  default_brand_analysis_options, is_authenticated_third_party_receipt, suspicious_text,
  domain_matches_any, is_authenticated_protected_brand_sender, first_mismatched_url_host,
}
use sentinel_mail_gateway.Brand.Profiles.{protected_brand_profiles}
use sentinel_mail_gateway.Brand.Score.{analyze_brand_impersonation, claims_of, score_brand_claim}
use sentinel_mail_gateway.Brand.Score.Laws.{claims_brand, analyze_brand_impersonation-quarantine}

abbrev posing_mail : Event
posing_mail = record plain_mail {
  from_name = "PayPal Support";
  subject = "Your account is suspended";
  body_text = "Your account will be suspended. Verify your account.";
}

analyze_brand_impersonation-quarantine_example :
    (analyze_brand_impersonation small_platform posing_mail default_brand_analysis_options
      protected_brand_profiles).quarantine
    ≡ (default_brand_analysis_options.enabled
        && (not (str_eq (email_domain posing_mail.from) "")
            && any
                (claims_brand small_platform posing_mail
                  (email_domain posing_mail.from)
                  default_brand_analysis_options)
                protected_brand_profiles))
analyze_brand_impersonation-quarantine_example =
    analyze_brand_impersonation-quarantine small_platform posing_mail default_brand_analysis_options
      protected_brand_profiles

test_posing :
    (analyze_brand_impersonation small_platform posing_mail default_brand_analysis_options
      protected_brand_profiles).quarantine
    ≡ true
unfolding analyze_brand_impersonation email_domain cut_last trim lower trim_space domain_matches_any
    has_suffix score_brand_claim is_authenticated_third_party_receipt
    is_authenticated_protected_brand_sender auth_signals has_symbol_containing contains upper
    claims_of contains_any suspicious_text join fields first_mismatched_url_host
    prioritized_sandbox_urls has_prefix
test_posing = refl

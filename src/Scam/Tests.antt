-- ===== src/Scam/Tests.antt =====
-- Runs of the scam analysis.
use sentinel_mail_gateway.Scam.Health.{is_health_lead_generation_spam}
use sentinel_mail_gateway.Strings.{contains_any, lower}
use sentinel_mail_gateway.Scam.Lures.{
  looks_business_email_compromise, looks_credential_phishing, looks_health_miracle_spam,
  looks_home_services_lead_gen_spam, looks_investment_scam, looks_job_scam,
  looks_medical_miracle_scam, looks_package_delivery_scam, looks_payment_scam,
  looks_payment_support_scam, looks_reward_refund_scam, looks_tax_document_phishing,
  looks_tech_support_scam, looks_wallet_access_phishing, looks_malware_lure,
}
use sentinel_mail_gateway.Prelude.{◌≡◌, refl}
use sentinel_mail_gateway.Scam.{clean, analyze_common_scam}

test_clean : analyze_common_scam "Lunch" "See you at noon." ≡ clean
unfolding analyze_common_scam looks_credential_phishing contains_any lower
    looks_wallet_access_phishing looks_package_delivery_scam looks_business_email_compromise
    looks_payment_scam looks_payment_support_scam looks_reward_refund_scam
    looks_tax_document_phishing looks_investment_scam looks_medical_miracle_scam
    looks_health_miracle_spam is_health_lead_generation_spam looks_home_services_lead_gen_spam
    looks_job_scam looks_tech_support_scam looks_malware_lure
test_clean = refl

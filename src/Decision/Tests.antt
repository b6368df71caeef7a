-- ===== src/Decision/Tests.antt =====
-- Runs of the whole pipeline, and inputs at which the theorems on it apply.
use sentinel_mail_gateway.Brand.{
  brand_analysis_options_from_policy, domain_matches_any, is_authenticated_third_party_receipt,
  is_authenticated_protected_brand_sender, suspicious_text,
}
use sentinel_mail_gateway.Scam.Health.{is_health_lead_generation_spam}
use sentinel_mail_gateway.Scam.Lures.{
  looks_business_email_compromise, looks_credential_phishing, looks_health_miracle_spam,
  looks_home_services_lead_gen_spam, looks_investment_scam, looks_medical_miracle_scam,
  looks_package_delivery_scam, looks_payment_scam, looks_payment_support_scam,
  looks_reward_refund_scam, looks_tax_document_phishing, looks_wallet_access_phishing,
  looks_malware_lure, looks_job_scam, looks_tech_support_scam,
}
use sentinel_mail_gateway.Prelude.{
  true, false, ◌≡◌, ◌||◌, inl, inr, ap, refl, some, [], ◌∷◌, pos, str_eq,
}
use sentinel_mail_gateway.Strings.{
  lower, upper, equal_fold, trim_space, contains, has_suffix, contains_any, cut_last, trim, fields,
  join,
}
use sentinel_mail_gateway.Samples.{small_platform, plain_mail, common_policy, no_lookups}
use sentinel_mail_gateway.Event.{
  Event, num, obj, field, end, symbol_score, has_symbol, has_any_symbol, has_symbol_containing,
  get_field,
}
use sentinel_mail_gateway.Policy.{
  bool_setting, challenge_response_enabled, sender_blacklist_enabled, brand_impersonation_enabled,
  common_scam_detection_enabled, brand_impersonation_third_party_receipts_enabled,
  brand_impersonation_link_mismatch_enabled, brand_impersonation_subject_enabled,
  brand_impersonation_display_name_enabled,
}
use sentinel_mail_gateway.Disposition.{delivered, rejected, is_final}
use sentinel_mail_gateway.MailAuth.{
  has_delivery_status_notification_symbol, looks_like_dsn_subject, raw_message_looks_dsn,
  is_delivery_status_notification, auth_signals, has_auth_signal,
  apply_delivery_status_notification_disposition, apply_auth_enforcement,
}
use sentinel_mail_gateway.MailAuth.Laws.{IsAuthenticated}
use sentinel_mail_gateway.Reputation.{
  email_domain, has_reputation_allowlist_hit, is_reputation_hit, has_reputation_blocklist_hit,
  apply_rspamd_sender_blocklist, apply_reputation_blocklist, is_reputation_block_symbol,
  is_reputation_allow_symbol, is_reputation_lookup_failure_symbol,
  is_authenticated_first_party_url_reputation_hit,
}
use sentinel_mail_gateway.Scam.{analyze_common_scam}
use sentinel_mail_gateway.Brand.Score.{
  analyze_brand_impersonation, apply_brand_impersonation_detection, score_brand_claim, claims_of,
}
use sentinel_mail_gateway.Threat.{
  classify_threat_with_profiles, apply_threat_signal_disposition, apply_common_scam_detection,
}
use sentinel_mail_gateway.ThreatIntel.{
  threat_candidates, first_hit, apply_cached_threat_intelligence,
}
use sentinel_mail_gateway.Decision.{
  decide, apply_sender_list_action, apply_quarantine_first, apply_challenge_response_hold_enabled,
  challenge_response_mode_enabled,
}
use sentinel_mail_gateway.Decision.Stages.{
  Lookups, screen, check_senders, check_contents, apply_preferences, decide_disposition,
  apply_learned, blacklist_applies, challenge_enabled, brand_profiles,
}
use mathlib.Core.List.{Permᴰ}
use sentinel_mail_gateway.Decision.Laws.Senders.{IsBadSender, decide_disposition-IsBadSender}
use sentinel_mail_gateway.Decision.Laws.Challenge.{NotPardoned, decide_disposition_of_challenge}
use sentinel_mail_gateway.Decision.Laws.Order.{screen-perm}
use sentinel_mail_gateway.Decision.Laws.Gates.{
  decide_disposition-IsAuthenticated, decide_disposition_of_score, decide_disposition_of_block,
  decide_disposition-rejected,
}

test_screen : screen small_platform common_policy no_lookups "" plain_mail ≡ (delivered, "")
unfolding screen decide apply_delivery_status_notification_disposition apply_auth_enforcement
    is_delivery_status_notification has_delivery_status_notification_symbol raw_message_looks_dsn
    looks_like_dsn_subject has_auth_signal auth_signals equal_fold has_symbol has_any_symbol
    has_symbol_containing fields trim_space contains_any contains lower upper
test_screen = refl

test_senders :
    check_senders small_platform common_policy no_lookups "" (delivered, "") plain_mail
    ≡ ((delivered, ""), plain_mail)
unfolding check_senders apply_sender_list_action blacklist_applies challenge_enabled
    sender_blacklist_enabled challenge_response_enabled bool_setting apply_rspamd_sender_blocklist
    apply_reputation_blocklist has_reputation_blocklist_hit is_reputation_hit
    has_reputation_allowlist_hit is_reputation_block_symbol is_reputation_allow_symbol
    apply_cached_threat_intelligence threat_candidates first_hit has_symbol equal_fold
    is_reputation_lookup_failure_symbol has_suffix upper contains_any
test_senders = refl

test_contents :
    check_contents small_platform common_policy no_lookups "" (delivered, "") plain_mail
    ≡ (delivered, "")
unfolding check_contents apply_common_scam_detection apply_brand_impersonation_detection
    apply_threat_signal_disposition common_scam_detection_enabled analyze_common_scam
    looks_credential_phishing contains_any lower looks_wallet_access_phishing
    looks_package_delivery_scam looks_business_email_compromise looks_payment_scam
    looks_payment_support_scam looks_reward_refund_scam looks_tax_document_phishing
    looks_investment_scam looks_medical_miracle_scam looks_health_miracle_spam
    is_health_lead_generation_spam looks_home_services_lead_gen_spam looks_job_scam
    looks_tech_support_scam looks_malware_lure brand_impersonation_enabled equal_fold
    analyze_brand_impersonation brand_analysis_options_from_policy email_domain cut_last trim
    trim_space brand_profiles domain_matches_any has_suffix score_brand_claim
    brand_impersonation_third_party_receipts_enabled is_authenticated_third_party_receipt
    is_authenticated_protected_brand_sender auth_signals has_symbol_containing upper
    brand_impersonation_link_mismatch_enabled claims_of suspicious_text join fields
    brand_impersonation_subject_enabled brand_impersonation_display_name_enabled
    classify_threat_with_profiles is_reputation_hit is_reputation_block_symbol
    is_reputation_lookup_failure_symbol
test_contents = refl

test_preferences :
    apply_preferences small_platform common_policy no_lookups "" (delivered, "") plain_mail
    ≡ (delivered, "")
unfolding apply_preferences apply_sender_list_action blacklist_applies challenge_enabled
    sender_blacklist_enabled challenge_response_enabled bool_setting
    apply_challenge_response_hold_enabled apply_learned apply_quarantine_first get_field
test_preferences = refl

test_plain :
    decide_disposition small_platform common_policy no_lookups "" plain_mail
    ≡ ((delivered, ""), plain_mail)
unfolding decide_disposition
test_plain =
    rw (decide_disposition, test_screen, test_senders, test_contents, test_preferences) refl

test_plain-direction : equal_fold "inbound" "outbound" ≡ false
unfolding equal_fold
test_plain-direction = refl

test_inbound : equal_fold "inbound" "inbound" ≡ true
unfolding equal_fold
test_inbound = refl

test_plain-mail : is_delivery_status_notification small_platform plain_mail ≡ false
unfolding is_delivery_status_notification equal_fold has_delivery_status_notification_symbol
    raw_message_looks_dsn trim_space
test_plain-mail = refl

decide_disposition-IsAuthenticated_example : IsAuthenticated small_platform plain_mail
decide_disposition-IsAuthenticated_example =
    decide_disposition-IsAuthenticated small_platform common_policy no_lookups "" plain_mail
      test_plain-direction test_plain-mail (ap (λ o. is_final (o.0.0)) test_plain)

-- a score over the reject threshold, and feedback that pardons
abbrev loud_mail : Event
loud_mail = record plain_mail { score = pos 15500 }

abbrev pardoned : Lookups
pardoned = record no_lookups { learned = some (record { verdict = "not_spam"; sample_count = 4 }) }

test_loud-mail : is_delivery_status_notification small_platform loud_mail ≡ false
unfolding is_delivery_status_notification equal_fold has_delivery_status_notification_symbol
    raw_message_looks_dsn trim_space
test_loud-mail = refl

decide_disposition_of_score_example :
    is_final ((decide_disposition small_platform common_policy pardoned "allow" loud_mail).0.0)
    ≡ true
decide_disposition_of_score_example =
    decide_disposition_of_score small_platform common_policy pardoned "allow" loud_mail
      test_loud-mail (inl refl)

test_blacklist : blacklist_applies common_policy pardoned ≡ true
unfolding blacklist_applies sender_blacklist_enabled
test_blacklist = refl

decide_disposition_of_block_example :
    (decide_disposition small_platform common_policy pardoned "block" plain_mail).0
    ≡ (rejected, "sender matched blacklist")
decide_disposition_of_block_example =
    decide_disposition_of_block small_platform common_policy pardoned "block" plain_mail refl
      test_blacklist

test_is_inbound : (equal_fold "inbound" "inbound" || str_eq "inbound" "") ≡ true
unfolding equal_fold
test_is_inbound = refl

test_blocked :
    (decide_disposition small_platform common_policy pardoned "block" plain_mail).0.0 ≡ rejected
test_blocked =
    ap (λ o. o.0)
      (decide_disposition_of_block small_platform common_policy pardoned "block" plain_mail refl
        test_blacklist)

decide_disposition-rejected_example :
    (decide_disposition small_platform common_policy pardoned "block" plain_mail).0.1
    ≡ "sender matched blacklist"
decide_disposition-rejected_example =
    decide_disposition-rejected small_platform common_policy pardoned "block" plain_mail
      test_is_inbound test_blocked

-- a listed domain in the mail, whose sender is on the allowlist
abbrev listed_mail : Event
listed_mail = record plain_mail {
  symbols = ("URIBL_BLACK", obj (field "score" (num (pos 7500)) end)) ∷ plain_mail.symbols;
}

test_listed : has_reputation_blocklist_hit listed_mail ≡ true
unfolding has_reputation_blocklist_hit has_reputation_allowlist_hit
    is_reputation_lookup_failure_symbol has_suffix upper contains_any is_reputation_allow_symbol
    is_reputation_hit is_reputation_block_symbol symbol_score
    is_authenticated_first_party_url_reputation_hit equal_fold
test_listed = refl

test_bad_sender : IsBadSender small_platform common_policy pardoned "allow" listed_mail
unfolding IsBadSender
test_bad_sender = inr (inl test_listed)

decide_disposition-IsBadSender_example :
    is_final ((decide_disposition small_platform common_policy pardoned "allow" listed_mail).0.0)
    ≡ true
decide_disposition-IsBadSender_example =
    decide_disposition-IsBadSender small_platform common_policy pardoned "allow" listed_mail
      test_bad_sender

-- the recipient has turned the challenge mode on
abbrev challenging : Lookups
challenging = record no_lookups { challenge_mode = some ("enabled", true) }

test_challenge : challenge_enabled common_policy challenging ≡ true
unfolding challenge_enabled challenge_response_mode_enabled
test_challenge = refl

test_unchanged :
    (decide_disposition small_platform common_policy challenging "" plain_mail).1 ≡ plain_mail
unfolding decide_disposition check_senders apply_cached_threat_intelligence threat_candidates
    first_hit apply_reputation_blocklist apply_rspamd_sender_blocklist has_symbol equal_fold
    apply_sender_list_action apply_auth_enforcement apply_delivery_status_notification_disposition
    is_delivery_status_notification has_delivery_status_notification_symbol raw_message_looks_dsn
    trim_space decide has_auth_signal contains_any upper auth_signals has_symbol_containing
    has_reputation_blocklist_hit has_reputation_allowlist_hit is_reputation_lookup_failure_symbol
    has_suffix is_reputation_allow_symbol is_reputation_hit is_reputation_block_symbol
test_unchanged = refl

test_pardon : NotPardoned challenging.learned
unfolding NotPardoned
test_pardon = tt

decide_disposition_of_challenge_example :
    is_final ((decide_disposition small_platform common_policy challenging "" plain_mail).0.0)
    ≡ true
decide_disposition_of_challenge_example =
    decide_disposition_of_challenge small_platform common_policy challenging "" plain_mail
      test_challenge (rw test_unchanged test_inbound) (rw test_unchanged test_plain-mail) refl
      test_pardon

screen-perm_example :
    screen small_platform common_policy no_lookups "" (record plain_mail {
      symbols = ("R_SPF_ALLOW", num (pos 0)) ∷ ("DMARC_POLICY_ALLOW", num (pos 0)) ∷ [];
    })
    ≡ screen small_platform common_policy no_lookups "" (record plain_mail {
      symbols = ("DMARC_POLICY_ALLOW", num (pos 0)) ∷ ("R_SPF_ALLOW", num (pos 0)) ∷ [];
    })
screen-perm_example =
    screen-perm small_platform (Permᴰ.swap {l = []} refl refl) plain_mail common_policy no_lookups
      ""

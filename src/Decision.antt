-- ===== src/Decision.antt =====
-- internal/mail/ingest.go: the stages of `handle` from the scan event to the final disposition. The
-- database and the cache are read through `Lookups`, the answers that they give for this event.
pub mod Laws
pub mod Stages
pub mod Tests
use Prim.Native.String.{◌++◌}
use sentinel_mail_gateway.Prelude.{
  ℕ, String, Bool, true, false, not, ◌&&◌, ◌||◌, Option, none, some, List, [], ◌∷◌, length, pos,
  negsuc, leb_ℤ, str_eq, ◌==◌, if◌then◌else◌,
}
use sentinel_mail_gateway.Strings.{equal_fold, has_prefix}
use sentinel_mail_gateway.Platform.{Platform}
use sentinel_mail_gateway.Event.{
  Event, Score, Value, num, str, arr, nil, obj, end, field, put_symbol,
}
use sentinel_mail_gateway.Policy.{
  Policy, sender_blacklist_enabled, challenge_response_enabled,
  challenge_response_require_verified_source,
}
use sentinel_mail_gateway.Disposition.{
  Disposition, Outcome, delivered, tagged, quarantined, rejected, is_delivered, is_tagged,
  is_quarantined, is_rejected, is_final, pending_approval, is_pending_reason, is_hard_gate_reason,
  is_allowlist_override_blocked_reason, disposition_for_policy_action,
}
use sentinel_mail_gateway.MailAuth.{
  is_delivery_status_notification, apply_delivery_status_notification_disposition,
  apply_auth_enforcement, challenge_source_verified,
}
use sentinel_mail_gateway.Reputation.{apply_rspamd_sender_blocklist, apply_reputation_blocklist}
use sentinel_mail_gateway.Scam.{analyze_common_scam}
use sentinel_mail_gateway.Brand.{brand_analysis_options_from_policy}
use sentinel_mail_gateway.Brand.Profiles.{ProtectedBrandProfile, protected_brand_profiles}
use sentinel_mail_gateway.Brand.Score.{apply_brand_impersonation_detection}
use sentinel_mail_gateway.Threat.{
  ThreatClass, no_threat, phishing, virus, malware, pending_analysis, challenge_response,
  common_scam_detection_allows, classify_threat, classify_threat_with_profiles,
  apply_threat_signal_disposition, apply_common_scam_detection,
}
use sentinel_mail_gateway.ThreatIntel.{Kind, FeedResult, apply_cached_threat_intelligence}

-- `decide`, for a policy that is not nil
unfoldable pub decide : Policy → Event → Outcome
decide p ev =
    if leb_ℤ p.reject_threshold ev.score
    then (rejected, "score >= reject_threshold")
    else if leb_ℤ p.quarantine_threshold ev.score
    then (disposition_for_policy_action p.quarantine_action, "score >= quarantine_threshold")
    else if leb_ℤ p.spam_threshold ev.score
    then (tagged, "score >= spam_threshold")
    else (delivered, "")

unfoldable pub apply_sender_list_action : Outcome → String → Bool → Outcome
apply_sender_list_action (d, reason) action blacklist_enabled =
    if str_eq action "block" && blacklist_enabled
    then (rejected, "sender matched blacklist")
    else if str_eq action "allow"
        && (not (is_allowlist_override_blocked_reason reason) && (is_tagged d || is_quarantined d))
    then (delivered, "sender matched allowlist")
    else (d, reason)

unfoldable pub effective_sender_list_action : String → Bool → String
effective_sender_list_action action blacklist_enabled =
    if str_eq action "allow" || (str_eq action "block" && blacklist_enabled) then action else ""

-- `map[string]any{"score": score, "group": "sentinelmail", "options": []string{}}`
abbrev list_value : Score → Value
list_value score =
    obj (
      field "score" (num score)
        (field "group" (str "sentinelmail") (field "options" (arr nil) end)))

unfoldable pub record_sender_list_symbol : Event → String → Event
record_sender_list_symbol ev action =
    if str_eq action "block"
    then record ev {
      symbols = put_symbol "SMG_SENDER_BLACKLIST" (list_value (pos 20000)) ev.symbols;
    }
    else if str_eq action "allow"
    then record ev {
      symbols = put_symbol "SMG_SENDER_ALLOWLIST" (list_value (negsuc 19999)) ev.symbols;
    }
    else ev

-- classifier.Match
pub record Match : Type 0 where
  pub verdict : String
  pub sample_count : ℕ

unfoldable pub apply_learned_classification : Outcome → Match → Outcome
apply_learned_classification (d, reason) learned =
    if str_eq learned.verdict "not_spam"
    then (if is_hard_gate_reason reason
        then (d, reason)
        else if is_quarantined d || is_tagged d
        then (delivered, "user classified similar mail as not spam")
        else (d, reason))
    else if str_eq learned.verdict "spam"
    then (if is_delivered d || is_tagged d
        then (quarantined, "user classified similar mail as spam")
        else (d, reason))
    else if str_eq learned.verdict "phishing" || str_eq learned.verdict "malware"
    then (if is_delivered d || is_tagged d || is_quarantined d
        then (quarantined, "user classified similar mail as " ++ learned.verdict)
        else (d, reason))
    else (d, reason)

unfoldable pub challenge_response_mode_enabled : Bool → String → Bool → Bool
challenge_response_mode_enabled policy_enabled mode active =
    if not active
    then policy_enabled
    else if str_eq mode "enabled"
    then true
    else if str_eq mode "disabled"
    then false
    else policy_enabled

unfoldable pub apply_quarantine_first : Outcome → Event → Outcome
apply_quarantine_first (d, reason) ev =
    if not (is_rejected d)
    then (d, reason)
    else if str_eq reason "sender matched blacklist"
    then (d, reason)
    else if equal_fold ev.direction "inbound" || str_eq ev.direction ""
    then (quarantined, reason)
    else (d, reason)

module _ (platform : Platform) where
  unfoldable pub challenge_can_request_approval : String → Policy → Event → Bool
  challenge_can_request_approval reason pol ev =
      let auth_quarantine =
        str_eq reason "sender authentication results missing"
        || has_prefix reason "sender failed DMARC"
        || has_prefix reason "sender failed SPF/DKIM"
        || has_prefix reason "sender authentication" in
      let type = analyze_common_scam ev.subject ev.body_text in
      if not auth_quarantine then false else elim (classify_threat platform ev) [
        | phishing ↦ false
        | virus ↦ false
        | malware ↦ false
        | _ ↦ not (common_scam_detection_allows (some pol) type)
      ]

  unfoldable pub apply_challenge_response_hold_enabled :
      Outcome → Policy → String → Bool → Event → Outcome
  apply_challenge_response_hold_enabled (d, reason) pol sender_action enabled ev =
      if is_rejected d || not enabled
      then (d, reason)
      else if not (equal_fold ev.direction "inbound")
      then (d, reason)
      else if is_delivery_status_notification platform ev
      then (d, reason)
      else if is_quarantined d && not (challenge_can_request_approval reason pol ev)
      then (d, reason)
      else if str_eq sender_action "allow"
          && (not (challenge_response_require_verified_source pol)
              || challenge_source_verified platform ev)
      then (d, reason)
      else (quarantined, pending_approval)

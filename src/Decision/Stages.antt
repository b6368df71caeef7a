-- ===== src/Decision/Stages.antt =====
-- internal/mail/ingest.go, `handle`: the order of the stages.
pub mod Held
use sentinel_mail_gateway.Prelude.{
  String, Bool, true, false, ◌||◌, Option, none, some, List, [], ◌∷◌,
}
use sentinel_mail_gateway.Platform.{Platform}
use sentinel_mail_gateway.Event.{Event}
use sentinel_mail_gateway.Policy.{Policy, sender_blacklist_enabled, challenge_response_enabled}
use sentinel_mail_gateway.Disposition.{Outcome}
use sentinel_mail_gateway.MailAuth.{
  apply_delivery_status_notification_disposition, apply_auth_enforcement,
}
use sentinel_mail_gateway.Reputation.{apply_rspamd_sender_blocklist, apply_reputation_blocklist}
use sentinel_mail_gateway.Brand.Profiles.{ProtectedBrandProfile, protected_brand_profiles}
use sentinel_mail_gateway.Brand.Score.{apply_brand_impersonation_detection}
use sentinel_mail_gateway.Threat.{apply_threat_signal_disposition, apply_common_scam_detection}
use sentinel_mail_gateway.ThreatIntel.{Kind, FeedResult, apply_cached_threat_intelligence}
use sentinel_mail_gateway.Decision.{
  decide, apply_sender_list_action, Match, apply_learned_classification,
  challenge_response_mode_enabled, apply_quarantine_first, apply_challenge_response_hold_enabled,
}

-- What the database and the cache answer for one event.
pub record Lookups : Type 0 where
  -- the recipient's mode and whether the mailbox is active; `none` where there is no row
  pub challenge_mode : Option (String × Bool)
  -- the brand catalogue; empty where there is none or it cannot be loaded
  pub profiles : List ProtectedBrandProfile
  pub cached : Kind → String → Option FeedResult
  pub cached_enforcement : Bool
  -- the learned classification, `none` where there is none or the query fails
  pub learned : Option Match

-- `challengeResponseEnabled`, for a policy and an organization that are not nil
unfoldable pub challenge_enabled : Policy → Lookups → Bool
challenge_enabled pol lookups = elim lookups.challenge_mode [
  | none ↦ challenge_response_enabled pol
  | some (mode, active) ↦
      challenge_response_mode_enabled (challenge_response_enabled pol) mode active
]

-- the block of `handle` that converts the catalogue
unfoldable pub brand_profiles : Lookups → List ProtectedBrandProfile
brand_profiles lookups = elim lookups.profiles [ [] ↦ protected_brand_profiles | p ∷ ps ↦ p ∷ ps ]

unfoldable pub blacklist_applies : Policy → Lookups → Bool
unfolding challenge_enabled
blacklist_applies pol lookups = sender_blacklist_enabled pol || challenge_enabled pol lookups

unfoldable pub apply_learned : Outcome → Option Match → Outcome
apply_learned o none = o
apply_learned o (some learned) = apply_learned_classification o learned

module _ (platform : Platform) (pol : Policy) (lookups : Lookups) (sender_action : String) where
  -- up to the sender lists
  unfoldable pub screen : Event → Outcome
  screen ev =
      apply_auth_enforcement platform
        (apply_delivery_status_notification_disposition platform (decide pol ev) ev) ev

  -- the sender lists and the reputation of the values in the event
  unfoldable pub check_senders : Outcome → Event → Outcome × Event
  check_senders o ev =
      let listed = apply_sender_list_action o sender_action (blacklist_applies pol lookups) in
      let blocked = apply_rspamd_sender_blocklist listed ev in
      let reputed = apply_reputation_blocklist blocked ev in
      apply_cached_threat_intelligence platform lookups.cached lookups.cached_enforcement reputed ev

  -- the contents of the mail
  unfoldable pub check_contents : Outcome → Event → Outcome
  check_contents o ev =
      let scammed = apply_common_scam_detection o pol ev in
      let branded =
        apply_brand_impersonation_detection platform scammed sender_action pol ev
          (brand_profiles lookups) in
      apply_threat_signal_disposition platform branded pol ev

  -- the recipient's lists, approvals and feedback, and the last change of a rejection
  unfoldable pub apply_preferences : Outcome → Event → Outcome
  apply_preferences o ev =
      let blacklist = blacklist_applies pol lookups in
      let listed = apply_sender_list_action o sender_action blacklist in
      let held =
        apply_challenge_response_hold_enabled platform listed pol sender_action
          (challenge_enabled pol lookups) ev in
      let learned = apply_learned held lookups.learned in
      let relisted = apply_sender_list_action learned sender_action blacklist in
      apply_quarantine_first relisted ev

  -- the disposition with its reason, and the event with the symbol of a cached hit
  unfoldable pub decide_disposition : Event → Outcome × Event
  unfolding screen check_senders check_contents apply_preferences
  decide_disposition ev =
      let (o, ev') = check_senders (screen ev) ev in
      (apply_preferences (check_contents o ev') ev', ev')

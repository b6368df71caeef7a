-- ===== src/Decision/Laws/Challenge.antt =====
-- Senders in challenge mode.
use sentinel_mail_gateway.Prelude.{
  String, Bool, true, false, ◌≡◌, arith, str_eq, Option, some, none,
}
use sentinel_mail_gateway.Strings.{equal_fold}
use sentinel_mail_gateway.Platform.{Platform}
use sentinel_mail_gateway.Event.{Event}
use sentinel_mail_gateway.Policy.{Policy}
use sentinel_mail_gateway.Disposition.{Disposition, Outcome, is_final}
use sentinel_mail_gateway.MailAuth.{is_delivery_status_notification}
use sentinel_mail_gateway.Decision.{
  Match, apply_sender_list_action, apply_learned_classification, apply_quarantine_first,
  apply_challenge_response_hold_enabled,
}
use sentinel_mail_gateway.Decision.Stages.{
  Lookups, challenge_enabled, blacklist_applies, apply_learned, apply_preferences,
  decide_disposition,
}

-- No feedback, or feedback that the mail is bad.
unfoldable pub NotPardoned : Option Match → Type 0
NotPardoned none = Unit
NotPardoned (some learned) = str_eq learned.verdict "not_spam" ≡ false

apply_learned_of_final :
    (d : Disposition) (reason : String) (learned : Option Match)
    → NotPardoned learned
    → is_final d ≡ true
    → is_final ((apply_learned (d, reason) learned).0) ≡ true
unfolding apply_learned apply_learned_classification NotPardoned
apply_learned_of_final d reason none n h = h
apply_learned_of_final d reason (some learned) n h = ground arith

relist_of_final :
    (d : Disposition) (reason action : String) (enabled : Bool)
    → str_eq action "allow" ≡ false
    → is_final d ≡ true
    → is_final ((apply_sender_list_action (d, reason) action enabled).0) ≡ true
unfolding apply_sender_list_action
relist_of_final d reason action enabled n h = ground arith

quarantine_first_of_final :
    (d : Disposition) (reason : String) (ev : Event)
    → is_final d ≡ true
    → is_final ((apply_quarantine_first (d, reason) ev).0) ≡ true
unfolding apply_quarantine_first
quarantine_first_of_final d reason ev h = ground arith

module _ (platform : Platform) (pol : Policy) where
  hold-is_final :
      (d : Disposition) (reason action : String) (ev : Event)
      → equal_fold ev.direction "inbound" ≡ true
      → is_delivery_status_notification platform ev ≡ false
      → str_eq action "allow" ≡ false
      → is_final ((apply_challenge_response_hold_enabled platform (d, reason) pol action true ev).0)
        ≡ true
  unfolding apply_challenge_response_hold_enabled
  hold-is_final d reason action ev inbound mail n = ground arith

  module _ (lookups : Lookups) (action : String) (ev : Event) where
    preferences-is_final :
        (o : Outcome) (ev' : Event)
        → challenge_enabled pol lookups ≡ true
        → equal_fold ev'.direction "inbound" ≡ true
        → is_delivery_status_notification platform ev' ≡ false
        → str_eq action "allow" ≡ false
        → NotPardoned lookups.learned
        → is_final ((apply_preferences platform pol lookups action o ev').0) ≡ true
    unfolding apply_preferences
    preferences-is_final o ev' enabled inbound mail n pardon =
        let applies = blacklist_applies pol lookups in
        let listed = apply_sender_list_action o action applies in
        let held = apply_challenge_response_hold_enabled platform listed pol action true ev' in
        let learned = apply_learned held lookups.learned in
        let relisted = apply_sender_list_action learned action applies in
        rw enabled (
          quarantine_first_of_final (relisted.0) (relisted.1) ev' (
            relist_of_final (learned.0) (learned.1) action applies n (
              apply_learned_of_final (held.0) (held.1) lookups.learned pardon
                (hold-is_final (listed.0) (listed.1) action ev' inbound mail n))))

    -- In challenge mode an inbound mail that is no delivery status notification, from a sender
    -- that the lists do not allow, is not delivered or tagged, unless the recipient's feedback is
    -- that similar mail is not spam.
    pub decide_disposition_of_challenge :
        challenge_enabled pol lookups ≡ true
        → equal_fold ((decide_disposition platform pol lookups action ev).1.direction) "inbound"
          ≡ true
        → is_delivery_status_notification platform
            ((decide_disposition platform pol lookups action ev).1)
          ≡ false
        → str_eq action "allow" ≡ false
        → NotPardoned lookups.learned
        → is_final ((decide_disposition platform pol lookups action ev).0.0) ≡ true
    unfolding decide_disposition
    decide_disposition_of_challenge enabled inbound mail n pardon =
        preferences-is_final _ _ enabled inbound mail n pardon

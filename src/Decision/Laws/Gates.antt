-- ===== src/Decision/Laws/Gates.antt =====
-- The gates before delivery: authentication, the lists and the score.
use sentinel_mail_gateway.Prelude.{
  String, Bool, true, false, ◌≡◌, ◌⊎◌, inl, inr, refl, ap, ◌∙◌, arith, ◌||◌, str_eq, str_eq_iff,
  leb_ℤ, Bool-cases,
}
use sentinel_mail_gateway.Strings.{equal_fold}
use sentinel_mail_gateway.Platform.{Platform}
use sentinel_mail_gateway.Event.{Event}
use sentinel_mail_gateway.Policy.{Policy}
use sentinel_mail_gateway.Disposition.{
  Disposition, Outcome, rejected, is_final, disposition_for_policy_action,
}
use sentinel_mail_gateway.MailAuth.{
  apply_auth_enforcement, apply_delivery_status_notification_disposition,
  is_delivery_status_notification,
}
use sentinel_mail_gateway.MailAuth.Laws.{IsAuthenticated, apply_auth_enforcement-is_final_iff}
use sentinel_mail_gateway.ThreatIntel.{apply_cached_threat_intelligence}
use sentinel_mail_gateway.Decision.{decide, apply_sender_list_action, apply_quarantine_first}
use sentinel_mail_gateway.Decision.Stages.{
  Lookups, screen, check_senders, blacklist_applies, apply_preferences, decide_disposition,
}
use sentinel_mail_gateway.Decision.Stages.Held.{after_screen-is_final}
use sentinel_mail_gateway.Decision.Laws.{screen-IsHeld}

apply_sender_list_action_of_block :
    (d : Disposition) (reason action : String) (enabled : Bool)
    → action ≡ "block"
    → enabled ≡ true
    → apply_sender_list_action (d, reason) action enabled ≡ (rejected, "sender matched blacklist")
unfolding apply_sender_list_action
apply_sender_list_action_of_block d reason action enabled block applies = rw (block, applies)

apply_quarantine_first-rejected :
    (d : Disposition) (reason : String) (ev : Event)
    → (equal_fold ev.direction "inbound" || str_eq ev.direction "") ≡ true
    → (apply_quarantine_first (d, reason) ev).0 ≡ rejected
    → (apply_quarantine_first (d, reason) ev).1 ≡ "sender matched blacklist"
unfolding apply_quarantine_first
apply_quarantine_first-rejected d reason ev inbound h =
    ground (arith, str_eq_iff reason "sender matched blacklist")

quarantine_first_of_blacklist :
    (ev : Event)
    → apply_quarantine_first (rejected, "sender matched blacklist") ev
      ≡ (rejected, "sender matched blacklist")
unfolding apply_quarantine_first
quarantine_first_of_blacklist ev = refl

module _ (platform : Platform) (pol : Policy) (lookups : Lookups) (action : String)
    (ev : Event) where
  check_senders-direction :
      (o : Outcome) → (check_senders platform pol lookups action o ev).1.direction ≡ ev.direction
  unfolding check_senders apply_cached_threat_intelligence
  check_senders-direction o = ground arith

  -- what the first stages stop is not delivered
  stopped-is_final :
      is_final ((screen platform pol lookups action ev).0) ≡ true
      → is_final ((decide_disposition platform pol lookups action ev).0.0) ≡ true
  stopped-is_final h =
      after_screen-is_final platform pol lookups action ev
        (screen-IsHeld platform pol lookups action ev h)

  -- An inbound mail that is no delivery status notification leaves the decision stages delivered
  -- or tagged only if it is authenticated, whatever its score, the policy, the lists, the feeds
  -- and the feedback.
  pub decide_disposition-IsAuthenticated :
      equal_fold ev.direction "outbound" ≡ false
      → is_delivery_status_notification platform ev ≡ false
      → is_final ((decide_disposition platform pol lookups action ev).0.0) ≡ false
      → IsAuthenticated platform ev
  unfolding screen
  decide_disposition-IsAuthenticated inbound mail passed =
      let o = apply_delivery_status_notification_disposition platform (decide pol ev) ev in
      elim (Bool-cases (is_final ((screen platform pol lookups action ev).0))) [
        | inl stopped ↦ absurd (cc (passed, stopped-is_final stopped))
        | inr clear ↦
            ((apply_auth_enforcement-is_final_iff platform ev (o.0) (o.1) inbound mail).0 clear).1
      ]

  decided-is_final :
      is_delivery_status_notification platform ev ≡ false
      → (leb_ℤ pol.reject_threshold ev.score ≡ true)
        ⊎ ((leb_ℤ pol.quarantine_threshold ev.score ≡ true)
            × (is_final (disposition_for_policy_action pol.quarantine_action) ≡ true))
      → is_final ((screen platform pol lookups action ev).0) ≡ true
  unfolding screen decide apply_delivery_status_notification_disposition apply_auth_enforcement
  decided-is_final mail high = ground arith

  -- A mail that is no delivery status notification and reaches the reject threshold, or the
  -- quarantine threshold of a policy that quarantines or rejects there, is not delivered or
  -- tagged.
  pub decide_disposition_of_score :
      is_delivery_status_notification platform ev ≡ false
      → (leb_ℤ pol.reject_threshold ev.score ≡ true)
        ⊎ ((leb_ℤ pol.quarantine_threshold ev.score ≡ true)
            × (is_final (disposition_for_policy_action pol.quarantine_action) ≡ true))
      → is_final ((decide_disposition platform pol lookups action ev).0.0) ≡ true
  decide_disposition_of_score mail high = stopped-is_final (decided-is_final mail high)

  -- A sender on the block list is rejected with that reason, if the policy or the recipient's
  -- challenge mode uses the list.
  pub decide_disposition_of_block :
      action ≡ "block"
      → blacklist_applies pol lookups ≡ true
      → (decide_disposition platform pol lookups action ev).0
        ≡ (rejected, "sender matched blacklist")
  unfolding decide_disposition apply_preferences
  decide_disposition_of_block block applies =
      let (o, ev') =
        check_senders platform pol lookups action (screen platform pol lookups action ev) ev in
      ap (λ r. apply_quarantine_first r ev')
        (apply_sender_list_action_of_block _ _ action _ block applies)
      ∙ quarantine_first_of_blacklist ev'

  -- The decision stages reject an inbound mail for no other reason than the block list.
  pub decide_disposition-rejected :
      (equal_fold ev.direction "inbound" || str_eq ev.direction "") ≡ true
      → (decide_disposition platform pol lookups action ev).0.0 ≡ rejected
      → (decide_disposition platform pol lookups action ev).0.1 ≡ "sender matched blacklist"
  unfolding decide_disposition apply_preferences
  decide_disposition-rejected inbound h =
      apply_quarantine_first-rejected _ _ _ (rw check_senders-direction inbound) h

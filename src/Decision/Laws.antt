-- ===== src/Decision/Laws.antt =====
-- What the stages of `handle` guarantee together.
pub mod Gates
pub mod Senders
pub mod Challenge
pub mod Order
use sentinel_mail_gateway.Prelude.{
  String, Bool, true, false, ◌≡◌, ◌⊎◌, inl, inr, refl, arith, ◌||◌, ◌&&◌, not, str_eq, str_eq_iff,
  leb_ℤ, Bool-cases,
}
use sentinel_mail_gateway.Strings.{has_prefix, equal_fold}
use sentinel_mail_gateway.Platform.{Platform}
use sentinel_mail_gateway.Event.{Event}
use sentinel_mail_gateway.Policy.{Policy}
use sentinel_mail_gateway.Disposition.{
  Disposition, Outcome, delivered, tagged, quarantined, rejected, is_final, is_rejected,
  is_hard_gate_reason, disposition_for_policy_action,
}
use sentinel_mail_gateway.MailAuth.{
  apply_auth_enforcement, apply_delivery_status_notification_disposition,
  is_delivery_status_notification, auth_signals,
}
use sentinel_mail_gateway.MailAuth.Laws.{IsAuthenticated, apply_auth_enforcement-is_final_iff}
use sentinel_mail_gateway.Decision.{decide, apply_sender_list_action, apply_quarantine_first}
use sentinel_mail_gateway.Decision.Stages.{
  Lookups, screen, blacklist_applies, apply_preferences, decide_disposition,
}
use sentinel_mail_gateway.Decision.Stages.Held.{IsHeld, after_screen-is_final}

-- The reasons of the first stages are hard gates.
hard_missing : is_hard_gate_reason "sender authentication results missing" ≡ true
unfolding is_hard_gate_reason has_prefix
hard_missing = refl

hard_dmarc_reject : is_hard_gate_reason "sender failed DMARC reject policy" ≡ true
unfolding is_hard_gate_reason has_prefix
hard_dmarc_reject = refl

hard_dmarc_quarantine : is_hard_gate_reason "sender failed DMARC quarantine policy" ≡ true
unfolding is_hard_gate_reason has_prefix
hard_dmarc_quarantine = refl

hard_failed : is_hard_gate_reason "sender failed SPF/DKIM/DMARC authentication" ≡ true
unfolding is_hard_gate_reason has_prefix
hard_failed = refl

hard_score : is_hard_gate_reason "score >= quarantine_threshold" ≡ true
unfolding is_hard_gate_reason has_prefix
hard_score = refl

decide-IsHeld : (p : Policy) (ev : Event) → is_final ((decide p ev).0) ≡ true → IsHeld (decide p ev)
unfolding decide IsHeld
decide-IsHeld p ev h = ground (arith, hard_score)

module _ (platform : Platform) where
  dsn-IsHeld :
      (d : Disposition) (reason : String) (ev : Event)
      → (is_final d ≡ true → IsHeld (d, reason))
      → is_final ((apply_delivery_status_notification_disposition platform (d, reason) ev).0) ≡ true
      → IsHeld (apply_delivery_status_notification_disposition platform (d, reason) ev)
  unfolding apply_delivery_status_notification_disposition IsHeld
  dsn-IsHeld d reason ev h final = ground arith

  auth-IsHeld :
      (d : Disposition) (reason : String) (ev : Event)
      → (is_final d ≡ true → IsHeld (d, reason))
      → is_final ((apply_auth_enforcement platform (d, reason) ev).0) ≡ true
      → IsHeld (apply_auth_enforcement platform (d, reason) ev)
  unfolding apply_auth_enforcement IsHeld
  auth-IsHeld d reason ev h final =
      ground (arith, hard_missing, hard_dmarc_reject, hard_dmarc_quarantine, hard_failed)

  -- What the first stages stop, they stop for a hard reason.
  pub screen-IsHeld :
      (pol : Policy) (lookups : Lookups) (action : String) (ev : Event)
      → is_final ((screen platform pol lookups action ev).0) ≡ true
      → IsHeld (screen platform pol lookups action ev)
  unfolding screen
  screen-IsHeld pol lookups action ev =
      let o = decide pol ev in
      let o' = apply_delivery_status_notification_disposition platform o ev in
      auth-IsHeld (o'.0) (o'.1) ev (dsn-IsHeld (o.0) (o.1) ev (decide-IsHeld pol ev))

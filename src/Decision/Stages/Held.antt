-- ===== src/Decision/Stages/Held.antt =====
-- What later stages do to the outcome of a hard gate.
use Prim.Native.String.{◌++◌}
use sentinel_mail_gateway.Prelude.{
  String, Bool, true, ◌≡◌, ◌⊎◌, inl, inr, refl, arith, Option, none, some, ◌||◌, str_eq, str_eq_iff,
  Bool-cases,
}
use sentinel_mail_gateway.Strings.{has_prefix}
use sentinel_mail_gateway.Platform.{Platform}
use sentinel_mail_gateway.Event.{Event}
use sentinel_mail_gateway.Policy.{Policy}
use sentinel_mail_gateway.Disposition.{
  Disposition, Outcome, quarantined, rejected, is_final, is_hard_gate_reason,
  is_allowlist_override_blocked_reason, pending_approval,
}
use sentinel_mail_gateway.Disposition.Reasons.{allowlist_blocked_of_hard_gate}
use sentinel_mail_gateway.Reputation.{apply_rspamd_sender_blocklist, apply_reputation_blocklist}
use sentinel_mail_gateway.Brand.Score.{apply_brand_impersonation_detection}
use sentinel_mail_gateway.Threat.{apply_common_scam_detection, apply_threat_signal_disposition}
use sentinel_mail_gateway.ThreatIntel.{apply_cached_threat_intelligence}
use sentinel_mail_gateway.Decision.{
  apply_sender_list_action, Match, apply_learned_classification, apply_quarantine_first,
  apply_challenge_response_hold_enabled,
}
use sentinel_mail_gateway.Decision.Stages.{
  Lookups, blacklist_applies, challenge_enabled, screen, apply_learned, check_senders,
  check_contents, apply_preferences, decide_disposition,
}

-- Rejected, or quarantined for a reason that no list and no feedback overrides.
unfoldable pub IsHeld : Outcome → Type 0
IsHeld (d, reason) = (d ≡ rejected) ⊎ ((d ≡ quarantined) × (is_hard_gate_reason reason ≡ true))

-- The same after the recipient's feedback, which may give its own reason.
IsLocked : Outcome → Type 0
IsLocked (d, reason) =
    (d ≡ rejected) ⊎ ((d ≡ quarantined) × (is_allowlist_override_blocked_reason reason ≡ true))

apply_sender_list_action-IsHeld :
    (d : Disposition) (reason action : String) (enabled : Bool)
    → IsHeld (d, reason)
    → IsHeld (apply_sender_list_action (d, reason) action enabled)
unfolding apply_sender_list_action IsHeld
apply_sender_list_action-IsHeld d reason action enabled h =
    ground (arith, allowlist_blocked_of_hard_gate reason)

apply_rspamd_sender_blocklist-IsHeld :
    (d : Disposition) (reason : String) (ev : Event)
    → IsHeld (d, reason)
    → IsHeld (apply_rspamd_sender_blocklist (d, reason) ev)
unfolding apply_rspamd_sender_blocklist IsHeld
apply_rspamd_sender_blocklist-IsHeld d reason ev h = ground arith

-- A stage that skips a final disposition keeps it.
is_final_of_IsHeld : (d : Disposition) (reason : String) → IsHeld (d, reason) → is_final d ≡ true
unfolding IsHeld
is_final_of_IsHeld d reason h = ground arith

pending-IsHeld : is_hard_gate_reason pending_approval ≡ true
unfolding is_hard_gate_reason has_prefix
pending-IsHeld = refl

phishing_reason :
    is_allowlist_override_blocked_reason "user classified similar mail as phishing" ≡ true
unfolding is_allowlist_override_blocked_reason has_prefix
phishing_reason = refl

malware_reason :
    is_allowlist_override_blocked_reason "user classified similar mail as malware" ≡ true
unfolding is_allowlist_override_blocked_reason has_prefix
malware_reason = refl

learned_reason :
    (verdict : String)
    → (str_eq verdict "phishing" || str_eq verdict "malware") ≡ true
    → is_allowlist_override_blocked_reason ("user classified similar mail as " ++ verdict) ≡ true
learned_reason verdict h = elim (Bool-cases (str_eq verdict "phishing")) [
  | inl e ↦ rw ((str_eq_iff _ _).0 e) phishing_reason
  | inr e ↦
      let same : str_eq verdict "malware" ≡ true = ground arith in
      rw ((str_eq_iff _ _).0 same) malware_reason
]

apply_learned-IsLocked :
    (d : Disposition) (reason : String) (learned : Option Match)
    → IsHeld (d, reason)
    → IsLocked (apply_learned (d, reason) learned)
unfolding apply_learned apply_learned_classification IsHeld IsLocked
apply_learned-IsLocked d reason none h = ground (arith, allowlist_blocked_of_hard_gate reason)
apply_learned-IsLocked d reason (some learned) h =
    ground (arith, allowlist_blocked_of_hard_gate reason, learned_reason learned.verdict)

apply_sender_list_action-IsLocked :
    (d : Disposition) (reason action : String) (enabled : Bool)
    → IsLocked (d, reason)
    → IsLocked (apply_sender_list_action (d, reason) action enabled)
unfolding apply_sender_list_action IsLocked
apply_sender_list_action-IsLocked d reason action enabled h = ground arith

apply_quarantine_first-is_final :
    (d : Disposition) (reason : String) (ev : Event)
    → IsLocked (d, reason)
    → is_final ((apply_quarantine_first (d, reason) ev).0) ≡ true
unfolding apply_quarantine_first IsLocked
apply_quarantine_first-is_final d reason ev h = ground arith

module _ (platform : Platform) (pol : Policy) where
  apply_challenge_response_hold-IsHeld :
      (d : Disposition) (reason action : String) (enabled : Bool) (ev : Event)
      → IsHeld (d, reason)
      → IsHeld (apply_challenge_response_hold_enabled platform (d, reason) pol action enabled ev)
  unfolding apply_challenge_response_hold_enabled IsHeld
  apply_challenge_response_hold-IsHeld d reason action enabled ev h = ground (arith, pending-IsHeld)

  apply_reputation_blocklist_of_final :
      (d : Disposition) (reason : String) (ev : Event)
      → is_final d ≡ true
      → apply_reputation_blocklist (d, reason) ev ≡ (d, reason)
  unfolding apply_reputation_blocklist
  apply_reputation_blocklist_of_final d reason ev h = rw h

  apply_cached_of_final :
      (lookups : Lookups) (d : Disposition) (reason : String) (ev : Event)
      → is_final d ≡ true
      → apply_cached_threat_intelligence platform lookups.cached lookups.cached_enforcement
          (d, reason)
          ev
        ≡ ((d, reason), ev)
  unfolding apply_cached_threat_intelligence
  apply_cached_of_final lookups d reason ev h = rw h

  check_contents_of_final :
      (lookups : Lookups) (action : String) (d : Disposition) (reason : String) (ev : Event)
      → is_final d ≡ true
      → check_contents platform pol lookups action (d, reason) ev ≡ (d, reason)
  unfolding check_contents apply_common_scam_detection apply_brand_impersonation_detection
      apply_threat_signal_disposition
  check_contents_of_final lookups action d reason ev h = simp h

  check_senders-IsHeld :
      (lookups : Lookups) (action : String) (d : Disposition) (reason : String) (ev : Event)
      → IsHeld (d, reason)
      → IsHeld ((check_senders platform pol lookups action (d, reason) ev).0)
  unfolding check_senders
  check_senders-IsHeld lookups action d reason ev h =
      let listed = apply_sender_list_action (d, reason) action (blacklist_applies pol lookups) in
      let blocked = apply_rspamd_sender_blocklist listed ev in
      let held =
        apply_rspamd_sender_blocklist-IsHeld (listed.0) (listed.1) ev
          (apply_sender_list_action-IsHeld d reason action (blacklist_applies pol lookups) h) in
      let final = is_final_of_IsHeld (blocked.0) (blocked.1) held in
      rw
        (
          apply_reputation_blocklist_of_final (blocked.0) (blocked.1) ev final,
          apply_cached_of_final lookups (blocked.0) (blocked.1) ev final,
        )
        held

  apply_preferences-is_final :
      (lookups : Lookups) (action : String) (d : Disposition) (reason : String) (ev : Event)
      → IsHeld (d, reason)
      → is_final ((apply_preferences platform pol lookups action (d, reason) ev).0) ≡ true
  unfolding apply_preferences
  apply_preferences-is_final lookups action d reason ev h =
      let blacklist = blacklist_applies pol lookups in
      let enabled = challenge_enabled pol lookups in
      let listed = apply_sender_list_action (d, reason) action blacklist in
      let held = apply_challenge_response_hold_enabled platform listed pol action enabled ev in
      let learned = apply_learned held lookups.learned in
      let relisted = apply_sender_list_action learned action blacklist in
      apply_quarantine_first-is_final (relisted.0) (relisted.1) ev (
        apply_sender_list_action-IsLocked (learned.0) (learned.1) action blacklist (
          apply_learned-IsLocked (held.0) (held.1) lookups.learned (
            apply_challenge_response_hold-IsHeld (listed.0) (listed.1) action enabled ev
              (apply_sender_list_action-IsHeld d reason action blacklist h))))

  -- A mail that is held behind the sender checks is not delivered, whatever its contents, the
  -- recipient's lists and settings, and the feedback say.
  pub after_senders-is_final :
      (lookups : Lookups) (action : String) (ev : Event)
      → IsHeld
          ((check_senders platform pol lookups action (screen platform pol lookups action ev) ev).0)
      → is_final ((decide_disposition platform pol lookups action ev).0.0) ≡ true
  unfolding decide_disposition
  after_senders-is_final lookups action ev held =
      let (checked, ev') =
        check_senders platform pol lookups action (screen platform pol lookups action ev) ev in
      let final = is_final_of_IsHeld (checked.0) (checked.1) held in
      rw (check_contents_of_final lookups action (checked.0) (checked.1) ev' final)
        (apply_preferences-is_final lookups action (checked.0) (checked.1) ev' held)

  -- The same for a mail that is held behind the sender authentication.
  pub after_screen-is_final :
      (lookups : Lookups) (action : String) (ev : Event)
      → IsHeld (screen platform pol lookups action ev)
      → is_final ((decide_disposition platform pol lookups action ev).0.0) ≡ true
  after_screen-is_final lookups action ev h =
      let o = screen platform pol lookups action ev in
      after_senders-is_final lookups action ev
        (check_senders-IsHeld lookups action (o.0) (o.1) ev h)

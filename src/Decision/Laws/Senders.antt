-- ===== src/Decision/Laws/Senders.antt =====
-- Known bad senders and values.
use Prim.Native.String.{◌++◌}
use text.Mathlib.TextLemmas.{append_assoc}
use sentinel_mail_gateway.Prelude.{
  String, Bool, true, ◌≡◌, ◌⊎◌, inl, inr, refl, arith, Option, some, Option-cases,
}
use sentinel_mail_gateway.Strings.{has_prefix}
use sentinel_mail_gateway.Strings.Laws.{has_prefix-append}
use sentinel_mail_gateway.Platform.{Platform}
use sentinel_mail_gateway.Event.{Event, has_symbol}
use sentinel_mail_gateway.Policy.{Policy}
use sentinel_mail_gateway.Disposition.{Disposition, Outcome, is_final, is_hard_gate_reason}
use sentinel_mail_gateway.Reputation.{
  has_reputation_blocklist_hit, apply_rspamd_sender_blocklist, apply_reputation_blocklist,
}
use sentinel_mail_gateway.ThreatIntel.{
  Kind, FeedResult, first_hit, threat_candidates, apply_cached_threat_intelligence,
}
use sentinel_mail_gateway.Decision.{apply_sender_list_action}
use sentinel_mail_gateway.Decision.Stages.{
  Lookups, screen, check_senders, blacklist_applies, decide_disposition,
}
use sentinel_mail_gateway.Decision.Stages.Held.{IsHeld, after_senders-is_final}
use sentinel_mail_gateway.Decision.Laws.{screen-IsHeld}

-- What is stopped so far is stopped for a hard reason.
abbrev HeldIfFinal : Outcome → Type 0
HeldIfFinal o = is_final (o.0) ≡ true → IsHeld o

sender_list-HeldIfFinal :
    (d : Disposition) (reason action : String) (enabled : Bool)
    → HeldIfFinal (d, reason)
    → HeldIfFinal (apply_sender_list_action (d, reason) action enabled)
unfolding apply_sender_list_action IsHeld
sender_list-HeldIfFinal d reason action enabled h final = ground arith

rspamd-HeldIfFinal :
    (d : Disposition) (reason : String) (ev : Event)
    → HeldIfFinal (d, reason)
    → HeldIfFinal (apply_rspamd_sender_blocklist (d, reason) ev)
unfolding apply_rspamd_sender_blocklist IsHeld
rspamd-HeldIfFinal d reason ev h final = ground arith

hard_reputation : is_hard_gate_reason "reputation blocklist hit" ≡ true
unfolding is_hard_gate_reason has_prefix
hard_reputation = refl

reputation-HeldIfFinal :
    (d : Disposition) (reason : String) (ev : Event)
    → HeldIfFinal (d, reason)
    → HeldIfFinal (apply_reputation_blocklist (d, reason) ev)
unfolding apply_reputation_blocklist IsHeld
reputation-HeldIfFinal d reason ev h final = ground (arith, hard_reputation)

hard_cached :
    (source : String) → is_hard_gate_reason ("cached threat intelligence hit: " ++ source) ≡ true
unfolding is_hard_gate_reason
hard_cached source =
    let split : "cached threat intelligence hit: " ++ source
        ≡ "cached threat intelligence hit:" ++ (" " ++ source) =
      append_assoc "cached threat intelligence hit:" " " source in
    let prefixed : has_prefix ("cached threat intelligence hit: " ++ source)
          "cached threat intelligence hit:"
        ≡ true =
      rw split (has_prefix-append "cached threat intelligence hit:" (" " ++ source)) in
    ground arith

module _ (platform : Platform) where
  cached-HeldIfFinal :
      (cached : Kind → String → Option FeedResult) (enabled : Bool) (d : Disposition)
      (reason : String) (ev : Event)
      → HeldIfFinal (d, reason)
      → HeldIfFinal ((apply_cached_threat_intelligence platform cached enabled (d, reason) ev).0)
  unfolding apply_cached_threat_intelligence IsHeld
  cached-HeldIfFinal cached enabled d reason ev h final =
      elim (Option-cases (first_hit cached (threat_candidates platform ev))) [
        | inl e ↦ ground arith
        | inr (source, e) ↦ ground (arith, hard_cached source)
      ]

  module _ (pol : Policy) (lookups : Lookups) (action : String) (ev : Event) where
    -- Rspamd's sender blacklist, a blocklist hit, or, where it is enforced, a cached feed hit
    unfoldable pub IsBadSender : Type 0
    IsBadSender =
        (has_symbol ev.symbols "SMG_SENDER_BLACKLIST" ≡ true)
        ⊎ ((has_reputation_blocklist_hit ev ≡ true)
            ⊎ ((lookups.cached_enforcement ≡ true)
                × ((source : String) × (first_hit lookups.cached (threat_candidates platform ev)
                      ≡ some source))))

    check_senders-HeldIfFinal :
        HeldIfFinal
          ((check_senders platform pol lookups action (screen platform pol lookups action ev) ev).0)
    unfolding check_senders
    check_senders-HeldIfFinal =
        let o = screen platform pol lookups action ev in
        let applies = blacklist_applies pol lookups in
        let listed = apply_sender_list_action o action applies in
        let blocked = apply_rspamd_sender_blocklist listed ev in
        let reputed = apply_reputation_blocklist blocked ev in
        cached-HeldIfFinal lookups.cached lookups.cached_enforcement (reputed.0) (reputed.1) ev (
          reputation-HeldIfFinal (blocked.0) (blocked.1) ev (
            rspamd-HeldIfFinal (listed.0) (listed.1) ev (
              sender_list-HeldIfFinal (o.0) (o.1) action applies
                (screen-IsHeld platform pol lookups action ev))))

    check_senders-is_final :
        (o : Outcome)
        → IsBadSender
        → is_final ((check_senders platform pol lookups action o ev).0.0) ≡ true
    unfolding check_senders IsBadSender apply_rspamd_sender_blocklist apply_reputation_blocklist
        apply_cached_threat_intelligence
    check_senders-is_final o (inl e) = ground arith
    check_senders-is_final o (inr (inl e)) = ground arith
    check_senders-is_final o (inr (inr (enforced, (source, e)))) = ground arith

    -- A mail with a bad sender symbol, a counted blocklist hit or an enforced feed hit is
    -- delivered or tagged under no policy, list entry, setting or feedback.
    pub decide_disposition-IsBadSender :
        IsBadSender → is_final ((decide_disposition platform pol lookups action ev).0.0) ≡ true
    decide_disposition-IsBadSender bad =
        after_senders-is_final platform pol lookups action ev
          (check_senders-HeldIfFinal (check_senders-is_final _ bad))

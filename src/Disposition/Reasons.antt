-- ===== src/Disposition/Reasons.antt =====
-- The two classes of protected reasons.
use sentinel_mail_gateway.Prelude.{String, ◌≡◌, true, arith}
use sentinel_mail_gateway.Disposition.{is_hard_gate_reason, is_allowlist_override_blocked_reason}

-- A reason that holds against a learned "not spam" verdict also holds against the allowlist.
pub allowlist_blocked_of_hard_gate :
    (reason : String)
    → is_hard_gate_reason reason ≡ true
    → is_allowlist_override_blocked_reason reason ≡ true
unfolding is_hard_gate_reason is_allowlist_override_blocked_reason
allowlist_blocked_of_hard_gate reason h = ground arith

-- ===== src/Disposition/Tests.antt =====
-- An input at which the theorem on the protected reasons applies.
use sentinel_mail_gateway.Strings.{has_prefix}
use sentinel_mail_gateway.Prelude.{◌≡◌, refl, true}
use sentinel_mail_gateway.Disposition.{is_hard_gate_reason}

test_hard : is_hard_gate_reason "sender failed DMARC reject policy" ≡ true
unfolding is_hard_gate_reason has_prefix
test_hard = refl

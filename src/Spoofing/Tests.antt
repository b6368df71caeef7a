-- ===== src/Spoofing/Tests.antt =====
-- Runs of Analyze of internal/spoofing/spoofing.go, as its own tests have them.
use sentinel_mail_gateway.Strings.{contains, lower, trim_space, upper}
use sentinel_mail_gateway.Prelude.{◌≡◌, refl, [], ◌∷◌, none, some}
use sentinel_mail_gateway.Event.{Value.{null}}
use sentinel_mail_gateway.Spoofing.{analyze}

test_reason :
    (analyze " sender failed dmarc reject policy" none).signals ≡ "DMARC reject policy failed" ∷ []
unfolding analyze contains lower trim_space
test_reason = refl

test_symbols :
    (analyze "sender failed DMARC reject policy"
      (some (("r_dkim_reject", null) ∷ ("DMARC_POLICY_REJECT", null) ∷ []))).signals
    ≡ "DMARC reject policy failed" ∷ "DKIM failed" ∷ []
unfolding analyze contains lower trim_space upper
test_symbols = refl

test_allow : (analyze "" (some (("R_SPF_ALLOW", null) ∷ []))).status ≡ "authenticated"
unfolding analyze contains lower trim_space upper
test_allow = refl

test_na : (analyze "" (some (("MIME_TRACE", null) ∷ ("R_SPF_NA", null) ∷ []))).status ≡ "missing"
unfolding analyze contains lower trim_space upper
test_na = refl

-- ===== src/Policy/Tests.antt =====
-- A run of the campaign threshold, and an input at which its bounds apply.
use sentinel_mail_gateway.Strings.{trim_space}
use sentinel_mail_gateway.Prelude.{◌≡◌, refl}
use sentinel_mail_gateway.Samples.{common_policy}
use sentinel_mail_gateway.Event.{str, field, end}
use sentinel_mail_gateway.Policy.{Policy, campaign_threshold}

abbrev huge_threshold : Policy
huge_threshold = record common_policy { settings = field "campaign_threshold" (str "99999999") end }

test_huge_threshold : campaign_threshold huge_threshold ≡ 25
unfolding campaign_threshold trim_space
test_huge_threshold = refl

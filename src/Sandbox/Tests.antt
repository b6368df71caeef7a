-- ===== src/Sandbox/Tests.antt =====
-- An input at which the theorem on the chosen links applies.
use sentinel_mail_gateway.Strings.{contains_any, has_prefix, lower, trim_space}
use sentinel_mail_gateway.Prelude.{◌≤◌, ◌≡◌, refl, [], ◌∷◌, length, All}
use sentinel_mail_gateway.Samples.{small_platform, plain_mail}
use sentinel_mail_gateway.Sandbox.{prioritized_sandbox_urls}
use sentinel_mail_gateway.Sandbox.Laws.{IsTarget, prioritized_sandbox_urls-IsTarget}

test_prioritized :
    prioritized_sandbox_urls small_platform "" plain_mail.urls ≡ "https://pay.example/login" ∷ []
unfolding prioritized_sandbox_urls has_prefix lower trim_space contains_any
test_prioritized = refl

prioritized_sandbox_urls-IsTarget_example :
    (length (prioritized_sandbox_urls small_platform "" plain_mail.urls) ≤ 3)
    × All
        (IsTarget small_platform "" plain_mail.urls)
        (prioritized_sandbox_urls small_platform "" plain_mail.urls)
prioritized_sandbox_urls-IsTarget_example =
    prioritized_sandbox_urls-IsTarget small_platform "" plain_mail.urls

-- ===== src/Policy/Laws.antt =====
-- Bounds and defaults of the settings.
use sentinel_mail_gateway.Prelude.{◌≤◌, arith}
use sentinel_mail_gateway.Policy.{Policy, campaign_threshold}

-- Whatever JSON the settings hold, the campaign threshold lies between 2 and 10,000.
pub campaign_threshold_bounds :
    (p : Policy) → (2 ≤ campaign_threshold p) × (campaign_threshold p ≤ 10000)
unfolding campaign_threshold
campaign_threshold_bounds p = ground arith

-- ===== src/MailAuth/Tests.antt =====
-- Inputs at which the theorems on authentication apply.
use sentinel_mail_gateway.Prelude.{false, ◌≡◌, refl}
use sentinel_mail_gateway.Strings.{equal_fold, trim_space}
use sentinel_mail_gateway.Samples.{small_platform, plain_mail}
use sentinel_mail_gateway.MailAuth.{
  is_delivery_status_notification, has_delivery_status_notification_symbol, raw_message_looks_dsn,
}

test_outbound : equal_fold "inbound" "outbound" ≡ false
unfolding equal_fold
test_outbound = refl

test_mail : is_delivery_status_notification small_platform plain_mail ≡ false
unfolding is_delivery_status_notification equal_fold has_delivery_status_notification_symbol
    raw_message_looks_dsn trim_space
test_mail = refl

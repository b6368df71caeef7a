-- ===== src/Threat/Tests.antt =====
-- An input at which the theorem on the order of the symbols applies.
use sentinel_mail_gateway.Prelude.{String, ◌≡◌, refl, [], ◌∷◌, pos}
use sentinel_mail_gateway.Strings.{upper, contains, trim_space}
use sentinel_mail_gateway.Samples.{small_platform, plain_mail, common_policy}
use sentinel_mail_gateway.Event.{Value, num, obj, field, end, symbol_score}
use sentinel_mail_gateway.Disposition.{delivered, tagged, quarantined}
use sentinel_mail_gateway.Threat.{
  apply_threat_signal_disposition, is_generic_phishing_heuristic_symbol,
}
use sentinel_mail_gateway.Threat.Order.{
  ReportsPhishing, ReportsVirus, apply_threat_signal_disposition-order,
}

abbrev phish : String × Value
phish = ("PHISHED_PAGE", obj (field "score" (num (pos 4000)) end))

abbrev infected : String × Value
infected = ("CLAM_VIRUS", obj (field "score" (num (pos 4000)) end))

test_phish : ReportsPhishing phish
unfolding upper contains symbol_score is_generic_phishing_heuristic_symbol trim_space
test_phish = (refl, refl, refl)

test_infected : ReportsVirus infected
unfolding upper contains symbol_score
test_infected = (refl, refl, refl)

apply_threat_signal_disposition-order_example :
    (apply_threat_signal_disposition small_platform
        (delivered, "")
        common_policy
        (record plain_mail { symbols = phish ∷ infected ∷ [] })
      ≡ (tagged, "phishing signal hit"))
    × (apply_threat_signal_disposition small_platform
          (delivered, "")
          common_policy
          (record plain_mail { symbols = infected ∷ phish ∷ [] })
        ≡ (quarantined, "malware signal hit"))
apply_threat_signal_disposition-order_example =
    apply_threat_signal_disposition-order small_platform plain_mail common_policy phish infected []
      "" test_phish test_infected

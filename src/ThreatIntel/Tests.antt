-- ===== src/ThreatIntel/Tests.antt =====
-- An input at which the theorem on the candidates applies.
use sentinel_mail_gateway.Prelude.{◌≤◌, ◌≢◌, [], length, All}
use sentinel_mail_gateway.Samples.{small_platform, plain_mail}
use sentinel_mail_gateway.ThreatIntel.{ThreatCandidate, threat_candidates}
use sentinel_mail_gateway.ThreatIntel.Laws.{Fresh, threat_candidates_bounds}

threat_candidates_bounds_example :
    (length (threat_candidates small_platform plain_mail) ≤ 8)
    × All (λ (c : ThreatCandidate). c.value ≢ "") (threat_candidates small_platform plain_mail)
    × Fresh [] (threat_candidates small_platform plain_mail)
threat_candidates_bounds_example = threat_candidates_bounds small_platform plain_mail

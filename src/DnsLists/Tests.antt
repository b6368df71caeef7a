-- ===== src/DnsLists/Tests.antt =====
-- A list that answers with a listing and with an error code.
use sentinel_mail_gateway.Prelude.{
  String, true, ◌≡◌, refl, Option, none, some, [], ◌∷◌, str_eq, if◌then◌else◌,
}
use sentinel_mail_gateway.DnsLists.{Ip4, not_found, addresses, dnsbl_listed, lookup_answer, failure}
use sentinel_mail_gateway.DnsLists.Laws.{is_miss}

abbrev listing : Ip4
listing = record { a = 127; b = 0; c = 0; d = 4 }

abbrev rate_limit : Ip4
rate_limit = record { a = 127; b = 255; c = 255; d = 254 }

abbrev parse : String → Option Ip4
parse s =
    if str_eq s "127.0.0.4"
    then some listing
    else if str_eq s "127.255.255.254"
    then some rate_limit
    else none

test_rate_limit : lookup_answer (dnsbl_listed parse) (addresses ("127.255.255.254" ∷ [])) ≡ failure
unfolding lookup_answer dnsbl_listed
test_rate_limit = refl

test_miss : is_miss (lookup_answer (dnsbl_listed parse) not_found) ≡ true
unfolding lookup_answer
test_miss = refl

-- ===== src/DnsLists.antt =====
-- internal/threatfeed/codes.go and dnsbl.go: the answers of DNS reputation lists. `parse_ip4` is
-- net.ParseIP with To4, and a resolver's answer is an argument.
pub mod Laws
pub mod Tests
use sentinel_mail_gateway.Prelude.{
  ℕ, String, Bool, true, false, not, ◌&&◌, Option, none, some, List, [], ◌∷◌, leb, ◌==◌,
  if◌then◌else◌,
}

pub record Ip4 : Type 0 where
  pub a : ℕ
  pub b : ℕ
  pub c : ℕ
  pub d : ℕ

-- Why an answer is no listing; the code's error text tells these apart.
pub data CodeError : Type 0 where
  not_ipv4 outside_loopback list_error unrecognized : CodeError

-- `(true, nil)`, `(false, err)` and `(false, nil)`
pub data Verdict : Type 0 where
  listed : Verdict
  refused : CodeError → Verdict
  not_listed : Verdict

-- net.Resolver.LookupHost: NXDOMAIN, another error, or the addresses
pub data Answer : Type 0 where
  not_found unreachable : Answer
  addresses : List String → Answer

-- what Lookup returns: a hit, a miss, or an error, which the registry logs before it goes on to the
-- next feed
pub data FeedOutcome : Type 0 where
  hit miss failure : FeedOutcome

module _ (parse_ip4 : String → Option Ip4) where
  unfoldable pub dnsbl_listed : String → Verdict
  dnsbl_listed addr = elim (parse_ip4 addr) [
    | none ↦ refused not_ipv4
    | some ip ↦
        if not (ip.a == 127)
        then refused outside_loopback
        else if ip.b == 255 && ip.c == 255
        then refused list_error
        else if ip.b == 0 && (ip.c == 0 && (leb 2 ip.d && leb ip.d 11))
        then listed
        else refused unrecognized
  ]

  unfoldable pub domainbl_listed : String → Verdict
  domainbl_listed addr = elim (parse_ip4 addr) [
    | none ↦ refused not_ipv4
    | some ip ↦
        if not (ip.a == 127)
        then refused outside_loopback
        else if ip.b == 255 && ip.c == 255
        then refused list_error
        else if ip.b == 0 && (ip.c == 1 && (not (ip.d == 255) && leb 2 ip.d))
        then listed
        else refused unrecognized
  ]

abbrev pub or_first : Option CodeError → CodeError → Option CodeError
or_first none e = some e
or_first (some first) e = some first

-- the loop of `firstListed`; `first` is firstErr
unfoldable pub first_listed : (String → Verdict) → Option CodeError → List String → Verdict
first_listed classify none [] = not_listed
first_listed classify (some e) [] = refused e
first_listed classify first (addr ∷ addrs) = elim (classify addr) [
  | listed ↦ listed
  | refused e ↦ first_listed classify (or_first first e) addrs
  | not_listed ↦ first_listed classify first addrs
]

-- DNSBL.Lookup behind the query, for the classifier of its list
unfoldable pub lookup_answer : (String → Verdict) → Answer → FeedOutcome
unfolding first_listed
lookup_answer classify not_found = miss
lookup_answer classify unreachable = failure
lookup_answer classify (addresses addrs) = elim (first_listed classify none addrs) [
  | listed ↦ hit
  | refused e ↦ failure
  | not_listed ↦ miss
]

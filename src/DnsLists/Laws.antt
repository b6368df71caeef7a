-- ===== src/DnsLists/Laws.antt =====
-- Which answers of a list are a hit, a miss, and an error.
use sentinel_mail_gateway.Prelude.{
  String, Bool, true, false, ◌&&◌, ◌||◌, ◌≡◌, inl, inr, refl, arith, Option, none, some, List, [],
  ◌∷◌, any, leb, ◌==◌, Option-cases, ==_iff,
}
use sentinel_mail_gateway.DnsLists.{
  Ip4, Verdict, listed, refused, not_listed, Answer, not_found, unreachable, addresses, FeedOutcome,
  hit, miss, dnsbl_listed, or_first, first_listed, lookup_answer,
}

-- a documented listing of an IP list, 127.0.0.2 to 127.0.0.11
abbrev pub is_ip_listing : Option Ip4 → Bool
is_ip_listing none = false
is_ip_listing (some ip) = ip.a == 127 && (ip.b == 0 && (ip.c == 0 && (leb 2 ip.d && leb ip.d 11)))

abbrev is_listed : Verdict → Bool
is_listed listed = true
is_listed _ = false

abbrev is_open : Verdict → Bool
is_open not_listed = true
is_open _ = false

abbrev pub is_hit : FeedOutcome → Bool
is_hit hit = true
is_hit _ = false

abbrev pub is_miss : FeedOutcome → Bool
is_miss miss = true
is_miss _ = false

abbrev pub has_answer : Answer → Bool
has_answer not_found = false
has_answer unreachable = true
has_answer (addresses []) = false
has_answer (addresses (x ∷ xs)) = true

first_listed-is_listed :
    (classify : String → Verdict) (first : Option _) (addrs : List String)
    → is_listed (first_listed classify first addrs) ≡ any (λ s. is_listed (classify s)) addrs
unfolding first_listed
first_listed-is_listed classify none [] = refl
first_listed-is_listed classify (some e) [] = refl
first_listed-is_listed classify first (s ∷ addrs) =
    elim (classify s)
      as (λ v.
        is_listed (elim v [
          | listed ↦ listed
          | refused e ↦ first_listed classify (or_first first e) addrs
          | not_listed ↦ first_listed classify first addrs
        ])
        ≡ (is_listed v || any (λ s. is_listed (classify s)) addrs)) [
          | listed ↦ refl
          | refused e ↦ first_listed-is_listed classify (or_first first e) addrs
          | not_listed ↦ first_listed-is_listed classify first addrs
        ]

module _ (parse_ip4 : String → Option Ip4) where
  is_listed-dnsbl_listed :
      (addr : String) → is_listed (dnsbl_listed parse_ip4 addr) ≡ is_ip_listing (parse_ip4 addr)
  unfolding dnsbl_listed
  is_listed-dnsbl_listed addr = elim (Option-cases (parse_ip4 addr)) [
    | inl e ↦ rw (e, dnsbl_listed) refl
    | inr (ip, e) ↦ rw (e, dnsbl_listed) (ground (arith, ==_iff ip.b 0, ==_iff ip.b 255))
  ]

  any_listing :
      (addrs : List String)
      → any (λ s. is_listed (dnsbl_listed parse_ip4 s)) addrs
        ≡ any (λ s. is_ip_listing (parse_ip4 s)) addrs
  any_listing [] = refl
  any_listing (s ∷ addrs) = cc (is_listed-dnsbl_listed s, any_listing addrs)

  -- Whatever error codes a list mixes in, an IP address is a hit exactly when some answer lies in
  -- the documented range 127.0.0.2 to 127.0.0.11.
  pub lookup_answer-is_hit :
      (addrs : List String)
      → is_hit (lookup_answer (dnsbl_listed parse_ip4) (addresses addrs))
        ≡ any (λ s. is_ip_listing (parse_ip4 s)) addrs
  unfolding lookup_answer
  lookup_answer-is_hit addrs =
      ground (arith, first_listed-is_listed (dnsbl_listed parse_ip4) none addrs, any_listing addrs)

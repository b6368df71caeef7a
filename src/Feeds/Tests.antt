-- ===== src/Feeds/Tests.antt =====
-- Runs of the registry and of the URLhaus list.
use sentinel_mail_gateway.Strings.{has_prefix, lower, trim_space}
use sentinel_mail_gateway.Prelude.{
  String, true, false, ◌≡◌, refl, none, some, List, [], ◌∷◌, inl, inr,
}
use sentinel_mail_gateway.ThreatIntel.{domain, FeedResult, kind_text}
use sentinel_mail_gateway.Feeds.{
  no_hit, Slot, Feed, lookup, lookup_cached, response, refresh, urlhaus_lookup, warm,
}

abbrev digest : String → String
digest text = text

abbrev listed : FeedResult
listed = record { hit = true; source = "dbl" }

abbrev broken : Feed
broken = record { name = "zen"; kind = domain; config = none; ask = λ value. inl "timeout" }

abbrev feed : Feed
feed = record { name = "dbl"; kind = domain; config = some (true, 0); ask = λ value. inr listed }

abbrev feeds : List Feed
feeds = broken ∷ feed ∷ []

abbrev slot : Slot
slot = record { key = "smg:tf:domain:domain\0bad.example"; text = "hit:dbl"; expires = 21605 }

test_disabled :
    lookup digest 5 domain "bad.example" (record feed { config = some (false, 60) } ∷ []) none
    ≡ inr (no_hit, none)
unfolding lookup lower trim_space kind_text
test_disabled = refl

test_empty : lookup digest 5 domain " ." feeds (some []) ≡ inl "empty value"
unfolding lookup lower trim_space
test_empty = refl

test_expired : lookup_cached digest 21605 domain "bad.example" (some (slot ∷ [])) ≡ none
unfolding lookup_cached lower trim_space kind_text
test_expired = refl

test_warm : warm digest 5 domain "bad.example" feeds (some []) ≡ some (slot ∷ [])
unfolding warm lower trim_space kind_text
test_warm = refl

test_refresh :
    refresh (response 200 ("# list" ∷ " HTTP://Bad.example/x " ∷ "" ∷ []) none)
    ≡ inr ("http://bad.example/x" ∷ [])
unfolding refresh trim_space has_prefix lower
test_refresh = refl

test_refused : refresh (response 200 ("# list" ∷ []) none) ≡ inl "urlhaus: empty payload"
unfolding refresh trim_space has_prefix
test_refused = refl

test_urlhaus :
    (urlhaus_lookup ("http://bad.example/x" ∷ []) "http://BAD.example/x").source ≡ "urlhaus"
unfolding urlhaus_lookup lower
test_urlhaus = refl

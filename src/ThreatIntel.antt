-- ===== src/ThreatIntel.antt =====
-- internal/mail/ingest.go: the values of an event that the threat feeds know, and the stage that
-- quarantines on a cached hit. The cache is a parameter: it is the feed registry's Redis store.
pub mod Tests
pub mod Laws
use Prim.Native.Char.{Char, code}
use Prim.Native.String
use Prim.Native.String.{◌++◌}
use sentinel_mail_gateway.Prelude.{
  ℕ, String, Bool, true, false, not, ◌&&◌, ◌||◌, Option, none, some, List, [], ◌∷◌, ◌++◌ as append,
  any, length, pos, leb, ltb, ◌==◌, str_eq, if◌then◌else◌,
}
use sentinel_mail_gateway.Strings.{upper, lower, trim_space, trim_end}
use sentinel_mail_gateway.Platform.{Platform, Url}
use sentinel_mail_gateway.Event.{Event, Value, num, str, obj, end, field, put_symbol}
use sentinel_mail_gateway.Disposition.{Outcome, quarantined, is_final}
use sentinel_mail_gateway.Reputation.{email_domain}

-- threatfeed.Kind
pub data Kind : Type 0 where
  ip domain url hash brand : Kind

unfoldable pub kind_text : Kind → String
kind_text ip = "ip"
kind_text domain = "domain"
kind_text url = "url"
kind_text hash = "hash"
kind_text brand = "brand"

pub record ThreatCandidate : Type 0 where
  pub kind : Kind
  pub value : String

-- what the closure `add` captures
pub record Found : Type 0 where
  pub seen : List String
  pub out : List ThreatCandidate

abbrev pub max_candidates : ℕ
max_candidates = 8

unfoldable pub candidate_key : Kind → String → String
unfolding kind_text
candidate_key kind value = kind_text kind ++ ("\0" ++ lower value)

-- the closure `add`
unfoldable pub add : Kind → String → Found → Found
add kind value found =
    let value' = trim_space value in
    if str_eq value' ""
      || (any (str_eq (candidate_key kind value')) found.seen
          || leb max_candidates (length found.out))
    then found
    else record {
      seen = candidate_key kind value' ∷ found.seen;
      out = append found.out (record { kind = kind; value = value' } ∷ []);
    }

module _ (platform : Platform) where
  -- the loop's body after the test of the length
  add_url : String → Found → Found
  add_url raw found = elim (platform.parse_url (trim_space raw)) [
    | none ↦ found
    | some u ↦
        if (not (str_eq u.scheme "http") && not (str_eq u.scheme "https"))
          || (str_eq u.hostname "" || u.has_user)
        then found
        else add url u.text (add domain u.hostname found)
  ]

  add_urls : List String → Found → Found
  unfolding add_url
  add_urls [] found = found
  add_urls (raw ∷ urls) found =
      let rest = add_urls urls (add_url raw found) in
      if leb max_candidates (length found.out) then found else rest

  unfoldable pub threat_candidates : Event → List ThreatCandidate
  unfolding add_urls
  threat_candidates ev =
      (add_urls ev.urls (
        add domain (email_domain ev.from)
          (add ip ev.client_ip (record { seen = []; out = [] })))).out

symbol_char : Char → String
symbol_char c =
    let n = code c in
    if (leb 65 n && leb n 90) || (leb 48 n && leb n 57) then String.◌∷◌ c String.[] else "_"

symbol_chars : String → String
symbol_chars String.[] = String.[]
symbol_chars (String.◌∷◌ c s) = symbol_char c ++ symbol_chars s

unfoldable pub threat_feed_symbol : String → String
unfolding symbol_chars symbol_char
threat_feed_symbol source = trim_end ("SMG_TF_" ++ symbol_chars (upper source)) "_"

-- threatfeed.Result, of which the stage reads the hit and the source
pub record FeedResult : Type 0 where
  pub hit : Bool
  pub source : String

-- `map[string]any{"score": 10, "group": "sentinelmail_threat_intel"}`
abbrev feed_value : Value
feed_value =
    obj (field "score" (num (pos 10000)) (field "group" (str "sentinelmail_threat_intel") end))

-- the loop over the candidates: the source of the first hit
unfoldable pub first_hit :
    (Kind → String → Option FeedResult) → List ThreatCandidate → Option String
first_hit cached [] = none
first_hit cached (c ∷ cs) = elim (cached c.kind c.value) [
  | none ↦ first_hit cached cs
  | some result ↦ let rest = first_hit cached cs in if result.hit then some result.source else rest
]

module _ (platform : Platform) where
  -- `cached` is `Feeds.LookupCached`, and `enabled` the system setting, `false` where it cannot be
  -- read or no feed registry is configured. The stage also adds a symbol to the event.
  unfoldable pub apply_cached_threat_intelligence :
      (Kind → String → Option FeedResult) → Bool → Outcome → Event → Outcome × Event
  unfolding first_hit threat_feed_symbol
  apply_cached_threat_intelligence cached enabled (d, reason) ev =
      if is_final d || not enabled
      then ((d, reason), ev)
      else elim (first_hit cached (threat_candidates platform ev)) [
        | none ↦ ((d, reason), ev)
        | some source ↦ (
          (quarantined, "cached threat intelligence hit: " ++ source),
          record ev { symbols = put_symbol (threat_feed_symbol source) feed_value ev.symbols },
        )
      ]

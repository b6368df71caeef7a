-- ===== src/Feeds.antt =====
-- internal/threatfeed/threatfeed.go and urlhaus.go: the registry of feeds with its cache in Redis,
-- and the URLhaus list. Times are in seconds; sha256 and a feed's answer are arguments, and errors
-- of Redis are left out.
pub mod Laws
pub mod Tests
use Prim.Native.String
use Prim.Native.String.{◌++◌}
use sentinel_mail_gateway.Prelude.{
  ℕ, ◌+◌, ◌*◌, String, Bool, true, false, not, ◌&&◌, ◌||◌, Option, none, some, List, [], ◌∷◌, any,
  ltb, ◌==◌, str_eq, if◌then◌else◌, ◌⊎◌, inl, inr,
}
use sentinel_mail_gateway.Strings.{lower, trim_space, trim_prefix, has_prefix}
use sentinel_mail_gateway.ThreatIntel.{Kind, ip, domain, url, hash, brand, kind_text, FeedResult}

abbrev pub no_hit : FeedResult
no_hit = record { hit = false; source = "" }

-- `strings.TrimSuffix(value, ".")`
unfoldable pub trim_dot : String → String
trim_dot String.[] = String.[]
trim_dot (String.◌∷◌ c s) =
    let rest = String.◌∷◌ c (trim_dot s) in if str_eq (String.◌∷◌ c s) "." then String.[] else rest

unfoldable pub normalize_lookup_value : Kind → String → String
unfolding trim_dot
normalize_lookup_value domain value = trim_dot (lower (trim_space value))
normalize_lookup_value _ value = trim_space value

unfoldable pub threat_cache_key : (String → String) → Kind → String → String
threat_cache_key sha256 kind value =
    "smg:tf:" ++ (kind_text kind ++ (":" ++ sha256 (kind_text kind ++ ("\0" ++ value))))

-- a key of Redis
pub record Slot : Type 0 where
  pub key : String
  pub text : String
  pub expires : ℕ

-- `r.rdb`, which may be nil; the slot that was set last comes first
abbrev pub Redis : Type 0
Redis = Option (List Slot)

unfoldable pub get : ℕ → String → List Slot → Option String
get now key [] = none
get now key (s ∷ slots) =
    let rest = get now key slots in
    if str_eq s.key key then (if ltb now s.expires then some s.text else none) else rest

-- "hit:<source>" or "miss"
unfoldable pub cached_result : Option String → Option FeedResult
cached_result none = none
cached_result (some v) =
    if str_eq v ""
    then none
    else if str_eq v "miss"
    then some no_hit
    else if not (has_prefix v "hit:")
    then none
    else some (record { hit = true; source = trim_prefix v "hit:" })

unfoldable pub cache_lookup : ℕ → String → Redis → Option FeedResult
unfolding cached_result get
cache_lookup now key none = none
cache_lookup now key (some slots) = cached_result (get now key slots)

unfoldable pub cached_text : FeedResult → String
cached_text r = if r.hit then "hit:" ++ r.source else "miss"

unfoldable pub cache_store : ℕ → String → FeedResult → ℕ → Redis → Redis
unfolding cached_text
cache_store now key r ttl none = none
cache_store now key r ttl (some slots) =
    some (record { key = key; text = cached_text r; expires = now + ttl } ∷ slots)

-- a feed, the row of threat_feed_config that the query finds (enabled, seconds), and its answer
pub record Feed : Type 0 where
  pub name : String
  pub kind : Kind
  pub config : Option (Bool × ℕ)
  pub ask : String → String ⊎ FeedResult

unfoldable pub refresh_interval : Kind → ℕ
refresh_interval url = 15 * 60
refresh_interval hash = 15 * 60
refresh_interval domain = 30 * 60
refresh_interval ip = 6 * 3600
refresh_interval brand = 3600

unfoldable pub interval_for : Feed → ℕ × Bool
unfolding refresh_interval
interval_for f = elim (f.config) [
  | none ↦ (refresh_interval f.kind, true)
  | some (enabled, secs) ↦ (if secs == 0 then refresh_interval f.kind else secs, enabled)
]

unfoldable pub kind_eq : Kind → Kind → Bool
kind_eq a b = str_eq (kind_text a) (kind_text b)

unfoldable pub is_asked : Kind → Feed → Bool
unfolding kind_eq interval_for
is_asked kind f = kind_eq f.kind kind && (interval_for f).1

unfoldable pub or_hit : String ⊎ FeedResult → Option FeedResult → Option FeedResult
or_hit (inl error) rest = rest
or_hit (inr r) rest = if r.hit then some r else rest

-- the loop over the feeds: the first hit
unfoldable pub ask_feeds : Kind → String → List Feed → Option FeedResult
unfolding is_asked or_hit
ask_feeds kind value [] = none
ask_feeds kind value (f ∷ feeds) =
    let rest = ask_feeds kind value feeds in
    if is_asked kind f then or_hit (f.ask value) rest else rest

unfoldable pub store_answer : ℕ → String → Option FeedResult → Redis → FeedResult × Redis
unfolding cache_store
store_answer now key (some r) redis = (r, cache_store now key r (6 * 3600) redis)
store_answer now key none redis = (no_hit, cache_store now key no_hit (15 * 60) redis)

module _ (sha256 : String → String) where
  unfoldable pub lookup_from :
      ℕ → Kind → String → List Feed → Redis → Option FeedResult → FeedResult × Redis
  unfolding store_answer ask_feeds threat_cache_key
  lookup_from now kind value feeds redis (some r) = (r, redis)
  lookup_from now kind value feeds redis none =
      store_answer now (threat_cache_key sha256 kind value) (ask_feeds kind value feeds) redis

  -- `Lookup`
  unfoldable pub lookup : ℕ → Kind → String → List Feed → Redis → String ⊎ (FeedResult × Redis)
  unfolding lookup_from cache_lookup threat_cache_key normalize_lookup_value
  lookup now kind value feeds redis =
      let v = normalize_lookup_value kind value in
      if str_eq v ""
      then inl "empty value"
      else inr (
          lookup_from now kind v feeds redis
            (cache_lookup now (threat_cache_key sha256 kind v) redis))

  -- `LookupCached`
  unfoldable pub lookup_cached : ℕ → Kind → String → Redis → Option FeedResult
  unfolding cache_lookup threat_cache_key normalize_lookup_value
  lookup_cached now kind value redis =
      let v = normalize_lookup_value kind value in
      if str_eq v "" then none else cache_lookup now (threat_cache_key sha256 kind v) redis

  unfoldable pub redis_after : Redis → String ⊎ (FeedResult × Redis) → Redis
  redis_after redis (inl error) = redis
  redis_after redis (inr (_, next)) = next

  -- `Warm`
  unfoldable pub warm : ℕ → Kind → String → List Feed → Redis → Redis
  unfolding lookup redis_after
  warm now kind value feeds redis = redis_after redis (lookup now kind value feeds redis)

-- what a download gives: no response, or a status, the lines and the scanner's error
pub data Download : Type 0 where
  failed : String → Download
  response : ℕ → List String → Option String → Download

unfoldable pub urls_of : List String → List String
urls_of [] = []
urls_of (text ∷ lines) =
    let line = trim_space text in
    let rest = urls_of lines in
    if str_eq line "" || has_prefix line "#" then rest else lower line ∷ rest

unfoldable pub replace_set : Option String → List String → String ⊎ List String
replace_set (some error) next = inl error
replace_set none [] = inl "urlhaus: empty payload"
replace_set none (u ∷ next) = inr (u ∷ next)

-- `URLhaus.Refresh`: an error, after which the set is as before, or the new set
unfoldable pub refresh : Download → String ⊎ List String
unfolding replace_set urls_of
refresh (failed error) = inl error
refresh (response status lines error) =
    if not (status == 200) then inl "urlhaus: status" else replace_set error (urls_of lines)

-- `URLhaus.Lookup`
unfoldable pub urlhaus_lookup : List String → String → FeedResult
urlhaus_lookup set value =
    if any (str_eq (lower value)) set then record { hit = true; source = "urlhaus" } else no_hit

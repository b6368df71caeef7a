-- ===== src/SenderList.antt =====
-- internal/senderlists/senderlists.go and internal/mail/sender_policy.go: the patterns that an
-- address matches, and the lookup of a sender in the allow and block lists.
pub mod Tests
pub mod Query
pub mod Rules
pub mod Admin
pub mod Laws
use Prim.Native.Char.{code}
use Prim.Native.String
use Prim.Native.String.{◌++◌, count}
use sentinel_mail_gateway.Prelude.{
  ℕ, String, Bool, true, false, not, ◌&&◌, ◌||◌, Option, none, some, List, [], ◌∷◌, ◌++◌ as append,
  any, length, leb, ltb, ◌==◌, str_eq, if◌then◌else◌,
}
use sentinel_mail_gateway.Strings.{lower, trim, trim_space, contains, has_prefix, cut_last}
use sentinel_mail_gateway.Platform.{Platform}

-- the loop of `uniqueLowerStrings`
unique_from : List String → List String → List String
unique_from seen [] = []
unique_from seen (value ∷ values) =
    let value' = lower (trim_space value) in
    let skip = unique_from seen values in
    let take = value' ∷ unique_from (value' ∷ seen) values in
    if str_eq value' "" then skip else if any (str_eq value') seen then skip else take

unfoldable pub unique_lower_strings : List String → List String
unfolding unique_from
unique_lower_strings values = unique_from [] values

unfoldable pub domain_part : String → String
domain_part addr = elim (cut_last "@" addr) [
  | none ↦ lower (trim_space addr)
  | some (_, domain) ↦ lower (trim_space domain)
]

is_alnum : ℕ → Bool
is_alnum n = (leb 97 n && leb n 122) || (leb 48 n && leb n 57)

-- the rest of a label: `last` says whether the character before is a letter or a digit
label_from : Bool → String → Bool
label_from last String.[] = last
label_from last (String.◌∷◌ c s) =
    (is_alnum (code c) || code c == 45) && label_from (is_alnum (code c)) s

-- [a-z0-9](?:[a-z0-9-]{0,61}[a-z0-9])?
is_label : String → Bool
unfolding is_alnum label_from
is_label String.[] = false
is_label (String.◌∷◌ c s) =
    is_alnum (code c) && (label_from true s && leb (count (String.◌∷◌ c s)) 63)

-- the texts between the dots; `label` holds the open one, in order
split_dots : String → String → List String
split_dots label String.[] = label ∷ []
split_dots label (String.◌∷◌ c s) =
    let closed = label ∷ split_dots "" s in
    let longer = split_dots (label ++ (String.◌∷◌ c String.[])) s in
    if code c == 46 then closed else longer

all_labels : List String → Bool
all_labels [] = true
all_labels (l ∷ ls) = is_label l && all_labels ls

-- senderDomainRE.MatchString
unfoldable pub is_sender_domain : String → Bool
unfolding is_label split_dots all_labels
is_sender_domain value =
    let labels = split_dots "" value in leb 2 (length labels) && all_labels labels

-- the loop of `candidateDomains`, along the text: behind each dot stands the next candidate
parents : String → String → List String
parents root String.[] = []
parents root (String.◌∷◌ c s) =
    let rest = parents root s in
    let found = s ∷ (if str_eq s root then [] else rest) in
    if code c == 46 then (if str_eq s "" then [] else found) else rest

-- "*@d", "d" and "@d" for each candidate
domain_patterns : List String → List String
domain_patterns [] = []
domain_patterns (d ∷ ds) = ("*@" ++ d) ∷ d ∷ ("@" ++ d) ∷ domain_patterns ds

module _ (platform : Platform) (etld_plus_one : String → Option String) where
  unfoldable pub normalize_sender : String → String
  normalize_sender value = elim (platform.parse_address (trim_space value)) [
    | none ↦ lower (trim_space (trim_space value))
    | some addr ↦ lower (trim_space (if str_eq addr "" then trim_space value else addr))
  ]

  -- `etld_plus_one` is publicsuffix.EffectiveTLDPlusOne
  unfoldable pub candidate_domains : String → List String
  unfolding parents is_sender_domain unique_lower_strings
  candidate_domains domain =
      let domain' = lower (trim domain ". ") in
      let root : String = elim (etld_plus_one domain') [
        | none ↦ lower domain'
        | some r ↦ lower r
      ] in
      if not (is_sender_domain domain')
      then []
      else unique_lower_strings
          (domain' ∷ (if str_eq domain' root then [] else parents root domain'))

  unfoldable pub patterns_for_address : String → List String
  unfolding domain_patterns candidate_domains normalize_sender
  patterns_for_address value =
      let addr = normalize_sender value in
      let domain = domain_part addr in
      if str_eq addr "" || str_eq domain ""
      then []
      else unique_lower_strings (addr ∷ domain_patterns (candidate_domains domain))

-- What a query gives: an error, or the matched action and scope, both "" where no row matches.
pub data Lookup : Type 0 where
  failed : Lookup
  found : String → String → Lookup

-- the loop of `lookupSenderListWithIP` over the addresses; `scope` is `allowedScope`
unfoldable pub lookup_addresses : (String → Lookup) → String → List String → Lookup
lookup_addresses lookup_address scope [] =
    if str_eq scope "" then found "" "" else found "allow" scope
lookup_addresses lookup_address scope (addr ∷ addrs) = elim (lookup_address addr) [
  | failed ↦ failed
  | found action matched ↦
      let next =
        lookup_addresses lookup_address
          (if str_eq action "allow" && str_eq scope "" then matched else scope) addrs in
      if str_eq action "block" then found action matched else next
]

-- `parseAddressList`
addresses_in : Platform → String → List String
addresses_in platform value =
    let value' = trim_space value in
    if str_eq value' "" then [] else elim (platform.parse_address_list value') [
      | some addrs ↦ addrs
      | none ↦ elim (platform.parse_address value') [
        | some addr ↦ addr ∷ []
        | none ↦ trim value' "<>" ∷ []
      ]
    ]

all_addresses : Platform → List String → List String
all_addresses platform [] = []
all_addresses platform (value ∷ values) =
    append (addresses_in platform value) (all_addresses platform values)

unfoldable pub sender_list_lookup_addresses : Platform → List String → List String
unfolding unique_from all_addresses addresses_in
sender_list_lookup_addresses platform values = unique_from [] (all_addresses platform values)

-- `lookup_ip` and `lookup_address` are the two queries.
unfoldable pub lookup_sender_list_with_ip :
    Platform → (String → Lookup) → (String → Lookup) → String → List String → Lookup
unfolding lookup_addresses sender_list_lookup_addresses
lookup_sender_list_with_ip platform lookup_ip lookup_address client_ip addresses =
    let by_address =
      lookup_addresses lookup_address "" (sender_list_lookup_addresses platform addresses) in
    if str_eq (trim_space client_ip) "" then by_address else elim (lookup_ip client_ip) [
      | failed ↦ failed
      | found action scope ↦ if str_eq action "block" then found action scope else by_address
    ]

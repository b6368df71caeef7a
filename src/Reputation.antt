-- ===== src/Reputation.antt =====
-- internal/mail/ingest.go: blocklist symbols, and when they count.
pub mod Tests
pub mod Laws
use Prim.Native.Char.{code}
use Prim.Native.String
use sentinel_mail_gateway.Prelude.{
  ℕ, String, Bool, true, false, not, ◌&&◌, ◌||◌, Option, none, some, List, [], ◌∷◌, any, pos, ltb_ℤ,
  str_eq, ◌==◌, if◌then◌else◌,
}
use sentinel_mail_gateway.Strings.{
  upper, lower, trim, trim_space, equal_fold, contains_any, has_suffix, cut_last,
}
use sentinel_mail_gateway.Event.{Event, Value, Symbols, symbol_score, symbol_options, has_symbol}
use sentinel_mail_gateway.MailAuth.{auth_signals, AuthSignals}
use sentinel_mail_gateway.Disposition.{Outcome, quarantined, rejected, is_final}

-- the part behind the last "@", without dots around it; "" where there is none
unfoldable pub email_domain : String → String
email_domain addr = elim (cut_last "@" (trim (lower (trim_space addr)) "<>")) [
  | none ↦ ""
  | some (_, domain) ↦ trim domain "."
]

unfoldable pub domains_related : String → String → Bool
domains_related a b =
    let a' = trim (lower a) "." in
    let b' = trim (lower b) "." in
    not (str_eq a' "")
    && (not (str_eq b' "")
        && (str_eq a' b'
            || (has_suffix a' (String.◌++◌ "." b') || has_suffix b' (String.◌++◌ "." a'))))

unfoldable pub is_reputation_lookup_failure_symbol : String → Bool
is_reputation_lookup_failure_symbol symbol =
    has_suffix symbol "_BLOCKED" || contains_any symbol ("_DNSFAIL" ∷ "DNS_ERROR" ∷ "TIMEOUT" ∷ [])

unfoldable pub is_reputation_allow_symbol : String → Bool
is_reputation_allow_symbol symbol = contains_any symbol (
    "WHITELIST" ∷ "MAILCOW_WHITE" ∷ "DNSWL" ∷ "RWL_" ∷ "ALLOWLIST" ∷ "MAILSPIKE_GOOD"
    ∷ "MAILSPIKE_NEUTRAL" ∷ "MAILSPIKE_POSSIBLE" ∷ [])

unfoldable pub is_reputation_block_symbol : String → Bool
is_reputation_block_symbol symbol =
    not (is_reputation_lookup_failure_symbol symbol)
    && contains_any symbol (
        "SPAMHAUS" ∷ "SPAMCOP" ∷ "SURBL" ∷ "URIBL" ∷ "URLHAUS" ∷ "RSPAMD_EMAILBL" ∷ "DBL_" ∷ "SCBL"
        ∷ "MSBL" ∷ "BLACKLIST" ∷ "BLOCKLIST" ∷ "RBL_" ∷ "SEM_URIBL" ∷ "VIRUSFREE" ∷ "BOTNET"
        ∷ "OPENPHISH" ∷ [])

-- the text before the first ":", as strings.Cut gives it
before_colon : String → String
before_colon String.[] = String.[]
before_colon (String.◌∷◌ c s) =
    let rest = before_colon s in if code c == 58 then String.[] else String.◌∷◌ c rest

unfoldable pub listed_domain : String → String
unfolding before_colon
listed_domain option = trim (before_colon (lower (trim_space option))) "."

-- the loop over the options; `matched` is set at the first option that names a domain
all_related : String → List String → Bool → Bool
all_related sender [] matched = matched
all_related sender (option ∷ options) matched =
    let domain = listed_domain option in
    let rest = all_related sender options (if str_eq domain "" then matched else true) in
    if str_eq domain "" || domains_related sender domain then rest else false

unfoldable pub is_authenticated_first_party_url_reputation_hit : String → Value → Event → Bool
unfolding all_related
is_authenticated_first_party_url_reputation_hit symbol value ev =
    equal_fold symbol "RSPAMD_URIBL"
    && ((auth_signals ev.symbols).dmarc_pass
        && (not (str_eq (email_domain ev.from) "")
            && all_related (email_domain ev.from) (symbol_options value) false))

allow_hit : String × Value → Bool
allow_hit s =
    let name = upper (s.0) in
    not (is_reputation_lookup_failure_symbol name) && is_reputation_allow_symbol name

unfoldable pub has_reputation_allowlist_hit : Symbols → Bool
unfolding allow_hit
has_reputation_allowlist_hit symbols = any allow_hit symbols

unfoldable pub is_reputation_hit : Event → String × Value → Bool
is_reputation_hit ev s =
    let name = upper (s.0) in
    is_reputation_block_symbol name
    && (ltb_ℤ (pos 0) (symbol_score (s.1))
        && not (is_authenticated_first_party_url_reputation_hit name (s.1) ev))

unfoldable pub has_reputation_blocklist_hit : Event → Bool
has_reputation_blocklist_hit ev =
    not (has_reputation_allowlist_hit ev.symbols) && any (is_reputation_hit ev) ev.symbols

-- The test of the disposition between the two returns changes nothing.
unfoldable pub apply_rspamd_sender_blocklist : Outcome → Event → Outcome
apply_rspamd_sender_blocklist (d, reason) ev =
    if has_symbol ev.symbols "SMG_SENDER_BLACKLIST"
    then (rejected, "sender matched blacklist")
    else if is_final d
    then (d, reason)
    else (d, reason)

unfoldable pub apply_reputation_blocklist : Outcome → Event → Outcome
apply_reputation_blocklist (d, reason) ev =
    if is_final d
    then (d, reason)
    else if has_reputation_blocklist_hit ev
    then (quarantined, "reputation blocklist hit")
    else (d, reason)

-- ===== src/Reputation/Laws.antt =====
-- What the reputation stage quarantines.
use sentinel_mail_gateway.Prelude.{
  String, true, false, ◌≡◌, ◌↔◌, ◌⊎◌, arith, List, [], ◌∷◌, All, Bool, ◌||◌, not, str_eq,
  str_eq_iff, any, if◌then◌else◌,
}
use sentinel_mail_gateway.Strings.{equal_fold}
use sentinel_mail_gateway.Event.{Event, Value, symbol_options}
use sentinel_mail_gateway.MailAuth.{auth_signals}
use sentinel_mail_gateway.Reputation.{
  domains_related, all_related, listed_domain, email_domain,
  is_authenticated_first_party_url_reputation_hit,
}

-- Each listed domain is "" or related to the sender's.
abbrev pub IsRelated : String → String → Type 0
IsRelated sender option =
    (listed_domain option ≡ "") ⊎ (domains_related sender (listed_domain option) ≡ true)

-- The loop accepts a symbol's options exactly when each names "" or a related domain, and some
-- option, here or before, names a domain.
all_related_iff :
    (sender : String) (options : List String) (matched : Bool)
    → (all_related sender options matched ≡ true) ↔ (
        All (IsRelated sender) options
        × ((matched || any (λ o. not (str_eq (listed_domain o) "")) options) ≡ true))
unfolding all_related
all_related_iff sender [] matched = ground arith
all_related_iff sender (option ∷ options) matched =
    let (to, from) =
      all_related_iff sender options (if str_eq (listed_domain option) "" then matched else true) in
    (
      ground (arith, to, str_eq_iff (listed_domain option) ""),
      ground (arith, from, str_eq_iff (listed_domain option) ""),
    )

-- A blocklist symbol is a first-party hit exactly when it is RSPAMD_URIBL, DMARC passed, the
-- sender has a domain, every domain that the symbol lists is related to the sender's, and it lists
-- one.
pub is_authenticated_first_party_url_reputation_hit_iff :
    (symbol : String) (value : Value) (ev : Event)
    → (is_authenticated_first_party_url_reputation_hit symbol value ev ≡ true) ↔ (
        (equal_fold symbol "RSPAMD_URIBL" ≡ true)
        × ((auth_signals ev.symbols).dmarc_pass ≡ true)
        × (str_eq (email_domain ev.from) "" ≡ false)
        × All (IsRelated (email_domain ev.from)) (symbol_options value)
        × (any (λ o. not (str_eq (listed_domain o) "")) (symbol_options value) ≡ true))
unfolding is_authenticated_first_party_url_reputation_hit
is_authenticated_first_party_url_reputation_hit_iff symbol value ev =
    let (to, from) = all_related_iff (email_domain ev.from) (symbol_options value) false in
    (ground (arith, to), ground (arith, from))

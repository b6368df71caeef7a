-- ===== src/Spoofing.antt =====
-- internal/spoofing/spoofing.go: the warning that is shown beside a stored message. The names of
-- the symbols come in the order of one `range` over a Go map.
pub mod Laws
pub mod Tests
use sentinel_mail_gateway.Prelude.{
  String, Bool, ◌&&◌, ◌||◌, Option, none, some, List, [], ◌∷◌, ◌++◌, any, str_eq, if◌then◌else◌,
}
use sentinel_mail_gateway.Strings.{upper, lower, contains, trim_space}
use sentinel_mail_gateway.Event.{Value, Symbols}

pub record Result : Type 0 where
  pub status : String
  pub warning : String
  pub signals : List String

unfoldable pub names_of : Symbols → List String
names_of [] = []
names_of ((name, _) ∷ symbols) = upper (trim_space name) ∷ names_of symbols

-- `none` is a text that is empty or that json.Unmarshal does not take for an object
unfoldable pub symbol_names : Option Symbols → List String
unfolding names_of
symbol_names none = []
symbol_names (some symbols) = names_of symbols

unfoldable pub has_symbol : List String → String → Bool
has_symbol names want = any (str_eq (upper want)) names

unfoldable pub is_alternative : String → List String → String → Bool
is_alternative required alternatives name =
    contains name (upper required) && any (λ alt. contains name (upper alt)) alternatives

unfoldable pub has_symbol_containing : List String → String → List String → Bool
unfolding is_alternative
has_symbol_containing names required alternatives = any (is_alternative required alternatives) names

unfoldable pub contains_fold : String → String → Bool
contains_fold value substr = contains (lower value) (lower substr)

-- `if test { signals = append(signals, text) }`
unfoldable pub signal : Bool → String → List String
signal test text = if test then text ∷ [] else []

unfoldable pub reason_signals : String → List String
unfolding signal contains_fold
reason_signals reason =
    signal (contains_fold reason "sender failed DMARC reject policy") "DMARC reject policy failed"
    ++ signal (contains_fold reason "sender failed DMARC quarantine policy")
        "DMARC quarantine policy failed"
    ++ signal (contains_fold reason "sender failed SPF/DKIM/DMARC authentication")
        "SPF, DKIM, or DMARC failed"
    ++ signal (contains_fold reason "sender authentication results missing")
        "Sender authentication results missing"

unfoldable pub name_signals : List String → List String
unfolding signal has_symbol has_symbol_containing
name_signals names =
    signal (has_symbol names "DMARC_POLICY_REJECT") "DMARC reject policy failed"
    ++ signal (has_symbol names "DMARC_POLICY_QUARANTINE") "DMARC quarantine policy failed"
    ++ signal (has_symbol names "R_SPF_FAIL" || has_symbol names "R_SPF_PERMFAIL") "SPF failed"
    ++ signal (has_symbol names "R_SPF_SOFTFAIL") "SPF softfail"
    ++ signal (has_symbol_containing names "DKIM" ("FAIL" ∷ "REJECT" ∷ [])) "DKIM failed"

unfoldable pub unique_from : List String → List String → List String
unique_from seen [] = []
unique_from seen (value ∷ values) =
    let known = unique_from seen values in
    let fresh = value ∷ unique_from (value ∷ seen) values in
    if str_eq value "" || any (str_eq value) seen then known else fresh

unfoldable pub unique : List String → List String
unfolding unique_from
unique values = unique_from [] values

unfoldable pub is_authenticated : List String → Bool
unfolding has_symbol
is_authenticated names =
    has_symbol names "DMARC_POLICY_ALLOW"
    || has_symbol names "R_DKIM_ALLOW"
    || has_symbol names "R_SPF_ALLOW"

unfoldable pub is_missing : List String → Bool
unfolding has_symbol
is_missing names =
    has_symbol names "AUTH_NA"
    || has_symbol names "DMARC_NA"
    || has_symbol names "R_DKIM_NA"
    || has_symbol names "R_SPF_NA"

-- what is left when there is no signal
unfoldable pub unsuspected : List String → Result
unfolding is_authenticated is_missing
unsuspected names =
    if is_authenticated names
    then record { status = "authenticated"; warning = ""; signals = [] }
    else if is_missing names
    then record { status = "missing"; warning = ""; signals = [] }
    else record { status = ""; warning = ""; signals = [] }

abbrev pub warning_text : String
warning_text =
    "Possible spoofed email: the sender domain did not pass normal mail authentication checks."

unfoldable pub result_of : List String → List String → Result
unfolding unsuspected
result_of names [] = unsuspected names
result_of names (first ∷ rest) = record {
  status = "suspected_spoof";
  warning = warning_text;
  signals = first ∷ rest;
}

unfoldable pub analyze_names : String → List String → Result
unfolding result_of unique reason_signals name_signals
analyze_names reason names =
    result_of names (unique (reason_signals (trim_space reason) ++ name_signals names))

unfoldable pub analyze : String → Option Symbols → Result
unfolding analyze_names symbol_names
analyze reason symbols = analyze_names reason (symbol_names symbols)

-- ===== src/Event.antt =====
-- internal/mail/ingest.go: the scan event that Rspamd posts, and the tests on its symbols. A Go map
-- is a list of its entries in the order of one `range` over it; the order is chosen by the runtime.
pub mod Order
use mathlib.Core.List
use Prim.Native.String.{◌++◌}
use sentinel_mail_gateway.Prelude.{
  ℕ, String, Bool, true, false, not, ◌&&◌, ◌||◌, Option, none, some, List, [], ◌∷◌, any, ℤ, pos,
  str_eq, if◌then◌else◌,
}
use sentinel_mail_gateway.Strings.{upper, lower, equal_fold, contains, trim_space}

-- A decoded JSON value (`any`). Numbers are in thousandths.
mutual
  pub data Value : Type 0 where
    null : Value
    bool : Bool → Value
    num : ℤ → Value
    str : String → Value
    arr : Values → Value
    obj : Fields → Value

  pub data Values : Type 0 where
    nil : Values
    cons : Value → Values → Values

  pub data Fields : Type 0 where
    end : Fields
    field : String → Value → Fields → Fields

-- A score in thousandths, the unit of `num`.
abbrev pub Score : Type 0
Score = ℤ

abbrev pub Symbols : Type 0
Symbols = List (String × Value)

pub record Attachment : Type 0 where
  pub content_type : String
  pub filename : String
  pub data_b64 : String
  pub size_bytes : ℕ

pub record Event : Type 0 where
  pub direction : String
  pub queue_id : String
  pub message_id : String
  pub from : String
  pub from_name : String
  pub reply_to : String
  pub to : List String
  pub client_ip : String
  pub client_hostname : String
  pub helo : String
  pub subject : String
  pub size_bytes : ℕ
  pub score : Score
  pub action : String
  pub symbols : Symbols
  pub storage_key : String
  pub body_text : String
  pub raw_message_b64 : String
  pub list_unsubscribe : String
  pub list_unsubscribe_post : String
  pub urls : List String
  pub attachments : List Attachment

-- `obj[key]` on a decoded object
unfoldable pub get_field : String → Fields → Option Value
get_field key end = none
get_field key (field k v rest) = if str_eq k key then some v else get_field key rest

unfoldable pub symbol_score : Value → Score
unfolding get_field
symbol_score (obj fields) = elim (get_field "score" fields) [ some (num n) ↦ n | _ ↦ pos 0 ]
symbol_score _ = pos 0

-- the strings among the elements
strings_of : Values → List String
strings_of nil = []
strings_of (cons (str s) rest) = s ∷ strings_of rest
strings_of (cons _ rest) = strings_of rest

unfoldable pub symbol_options : Value → List String
unfolding get_field strings_of
symbol_options (obj fields) = elim (get_field "options" fields) [
  | some (arr values) ↦ strings_of values
  | _ ↦ []
]
symbol_options _ = []

-- `toString` turns an element that is no string into "".
option_texts : Values → List String
option_texts nil = []
option_texts (cons (str s) rest) = s ∷ option_texts rest
option_texts (cons _ rest) = "" ∷ option_texts rest

unfoldable pub symbol_has_option : Value → String → Bool
unfolding get_field option_texts
symbol_has_option (obj fields) want =
    let want' = upper (trim_space want) in
    if str_eq want' "" then false else elim (get_field "options" fields) [
      | some (arr values) ↦ any (λ s. equal_fold (trim_space s) want') (option_texts values)
      | _ ↦ false
    ]
symbol_has_option _ want = false

unfoldable pub has_symbol : Symbols → String → Bool
has_symbol symbols name = any (λ s. equal_fold (s.0) name) symbols

unfoldable pub has_any_symbol : Symbols → List String → Bool
unfolding has_symbol
has_any_symbol symbols names = any (has_symbol symbols) names

-- the test that `hasSymbolContaining` makes of one symbol
name_contains : String → List String → String × Value → Bool
name_contains required alternatives s =
    let name = upper (s.0) in
    contains name (upper required) && any (λ alt. contains name (upper alt)) alternatives

unfoldable pub has_symbol_containing : Symbols → String → List String → Bool
unfolding name_contains
has_symbol_containing symbols required alternatives =
    any (name_contains required alternatives) symbols

-- `ev.Symbols[name] = value`
unfoldable pub put_symbol : String → Value → Symbols → Symbols
put_symbol name value [] = (name, value) ∷ []
put_symbol name value ((k, v) ∷ rest) =
    if str_eq k name then (k, value) ∷ rest else (k, v) ∷ put_symbol name value rest

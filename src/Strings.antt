-- ===== src/Strings.antt =====
-- The functions of Go's `strings` package that the gateway calls, on texts as lists of Unicode
-- scalars. Case mapping covers ASCII, Latin-1, Greek and Cyrillic letters; other scalars have no case.
pub mod Laws
mod Tests
use Prim.Native.Char.{Char, char, code, nul, IsScalar}
use Prim.Native.String
use Prim.Native.String.{[], ◌∷◌, find, len}
use mathlib.Core.Logic.{dite}
use native.Mathlib.Decide.{dec_lt}
use text.Mathlib.Text.{starts_with}
use sentinel_mail_gateway.Prelude.{
  ℕ, ◌+◌, ◌-◌, ◌<◌, String, Bool, true, false, not, ◌&&◌, ◌||◌, Option, none, some, List, any, ltb,
  leb, ◌==◌, if◌then◌else◌, arith, str_eq,
}

IsScalar_of_small : (n : ℕ) → n < 55296 → IsScalar n
IsScalar_of_small n h = ground arith

-- The scalar of a number below the surrogates; no other number is passed.
unfoldable pub chr : ℕ → Char
unfolding IsScalar_of_small dec_lt
chr n = dite (dec_lt n 55296) (λ h. char n (IsScalar_of_small n h)) (λ _. nul)

within : ℕ → ℕ → ℕ → Bool
within lo hi n = leb lo n && leb n hi

unfoldable pub lower_code : ℕ → ℕ
unfolding within
lower_code n =
    if within 65 90 n || (within 192 222 n && not (n == 215))
    then n + 32
    else if within 913 939 n && not (n == 930) || within 1040 1071 n
    then n + 32
    else if within 1024 1039 n
    then n + 80
    else n

unfoldable pub upper_code : ℕ → ℕ
unfolding within
upper_code n =
    if within 97 122 n || (within 224 254 n && not (n == 247))
    then n - 32
    else if within 945 971 n && not (n == 962) || within 1072 1103 n
    then n - 32
    else if within 1104 1119 n
    then n - 80
    else if n == 962
    then 931
    else n

-- unicode.ToLower and unicode.ToUpper
lower_char : Char → Char
lower_char c = if ltb (code c) 1120 then chr (lower_code (code c)) else c

upper_char : Char → Char
upper_char c = if ltb (code c) 1120 then chr (upper_code (code c)) else c

-- strings.ToLower
unfoldable pub lower : String → String
unfolding lower_char lower_code chr
lower [] = []
lower (c ∷ s) = lower_char c ∷ lower s

-- strings.ToUpper
unfoldable pub upper : String → String
unfolding upper_char upper_code chr
upper [] = []
upper (c ∷ s) = upper_char c ∷ upper s

-- strings.EqualFold
unfoldable pub equal_fold : String → String → Bool
unfolding lower
equal_fold s t = str_eq (lower s) (lower t)

-- unicode.IsSpace
unfoldable pub is_space : Char → Bool
unfolding within
is_space c =
    let n = code c in
    within 9 13 n
    || n == 32
    || n == 133
    || n == 160
    || n == 5760
    || within 8192 8202 n
    || within 8232 8233 n
    || n == 8239
    || n == 8287
    || n == 12288

module _ (cut : Char → Bool) where
  trim_left : String → String
  trim_left [] = []
  trim_left (c ∷ s) = elim (cut c) [ true ↦ trim_left s | false ↦ c ∷ s ]

  put_front : Char → String → String
  put_front c [] = if cut c then [] else c ∷ []
  put_front c (d ∷ s) = c ∷ d ∷ s

  trim_right : String → String
  unfolding put_front
  trim_right [] = []
  trim_right (c ∷ s) = put_front c (trim_right s)

  trim_by : String → String
  unfolding trim_left trim_right
  trim_by s = trim_right (trim_left s)

-- strings.TrimSpace
unfoldable pub trim_space : String → String
unfolding trim_by is_space
trim_space s = trim_by is_space s

-- membership of a character in a text
unfoldable pub in_set : String → Char → Bool
in_set [] c = false
in_set (d ∷ s) c = code c == code d || in_set s c

-- strings.Trim, with its cutset second
unfoldable pub trim : String → String → String
unfolding trim_by in_set
trim s cutset = trim_by (in_set cutset) s

-- strings.TrimRight
unfoldable pub trim_end : String → String → String
unfolding trim_right in_set
trim_end s cutset = trim_right (in_set cutset) s

-- strings.Contains, strings.HasPrefix, strings.HasSuffix
unfoldable pub contains : String → String → Bool
contains s t = leb (find s t) (len s)

unfoldable pub has_prefix : String → String → Bool
has_prefix s p = starts_with s p

-- what stands behind a prefix, where a text has it
unfoldable after_prefix : String → String → Option String
after_prefix s [] = some s
after_prefix [] (p ∷ ps) = none
after_prefix (c ∷ s) (p ∷ ps) =
    let rest = after_prefix s ps in if code c == code p then rest else none

-- strings.TrimPrefix
unfoldable pub trim_prefix : String → String → String
unfolding after_prefix
trim_prefix s p = elim (after_prefix s p) [ some rest ↦ rest | none ↦ s ]

unfoldable pub has_suffix : String → String → Bool
has_suffix [] p = str_eq [] p
has_suffix (c ∷ s) p = str_eq (c ∷ s) p || has_suffix s p

-- `containsAny`, and the `any` of the classifier
unfoldable pub contains_any : String → List String → Bool
unfolding contains
contains_any s needles = any (contains s) needles

-- `s[strings.LastIndex(s, c)+1:]`, with the part before; `none` where the index is -1.
unfoldable pub cut_last : Char → String → Option (String × String)
cut_last d [] = none
cut_last d (c ∷ s) =
    let rest = cut_last d s in
    elim rest [
      | some (before, after) ↦ some (c ∷ before, after)
      | none ↦ if code c == code d then some ([], s) else none
    ]

-- strings.Fields: `word` holds the field that is open, in order
fields_from : String → String → List String
fields_from word [] = if str_eq word "" then List.[] else List.◌∷◌ word List.[]
fields_from word (c ∷ s) =
    let open_word = fields_from (String.◌++◌ word (c ∷ [])) s in
    let next_word = fields_from "" s in
    if is_space c
    then (if str_eq word "" then next_word else List.◌∷◌ word next_word)
    else open_word

unfoldable pub fields : String → List String
unfolding fields_from is_space
fields s = fields_from "" s

-- strings.Join
unfoldable pub join : String → List String → String
join sep List.[] = ""
join sep (List.◌∷◌ s List.[]) = s
join sep (List.◌∷◌ s (List.◌∷◌ t ts)) = String.◌++◌ s (String.◌++◌ sep (join sep (List.◌∷◌ t ts)))

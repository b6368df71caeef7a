-- ===== src/Learning/Keys.antt =====
-- The keys of the learned verdicts: normalised addresses, sender domains and subject fingerprints.
use Prim.Native.Char.{Char, code}
use Prim.Native.String.{◌++◌, count}
use sentinel_mail_gateway.Prelude.{
  String, Bool, not, ◌&&◌, ◌||◌, none, some, List, [], ◌∷◌, take, keep, leb, ltb, ◌==◌, str_eq,
  if◌then◌else◌,
}
use sentinel_mail_gateway.Strings.{lower, trim_space, contains, cut_last, join}

unfoldable pub normalize_email : String → String
normalize_email value = lower (trim_space value)

-- strings.TrimSuffix(…, ".")
trim_dot : String → String
trim_dot String.[] = String.[]
trim_dot (String.◌∷◌ c String.[]) = if code c == 46 then String.[] else String.◌∷◌ c String.[]
trim_dot (String.◌∷◌ c (String.◌∷◌ d s)) = String.◌∷◌ c (trim_dot (String.◌∷◌ d s))

unfoldable pub sender_domain_key : String → String
unfolding normalize_email trim_dot
sender_domain_key value = elim (cut_last "@" (normalize_email value)) [
  | none ↦ ""
  | some (name, rest) ↦
      let domain = trim_dot rest in
      if str_eq name "" || str_eq rest ""
      then ""
      else if str_eq domain "" || not (contains domain ".")
      then ""
      else "*@" ++ domain
]

is_token_char : Char → Bool
is_token_char c = (leb 97 (code c) && leb (code c) 122) || (leb 48 (code c) && leb (code c) 57)

-- the matches of [a-z0-9]+; `word` is the one that is being read
tokens : String → String → List String
tokens word String.[] = if str_eq word "" then [] else word ∷ []
tokens word (String.◌∷◌ c s) =
    let longer = tokens (word ++ String.◌∷◌ c String.[]) s in
    let closed = tokens "" s in
    if is_token_char c then longer else if str_eq word "" then closed else word ∷ closed

unfoldable pub subject_fingerprint : String → String
unfolding tokens is_token_char
subject_fingerprint subject =
    join " " (take 8 (keep (λ token. ltb 2 (count token)) (tokens "" (lower subject))))

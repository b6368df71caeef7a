-- ===== src/Auth/Scan.antt =====
-- fmt.Sscanf as internal/auth uses it: the verbs %s with a width and %d, and literal characters;
-- and %d of fmt.Sprintf. The rest of the input that Sscanf leaves is returned.
pub mod Laws
use Prim.Native.Char.{Char, code}
use Prim.Native.Nat.{◌/◌, ◌%◌}
use Prim.Native.String.{[], ◌∷◌, ◌++◌}
use sentinel_mail_gateway.Prelude.{
  ℕ, zero, suc, ◌+◌, ◌-◌, ◌*◌, String, Bool, true, false, not, ◌&&◌, Option, none, some, ltb, leb,
  ◌==◌, str_eq, if◌then◌else◌, ℤ, pos, negsuc,
}
use sentinel_mail_gateway.Strings.{chr, is_space}

unfoldable pub is_digit : Char → Bool
is_digit c = leb 48 (code c) && leb (code c) 57

-- SkipSpace, which stops at a newline: no verb accepts one
unfoldable pub skip_space : String → String
unfolding is_space
skip_space [] = []
skip_space (c ∷ s) =
    let rest = skip_space s in if is_space c && not (code c == 10) then rest else c ∷ s

-- the digits at the front, and what follows them
unfoldable pub span_digits : String → String × String
unfolding is_digit
span_digits [] = ([], [])
span_digits (c ∷ s) =
    let rest = span_digits s in if is_digit c then (c ∷ rest.0, rest.1) else ([], c ∷ s)

unfoldable pub decimal_value : ℕ → String → ℕ
decimal_value n [] = n
decimal_value n (c ∷ s) = decimal_value (n * 10 + (code c - 48)) s

-- a number below a bound, from the digits at the front
unfoldable pub bounded : ℕ → (String × String) → Option (ℕ × String)
unfolding decimal_value
bounded bound (token, rest) =
    if str_eq token ""
    then none
    else if ltb (decimal_value 0 token) bound
    then some (decimal_value 0 token, rest)
    else none

-- %d into an unsigned integer of a width
unfoldable pub scan_uint : ℕ → String → Option (ℕ × String)
unfolding skip_space span_digits bounded
scan_uint bound s = bounded bound (span_digits (skip_space s))

unfoldable pub negate : Option (ℕ × String) → Option (ℤ × String)
negate none = none
negate (some (zero, rest)) = some (pos 0, rest)
negate (some (suc n, rest)) = some (negsuc n, rest)

unfoldable pub keep_sign : Option (ℕ × String) → Option (ℤ × String)
keep_sign none = none
keep_sign (some (n, rest)) = some (pos n, rest)

-- %d into an int64, behind the space: a sign and digits
unfoldable pub scan_signed : String → Option (ℤ × String)
unfolding span_digits bounded negate keep_sign
scan_signed [] = none
scan_signed (c ∷ s) =
    if code c == 45
    then negate (bounded (9223372036854775808 + 1) (span_digits s))
    else if code c == 43
    then keep_sign (bounded 9223372036854775808 (span_digits s))
    else keep_sign (bounded 9223372036854775808 (span_digits (c ∷ s)))

unfoldable pub scan_int : String → Option (ℤ × String)
unfolding skip_space scan_signed
scan_int s = scan_signed (skip_space s)

-- a literal character of the format
unfoldable pub scan_char : ℕ → String → Option String
scan_char k [] = none
scan_char k (c ∷ s) = if code c == k then some s else none

-- up to `n` characters that are not space, and what follows them
unfoldable pub span_word : ℕ → String → String × String
unfolding is_space
span_word zero s = ([], s)
span_word (suc n) [] = ([], [])
span_word (suc n) (c ∷ s) =
    let rest = span_word n s in if is_space c then ([], c ∷ s) else (c ∷ rest.0, rest.1)

unfoldable pub nonempty : (String × String) → Option (String × String)
nonempty (word, rest) = if str_eq word "" then none else some (word, rest)

-- %s with a width
unfoldable pub scan_word : ℕ → String → Option (String × String)
unfolding skip_space span_word nonempty
scan_word width s = nonempty (span_word width (skip_space s))

-- the digits of `n` in front of a text; `fuel` above `n` is enough
unfoldable pub put_digits : ℕ → ℕ → String → String
unfolding chr
put_digits zero n s = s
put_digits (suc fuel) n s =
    let front = put_digits fuel (n / 10) (chr (48 + n % 10) ∷ s) in
    if ltb n 10 then chr (48 + n) ∷ s else front

-- %d of a number that is not negative
unfoldable pub decimal : ℕ → String
unfolding put_digits
decimal n = put_digits (suc n) n []

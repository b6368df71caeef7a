-- ===== src/Strings/Laws.antt =====
-- Laws of case mapping and of the prefix test.
use Prim.Native.Char.{Char, code}
use Prim.Native.String.{[], ◌∷◌, ◌++◌}
use Prim.Native.String.append
use text.Mathlib.TextEquality.{Char-path}
use text.Mathlib.TextPositions.{starts_with-append}
use sentinel_mail_gateway.Prelude.{ℕ, ◌<◌, ◌≤◌, String, ◌≡◌, refl, true, arith, some, ==_iff}
use sentinel_mail_gateway.Strings.{
  lower_code, chr, lower_char, lower, has_prefix, after_prefix, trim_prefix,
}

pub has_prefix-append : (p s : String) → has_prefix (p ++ s) p ≡ true
unfolding has_prefix
has_prefix-append p s = starts_with-append p s

pub code-chr : (n : ℕ) → n < 55296 → code (chr n) ≡ n
unfolding chr
code-chr n h = ground arith

lower_code_idem : (n : ℕ) → lower_code (lower_code n) ≡ lower_code n
unfolding lower_code
lower_code_idem n = ground arith

lower_code_of_large : (n : ℕ) → 1120 ≤ n → lower_code n ≡ n
unfolding lower_code
lower_code_of_large n h = ground arith

lower_code_lt : (n : ℕ) → n < 1120 → lower_code n < 1120
unfolding lower_code
lower_code_lt n h = ground arith

code-lower_char : (c : Char) → code (lower_char c) ≡ lower_code (code c)
unfolding lower_char
code-lower_char c =
    ground
      (arith, code-chr (lower_code (code c)), lower_code_lt (code c), lower_code_of_large (code c))

lower_char_idem : (c : Char) → lower_char (lower_char c) ≡ lower_char c
lower_char_idem c =
    Char-path _ _ (cc (code-lower_char c, code-lower_char (lower_char c), lower_code_idem (code c)))

pub lower_idem : (s : String) → lower (lower s) ≡ lower s
unfolding lower
lower_idem [] = refl
lower_idem (c ∷ s) = cc (lower_char_idem c, lower_idem s)

after_prefix-append : (p s : String) → after_prefix (p ++ s) p ≡ some s
unfolding after_prefix
after_prefix-append [] s = rw (append.nil s) refl
after_prefix-append (c ∷ p) s =
    rw (append.cons c p s, (==_iff (code c) (code c)).1 refl, after_prefix-append p s) refl

pub trim_prefix-append : (p s : String) → trim_prefix (p ++ s) p ≡ s
unfolding trim_prefix
trim_prefix-append p s = rw (trim_prefix, after_prefix-append p s) refl

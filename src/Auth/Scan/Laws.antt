-- ===== src/Auth/Scan/Laws.antt =====
-- Scanning what was printed.
use Prim.Native.Char.{Char, code}
use Prim.Native.Nat.{◌/◌, ◌%◌}
use Prim.Native.String.append
use Prim.Native.String.compare
use Prim.Native.String.count
use Prim.Native.String.{[], ◌∷◌, ◌++◌, count}
use sentinel_mail_gateway.Prelude.{
  ℕ, zero, suc, ◌+◌, ◌-◌, ◌*◌, ◌<◌, String, Bool, true, false, not, ◌&&◌, some, ◌≡◌, refl, sym, ap,
  ◌∙◌, subst, lt→ltb, arith, ltb, str_eq, pos, Bool-cases, inl, inr,
}
use sentinel_mail_gateway.Strings.{chr, is_space}
use sentinel_mail_gateway.Strings.Laws.{code-chr}
use sentinel_mail_gateway.Auth.Scan.{
  is_digit, skip_space, span_digits, decimal_value, bounded, scan_int, scan_signed, keep_sign,
  span_word, scan_word, nonempty, put_digits, decimal,
}

abbrev pub all_digits : String → Bool
all_digits [] = true
all_digits (c ∷ s) = is_digit c && all_digits s

abbrev pub no_space : String → Bool
no_space [] = true
no_space (c ∷ s) = not (is_space c) && no_space s

is_digit-chr : (n : ℕ) → n < 10 → is_digit (chr (48 + n)) ≡ true
unfolding is_digit
is_digit-chr n h = ground (arith, code-chr (48 + n))

all_digits-put_digits :
    (fuel n : ℕ) (s : String) → all_digits s ≡ true → all_digits (put_digits fuel n s) ≡ true
unfolding put_digits
all_digits-put_digits zero n s h = h
all_digits-put_digits (suc fuel) n s h = ground (
  arith,
  is_digit-chr n,
  is_digit-chr (n % 10),
  all_digits-put_digits fuel (n / 10) (chr (48 + n % 10) ∷ s),
)

digit_step : (k n : ℕ) → n < 10 → k * 10 + (code (chr (48 + n)) - 48) ≡ k * 10 + n
digit_step k n h = ground (arith, code-chr (48 + n))

decimal_value-put_digits :
    (fuel n : ℕ) (s : String) → n < fuel → decimal_value 0 (put_digits fuel n s) ≡ decimal_value n s
unfolding put_digits decimal_value
decimal_value-put_digits zero n s h = absurd (omega arith)
decimal_value-put_digits (suc fuel) n s h = elim (Bool-cases (ltb n 10)) [
  | inl e ↦ rw e (ap (λ k. decimal_value k s) (digit_step 0 n (ground arith) ∙ omega arith))
  | inr e ↦ rw e (
      decimal_value-put_digits fuel (n / 10) (chr (48 + n % 10) ∷ s) (ground arith)
      ∙ ap (λ k. decimal_value k s) (digit_step (n / 10) (n % 10) (omega arith) ∙ omega arith))
]

span_digits-all : (s : String) → all_digits s ≡ true → span_digits s ≡ (s, [])
unfolding span_digits
span_digits-all [] h = refl
span_digits-all (c ∷ s) h = ground (arith, span_digits-all s)

skip_space_of_word : (c : Char) (s : String) → is_space c ≡ false → skip_space (c ∷ s) ≡ c ∷ s
unfolding skip_space
skip_space_of_word c s h = rw h refl

digit_not_space : (c : Char) → is_digit c ≡ true → is_space c ≡ false
unfolding is_digit is_space
digit_not_space c h = ground arith

cons_not_empty : (c : Char) (s : String) → str_eq (c ∷ s) "" ≡ false
cons_not_empty c s = rw (compare.cons-nil c s) refl

scan_signed_of_digit :
    (c : Char) (s : String)
    → is_digit c ≡ true
    → scan_signed (c ∷ s) ≡ keep_sign (bounded 9223372036854775808 (span_digits (c ∷ s)))
unfolding scan_signed is_digit
scan_signed_of_digit c s h = ground arith

bounded_below :
    (bound : ℕ) (c : Char) (s rest : String)
    → decimal_value 0 (c ∷ s) < bound
    → bounded bound (c ∷ s, rest) ≡ some (decimal_value 0 (c ∷ s), rest)
unfolding bounded
bounded_below bound c s rest h =
    rw (cons_not_empty c s, lt→ltb (decimal_value 0 (c ∷ s)) bound h) refl

-- a text of digits is read as its value
scan_int-all_digits :
    (c : Char) (s : String)
    → all_digits (c ∷ s) ≡ true
    → decimal_value 0 (c ∷ s) < 9223372036854775808
    → scan_int (c ∷ s) ≡ some (pos (decimal_value 0 (c ∷ s)), [])
unfolding scan_int keep_sign
scan_int-all_digits c s h k =
    let d : is_digit c ≡ true = ground arith in
    rw
      (
        skip_space_of_word c s (digit_not_space c d),
        scan_signed_of_digit c s d,
        span_digits-all (c ∷ s) h,
        bounded_below 9223372036854775808 c s [] k,
      )
      refl

put_digits-cons :
    (fuel n : ℕ) (c : Char) (s : String)
    → (d : Char) × (t : String) × (put_digits fuel n (c ∷ s) ≡ d ∷ t)
unfolding put_digits
put_digits-cons zero n c s = (c, s, refl)
put_digits-cons (suc fuel) n c s = elim (Bool-cases (ltb n 10)) [
  | inl e ↦ rw e (chr (48 + n), c ∷ s, refl)
  | inr e ↦ rw e (put_digits-cons fuel (n / 10) (chr (48 + n % 10)) (c ∷ s))
]

decimal-cons : (n : ℕ) → (d : Char) × (t : String) × (decimal n ≡ d ∷ t)
unfolding decimal put_digits
decimal-cons n = elim (Bool-cases (ltb n 10)) [
  | inl e ↦ rw e (chr (48 + n), [], refl)
  | inr e ↦ rw e (put_digits-cons n (n / 10) (chr (48 + n % 10)) [])
]

scan_int_of_text :
    (n : ℕ) (s : String) (d : Char) (t : String)
    → s ≡ d ∷ t
    → all_digits s ≡ true
    → decimal_value 0 s ≡ n
    → n < 9223372036854775808
    → scan_int s ≡ some (pos n, [])
scan_int_of_text n s d t e digits value h =
    ap scan_int e
    ∙ scan_int-all_digits d t (sym (ap all_digits e) ∙ digits)
        (subst (λ m. m < 9223372036854775808) (sym (sym (ap (decimal_value 0) e) ∙ value)) h)
    ∙ ap (λ m. some (pos m, [])) (sym (ap (decimal_value 0) e) ∙ value)

pub scan_int-decimal : (n : ℕ) → n < 9223372036854775808 → scan_int (decimal n) ≡ some (pos n, [])
unfolding decimal decimal_value
scan_int-decimal n h =
    let (d, t, e) = decimal-cons n in
    scan_int_of_text n (decimal n) d t e (all_digits-put_digits (suc n) n [] refl)
      (decimal_value-put_digits (suc n) n [] (omega arith)) h

module _ (rest : String) where
  span_word-append : (s : String) → no_space s ≡ true → span_word (count s) (s ++ rest) ≡ (s, rest)
  unfolding span_word
  span_word-append [] h = rw (append.nil rest) refl
  span_word-append (c ∷ s) h =
      rw (append.cons c s rest, count.cons c s) (ground (arith, span_word-append s))

  pub scan_word-append :
      (c : Char) (s : String)
      → no_space (c ∷ s) ≡ true
      → scan_word (count (c ∷ s)) ((c ∷ s) ++ rest) ≡ some (c ∷ s, rest)
  unfolding scan_word skip_space nonempty
  scan_word-append c s h =
      rw
        (
          append.cons c s rest,
          skip_space_of_word c (s ++ rest) (ground arith),
          sym (append.cons c s rest),
          span_word-append (c ∷ s) h,
          cons_not_empty c s,
        )
        refl

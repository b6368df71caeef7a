-- ===== src/Spoofing/Laws.antt =====
-- internal/spoofing/spoofing.go: the order of the symbols, and repeated signals.
use mathlib.Core.List.{Permᴰ}
use sentinel_mail_gateway.Prelude.{
  String, Bool, true, false, ◌≡◌, ◌||◌, ◌&&◌, not, List, [], ◌∷◌, ◌++◌, Option, some, any,
  any-permᴰ, refl, ap, arith, str_eq, str_eq_iff, inl, inr, Bool-cases,
}
use sentinel_mail_gateway.Strings.{trim_space, upper}
use sentinel_mail_gateway.Event.{Symbols}
use sentinel_mail_gateway.Spoofing.{
  names_of, symbol_names, has_symbol, has_symbol_containing, reason_signals, name_signals, unique,
  unique_from, is_authenticated, is_missing, unsuspected, result_of, analyze_names, analyze,
}

names_of-perm : {xs ys : Symbols} → Permᴰ xs ys → Permᴰ (names_of xs) (names_of ys)
unfolding names_of
names_of-perm Permᴰ.nil = Permᴰ.nil
names_of-perm (Permᴰ.cons e h) =
    Permᴰ.cons (ap (λ entry. upper (trim_space (entry.0))) e) (names_of-perm h)
names_of-perm (Permᴰ.swap e f) =
    Permᴰ.swap (ap (λ entry. upper (trim_space (entry.0))) e)
      (ap (λ entry. upper (trim_space (entry.0))) f)
names_of-perm (Permᴰ.trans h k) = Permᴰ.trans (names_of-perm h) (names_of-perm k)

module _ {xs ys : List String} (p : Permᴰ xs ys) where
  has_symbol-perm : (want : String) → has_symbol xs want ≡ has_symbol ys want
  unfolding has_symbol
  has_symbol-perm want = any-permᴰ _ p

  name_signals-perm : name_signals xs ≡ name_signals ys
  unfolding name_signals has_symbol_containing
  name_signals-perm =
      rw
        (
          has_symbol-perm "DMARC_POLICY_REJECT",
          has_symbol-perm "DMARC_POLICY_QUARANTINE",
          has_symbol-perm "R_SPF_FAIL",
          has_symbol-perm "R_SPF_PERMFAIL",
          has_symbol-perm "R_SPF_SOFTFAIL",
          any-permᴰ _ p,
        )
        refl

  unsuspected-perm : unsuspected xs ≡ unsuspected ys
  unfolding unsuspected is_authenticated is_missing
  unsuspected-perm =
      rw
        (
          has_symbol-perm "DMARC_POLICY_ALLOW",
          has_symbol-perm "R_DKIM_ALLOW",
          has_symbol-perm "R_SPF_ALLOW",
          has_symbol-perm "AUTH_NA",
          has_symbol-perm "DMARC_NA",
          has_symbol-perm "R_DKIM_NA",
          has_symbol-perm "R_SPF_NA",
        )
        refl

  result_of-perm : (signals : List String) → result_of xs signals ≡ result_of ys signals
  unfolding result_of
  result_of-perm [] = unsuspected-perm
  result_of-perm (s ∷ signals) = refl

  analyze_names-perm : (reason : String) → analyze_names reason xs ≡ analyze_names reason ys
  unfolding analyze_names
  analyze_names-perm reason = rw (name_signals-perm, result_of-perm) refl

-- The warning that is shown is one and the same for any two orders in which the symbols of the
-- stored message are visited.
pub analyze-perm :
    {xs ys : Symbols}
    → Permᴰ xs ys
    → (reason : String) → analyze reason (some xs) ≡ analyze reason (some ys)
unfolding analyze symbol_names
analyze-perm p reason = analyze_names-perm (names_of-perm p) reason

-- a list in which no text stands twice
unfoldable pub is_distinct : List String → Bool
is_distinct [] = true
is_distinct (value ∷ values) = not (any (str_eq value) values) && is_distinct values

unique_from-seen :
    (x : String) (seen values : List String)
    → any (str_eq x) seen ≡ true
    → any (str_eq x) (unique_from seen values) ≡ false
unfolding unique_from
unique_from-seen x seen [] known = refl
unique_from-seen x seen (value ∷ values) known =
    let ih = unique_from-seen x seen values known in
    let ih' = unique_from-seen x (value ∷ seen) values in
    elim (Bool-cases (str_eq value "" || any (str_eq value) seen)) [
      | inl old ↦ rw old ih
      | inr new ↦ elim (Bool-cases (str_eq x value)) [
        | inl same ↦ absurd (ground (arith, known, new, (str_eq_iff x value).0 same))
        | inr other ↦ rw (new, other) (ih' (rw other known))
      ]
    ]

unique_from-is_distinct : (seen values : List String) → is_distinct (unique_from seen values) ≡ true
unfolding unique_from is_distinct
unique_from-is_distinct seen [] = refl
unique_from-is_distinct seen (value ∷ values) =
    let ih = unique_from-is_distinct seen values in
    let ih' = unique_from-is_distinct (value ∷ seen) values in
    let shown = unique_from-seen value (value ∷ seen) values in
    elim (Bool-cases (str_eq value "" || any (str_eq value) seen)) [
      | inl old ↦ rw old ih
      | inr new ↦ rw (new, shown (rw ((str_eq_iff value value).1 refl) refl)) ih'
    ]

result_of-is_distinct :
    (names signals : List String)
    → is_distinct signals ≡ true
    → is_distinct (result_of names signals).signals ≡ true
unfolding result_of unsuspected is_distinct
result_of-is_distinct names [] d = elim (Bool-cases (is_authenticated names)) [
  | inl t ↦ rw t refl
  | inr f ↦ elim (Bool-cases (is_missing names)) [ inl t ↦ rw (f, t) refl | inr g ↦ rw (f, g) refl ]
]
result_of-is_distinct names (s ∷ signals) d = d

-- No signal is shown twice.
pub analyze-is_distinct :
    (reason : String) (symbols : Option Symbols)
    → is_distinct (analyze reason symbols).signals ≡ true
unfolding analyze analyze_names unique
analyze-is_distinct reason symbols =
    let names = symbol_names symbols in
    let signals = reason_signals (trim_space reason) ++ name_signals names in
    result_of-is_distinct names (unique signals) (unique_from-is_distinct [] signals)

-- ===== src/Auth/Passwords.antt =====
-- internal/auth/password.go: the check of a password against its encoded hash. HashPassword is
-- used where users are written, and is not modelled.
use Prim.Native.Char.{code}
use Prim.Native.String.{[], ◌∷◌, ◌++◌, count}
use sentinel_mail_gateway.Prelude.{
  ℕ, String, Bool, false, not, Option, none, some, List, ◌==◌, str_eq, if◌then◌else◌, ℤ, pos,
}
use sentinel_mail_gateway.Auth.{Primitives}
use sentinel_mail_gateway.Auth.Scan.{scan_char, scan_int, scan_uint}

-- strings.Split(encoded, "$"), with the part that is open
unfoldable pub split_dollar : String → String → List String
split_dollar part [] = List.◌∷◌ part List.[]
split_dollar part (c ∷ s) =
    let closed = List.◌∷◌ part (split_dollar "" s) in
    let longer = split_dollar (part ++ (c ∷ [])) s in if code c == 36 then closed else longer

-- the literal text of a format
unfoldable pub scan_literal : String → String → Option String
unfolding scan_char
scan_literal [] s = some s
scan_literal (k ∷ format) s = elim (scan_char (code k) s) [
  | some rest ↦ scan_literal format rest
  | none ↦ none
]

unfoldable pub scan_uint_from : ℕ → Option String → Option (ℕ × String)
unfolding scan_uint
scan_uint_from bound none = none
scan_uint_from bound (some s) = scan_uint bound s

unfoldable pub scan_literal_from {ℓ} :
    {A : Type ℓ} → String → Option (A × String) → Option (A × String)
unfolding scan_literal
scan_literal_from format none = none
scan_literal_from format (some (a, s)) = elim (scan_literal format s) [
  | some rest ↦ some (a, rest)
  | none ↦ none
]

unfoldable pub version_of : Option String → Option ℤ
unfolding scan_int
version_of none = none
version_of (some s) = elim (scan_int s) [ some (v, _) ↦ some v | none ↦ none ]

-- Sscanf(parts[2], "v=%d", &version), and `version != argon2.Version`
unfoldable pub is_version_19 : Option ℤ → Bool
is_version_19 (some (pos n)) = n == 19
is_version_19 _ = false

unfoldable pub third : ℕ → ℕ → Option (ℕ × String) → Option (ℕ × (ℕ × ℕ))
third m t none = none
third m t (some (p, _)) = some (m, (t, p))

unfoldable pub second : ℕ → Option (ℕ × String) → Option (ℕ × (ℕ × ℕ))
unfolding third scan_uint_from scan_literal
second m none = none
second m (some (t, s)) = third m t (scan_uint_from 256 (scan_literal ",p=" s))

-- Sscanf(parts[3], "m=%d,t=%d,p=%d", &m, &t, &p), with two uint32 and a uint8
unfoldable pub scan_params : String → Option (ℕ × (ℕ × ℕ))
unfolding second scan_uint_from scan_literal
scan_params s = elim (scan_uint_from 4294967296 (scan_literal "m=" s)) [
  | some (m, rest) ↦ second m (scan_uint_from 4294967296 (scan_literal ",t=" rest))
  | none ↦ none
]

module _ (ext : Primitives) (pw : String) where
  -- the comparison, for a salt and a hash that decode; an error or none
  unfoldable pub compare_key : (ℕ × (ℕ × ℕ)) → Option String → Option String → Option String
  compare_key params none want = some "invalid salt"
  compare_key params (some salt) none = some "invalid hash"
  compare_key (m, (t, p)) (some salt) (some want) =
      if str_eq (ext.id_key pw salt t m p (count want)) want then none else some "password mismatch"

  unfoldable pub check_params : Option (ℕ × (ℕ × ℕ)) → String → String → Option String
  unfolding compare_key
  check_params none salt hash = some "invalid hash params"
  check_params (some params) salt hash =
      compare_key params (ext.decode_std salt) (ext.decode_std hash)

  unfoldable pub check_parts : List String → Option String
  unfolding scan_literal version_of is_version_19 scan_params check_params
  check_parts
        (List.◌∷◌ _
          (List.◌∷◌ kind (List.◌∷◌ v (List.◌∷◌ params (List.◌∷◌ salt (List.◌∷◌ hash List.[])))))) =
      if not (str_eq kind "argon2id")
      then some "invalid hash format"
      else if not (is_version_19 (version_of (scan_literal "v=" v)))
      then some "unsupported argon2 version"
      else check_params (scan_params params) salt hash
  check_parts _ = some "invalid hash format"

  -- `VerifyPassword`: an error or none
  unfoldable pub verify_password : String → Option String
  unfolding split_dollar check_parts
  verify_password encoded = check_parts (split_dollar "" encoded)

-- ===== src/Auth/Challenge.antt =====
-- internal/auth/mfa.go: the signed challenge that a login hands out before the second factor.
pub mod Laws
use Prim.Native.Char.{Char, code}
use Prim.Native.String.{[], ◌∷◌, ◌++◌}
use sentinel_mail_gateway.Prelude.{
  ℕ, ◌+◌, String, Bool, true, false, not, Option, none, some, leb, ◌==◌, str_eq, if◌then◌else◌, ℤ,
  pos, negsuc, ◌⊎◌, inl, inr,
}
use sentinel_mail_gateway.Auth.{Primitives}
use sentinel_mail_gateway.Auth.Scan.{decimal, scan_word, scan_char, scan_int}

abbrev pub mfa_pending_ttl : ℕ
mfa_pending_ttl = 300

-- bytes.SplitN(token, ".", 2), where it has two parts
unfoldable pub cut_dot : String → Option (String × String)
cut_dot [] = none
cut_dot (c ∷ s) =
    let rest = cut_dot s in
    if code c == 46
    then some ([], s)
    else elim rest [ some (before, after) ↦ some (c ∷ before, after) | none ↦ none ]

-- fmt.Sscanf(body, "%36s:%d", &uidStr, &exp)
unfoldable pub scan_exp : String → Option String → Option (String × ℤ)
unfolding scan_int
scan_exp uid none = none
scan_exp uid (some rest) = elim (scan_int rest) [ some (exp, _) ↦ some (uid, exp) | none ↦ none ]

unfoldable pub scan_payload : String → Option (String × ℤ)
unfolding scan_word scan_char scan_exp
scan_payload body = elim (scan_word 36 body) [
  | some (uid, rest) ↦ scan_exp uid (scan_char 58 rest)
  | none ↦ none
]

-- `time.Now().Unix() >= exp`
unfoldable pub is_expired : ℕ → ℤ → Bool
is_expired now (pos exp) = leb exp now
is_expired now (negsuc _) = true

module _ (ext : Primitives) where
  unfoldable pub sign_challenge : String → String → String
  sign_challenge secret body = ext.sha256 (secret ++ ("|mfa|" ++ body))

  unfoldable pub challenge_body : ℕ → ℕ → String
  unfolding decimal
  challenge_body user exp = ext.uuid_text user ++ (":" ++ decimal exp)

  -- `IssueMFAChallenge`: the token, and when it expires
  unfoldable pub issue_mfa_challenge : String → ℕ → ℕ → String × ℕ
  unfolding sign_challenge challenge_body
  issue_mfa_challenge secret now user =
      let exp = now + mfa_pending_ttl in
      let body = challenge_body user exp in
      (ext.encode_url body ++ ("." ++ ext.encode_url (sign_challenge secret body)), exp)

  -- the end of ParseMFAChallenge: the payload of a body that is signed
  unfoldable pub read_payload : ℕ → Option (String × ℤ) → String ⊎ ℕ
  unfolding is_expired
  read_payload now none = inl "malformed challenge payload"
  read_payload now (some (uid, exp)) =
      if is_expired now exp
      then inl "challenge expired"
      else elim (ext.parse_uuid uid) [ some user ↦ inr user | none ↦ inl "invalid UUID" ]

  unfoldable pub check_mac : String → ℕ → String → Option String → String ⊎ ℕ
  unfolding sign_challenge scan_payload read_payload
  check_mac secret now body none = inl "bad challenge mac"
  check_mac secret now body (some mac) =
      if not (str_eq (sign_challenge secret body) mac)
      then inl "challenge signature mismatch"
      else read_payload now (scan_payload body)

  unfoldable pub check_body : String → ℕ → Option String → String → String ⊎ ℕ
  unfolding check_mac
  check_body secret now none mac = inl "bad challenge body"
  check_body secret now (some body) mac = check_mac secret now body (ext.decode_url mac)

  -- `ParseMFAChallenge`
  unfoldable pub parse_mfa_challenge : String → ℕ → String → String ⊎ ℕ
  unfolding cut_dot check_body
  parse_mfa_challenge secret now token = elim (cut_dot token) [
    | some (body, mac) ↦ check_body secret now (ext.decode_url body) mac
    | none ↦ inl "malformed challenge"
  ]

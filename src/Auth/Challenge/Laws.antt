-- ===== src/Auth/Challenge/Laws.antt =====
-- Reading back a challenge that was issued.
use Prim.Native.Char.{code}
use Prim.Native.String.append
use Prim.Native.String.count
use Prim.Native.String.{[], ◌∷◌, ◌++◌, count}
use sentinel_mail_gateway.Prelude.{
  ℕ, suc, ◌+◌, ◌<◌, String, Bool, true, false, not, ◌&&◌, some, ◌≡◌, refl, sym, ap, ◌∙◌, arith, leb,
  ◌==◌, str_eq_iff, pos, inr,
}
use sentinel_mail_gateway.Auth.{Primitives}
use sentinel_mail_gateway.Auth.Scan.{scan_char, scan_word, decimal}
use sentinel_mail_gateway.Auth.Scan.Laws.{no_space, scan_int-decimal, scan_word-append}
use sentinel_mail_gateway.Auth.Challenge.{
  cut_dot, scan_payload, scan_exp, is_expired, sign_challenge, challenge_body, issue_mfa_challenge,
  read_payload, check_mac, check_body, parse_mfa_challenge, mfa_pending_ttl,
}

abbrev pub no_dot : String → Bool
no_dot [] = true
no_dot (c ∷ s) = not (code c == 46) && no_dot s

-- base64.RawURLEncoding decodes what it encodes, and has no full stop
abbrev pub IsCoded : Primitives → String → Type 0
IsCoded ext s = (ext.decode_url (ext.encode_url s) ≡ some s) × (no_dot (ext.encode_url s) ≡ true)

cut_dot-nil : (mac : String) → cut_dot ("" ++ ("." ++ mac)) ≡ some ("", mac)
unfolding cut_dot
cut_dot-nil mac = rw (append.nil ("." ++ mac), append.cons "." "" mac, append.nil mac) refl

cut_dot-append : (s mac : String) → no_dot s ≡ true → cut_dot (s ++ ("." ++ mac)) ≡ some (s, mac)
unfolding cut_dot
cut_dot-append [] mac h = cut_dot-nil mac
cut_dot-append (c ∷ s) mac h =
    let code_not_dot : (code c == 46) ≡ false = ground arith in
    rw (append.cons c s ("." ++ mac), code_not_dot, cut_dot-append s mac (ground arith)) refl

scan_char-colon : (t : String) → scan_char 58 (":" ++ t) ≡ some t
unfolding scan_char
scan_char-colon t = rw (append.cons ":" "" t, append.nil t) refl

scan_word_of_word :
    (w rest : String) (n : ℕ)
    → no_space w ≡ true
    → count w ≡ suc n
    → scan_word (suc n) (w ++ rest) ≡ some (w, rest)
scan_word_of_word [] rest n h k = absurd (omega (arith, k, count.nil))
scan_word_of_word (c ∷ s) rest n h k =
    ap (λ m. scan_word m ((c ∷ s) ++ rest)) (sym k) ∙ scan_word-append rest c s h

module _ (ext : Primitives) (user : ℕ) (no_space-uuid_text : no_space (ext.uuid_text user) ≡ true)
    (count-uuid_text : count (ext.uuid_text user) ≡ 36) where
  scan_payload-challenge_body :
      (exp : ℕ)
      → exp < 9223372036854775808
      → scan_payload (challenge_body ext user exp) ≡ some (ext.uuid_text user, pos exp)
  unfolding scan_payload challenge_body scan_exp
  scan_payload-challenge_body exp h =
      rw
        (
          scan_word_of_word (ext.uuid_text user) (":" ++ decimal exp) 35 no_space-uuid_text
              count-uuid_text,
          scan_char-colon (decimal exp),
          scan_int-decimal exp h,
          scan_payload,
          scan_exp,
        )
        refl

  module _ (parse-uuid_text : ext.parse_uuid (ext.uuid_text user) ≡ some user) where
    check_mac-signed :
        (key : String) (later exp : ℕ)
        → exp < 9223372036854775808
        → later < exp
        → check_mac ext key later
            (challenge_body ext user exp)
            (some (sign_challenge ext key (challenge_body ext user exp)))
          ≡ inr user
    unfolding check_mac read_payload is_expired
    check_mac-signed key later exp h k =
        let early : leb exp later ≡ false = ground arith in
        rw
          (
            (str_eq_iff (sign_challenge ext key (challenge_body ext user exp))
                  (sign_challenge ext key (challenge_body ext user exp))).1
                refl,
            scan_payload-challenge_body exp h,
            early,
            parse-uuid_text,
          )
          refl

    -- A challenge that was issued is read back as its user until five minutes are over, if base64
    -- decodes the two parts that it has encoded and writes no full stop, and the id's text has 36
    -- characters, none of them a space, and is parsed as the id.
    pub parse_mfa_challenge-issue_mfa_challenge :
        (key : String) (now later : ℕ)
        → now + mfa_pending_ttl < 9223372036854775808
        → later < now + mfa_pending_ttl
        → IsCoded ext (challenge_body ext user (now + mfa_pending_ttl))
        → IsCoded ext (sign_challenge ext key (challenge_body ext user (now + mfa_pending_ttl)))
        → parse_mfa_challenge ext key later (issue_mfa_challenge ext key now user).0 ≡ inr user
    unfolding parse_mfa_challenge issue_mfa_challenge check_body
    parse_mfa_challenge-issue_mfa_challenge key now later h k (decode_body, dots) (decode_mac, _) =
        let body = challenge_body ext user (now + mfa_pending_ttl) in
        let mac = sign_challenge ext key body in
        rw
          (
            cut_dot-append (ext.encode_url body) (ext.encode_url mac) dots,
            decode_body,
            decode_mac,
            parse_mfa_challenge,
          )
          (check_mac-signed key later (now + mfa_pending_ttl) h k)

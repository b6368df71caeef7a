-- ===== src/MailAuth.antt =====
-- internal/mail/ingest.go: sender authentication as Rspamd's symbols report it, delivery status
-- notifications, and the check of a challenged sender's source host.
pub mod Tests
pub mod Laws
use Prim.Native.Char.{Char, code}
use Prim.Native.String
use sentinel_mail_gateway.Prelude.{
  ℕ, ◌-◌, String, Bool, true, false, not, ◌&&◌, ◌||◌, Option, none, some, [], ◌∷◌, any, ltb, leb,
  if◌then◌else◌, str_eq,
}
use sentinel_mail_gateway.Strings.{
  upper, lower, trim, trim_space, equal_fold, contains, contains_any, has_prefix,
}
use sentinel_mail_gateway.Platform.{Platform}
use sentinel_mail_gateway.Event.{
  Event, Value, Symbols, symbol_has_option, has_symbol, has_any_symbol, has_symbol_containing,
}
use sentinel_mail_gateway.Disposition.{Disposition, Outcome, delivered, quarantined, is_final}

-- classifier.AuthSignals
pub record AuthSignals : Type 0 where
  pub spf_pass : Bool
  pub dkim_pass : Bool
  pub dmarc_pass : Bool
  pub spf_fail : Bool
  pub dkim_fail : Bool
  pub dmarc_fail : Bool

unfoldable pub auth_signals : Symbols → AuthSignals
auth_signals symbols = record {
  spf_pass = has_symbol_containing symbols "SPF" ("ALLOW" ∷ "PASS" ∷ []);
  dkim_pass = has_symbol_containing symbols "DKIM" ("ALLOW" ∷ "PASS" ∷ []);
  dmarc_pass = has_symbol_containing symbols "DMARC" ("ALLOW" ∷ "PASS" ∷ []);
  spf_fail = has_any_symbol symbols ("R_SPF_FAIL" ∷ "R_SPF_PERMFAIL" ∷ []);
  dkim_fail = has_symbol_containing symbols "DKIM" ("FAIL" ∷ "REJECT" ∷ []);
  dmarc_fail = has_any_symbol symbols ("DMARC_POLICY_REJECT" ∷ "DMARC_POLICY_QUARANTINE" ∷ []);
}

-- the test that `hasAuthSignal` makes of a symbol's name
names_auth : String → Bool
names_auth name = contains_any (upper name) ("SPF" ∷ "DKIM" ∷ "DMARC" ∷ [])

unfoldable pub has_auth_signal : Symbols → Bool
unfolding names_auth
has_auth_signal symbols = any (λ s. names_auth (s.0)) symbols

unfoldable pub looks_like_dsn_subject : String → Bool
looks_like_dsn_subject subject = contains_any (lower (trim_space subject)) (
    "delivery status notification" ∷ "undelivered mail returned" ∷ "undeliverable:"
    ∷ "mail delivery failed" ∷ "returned mail" ∷ "failure notice" ∷ [])

-- the loop's body: whether a BOUNCE symbol carries the option "DSN" or not, it returns true
bounce_hit : String × Value → Bool
bounce_hit s = equal_fold (s.0) "BOUNCE" && (if symbol_has_option (s.1) "DSN" then true else true)

unfoldable pub has_delivery_status_notification_symbol : Symbols → Bool
unfolding bounce_hit
has_delivery_status_notification_symbol symbols = any bounce_hit symbols

-- the bytes of a character in UTF-8
utf8_len : Char → ℕ
utf8_len c =
    let n = code c in
    if ltb n 128 then 1 else if ltb n 2048 then 2 else if ltb n 65536 then 3 else 4

-- `raw[:n]` of a text longer than n bytes, less a character that the cut splits
clip : ℕ → String → String
unfolding utf8_len
clip n String.[] = String.[]
clip n (String.◌∷◌ c s) =
    let rest = clip (n - utf8_len c) s in
    if leb (utf8_len c) n then String.◌∷◌ c rest else String.[]

module _ (platform : Platform) where
  unfoldable pub raw_message_looks_dsn : String → Bool
  unfolding clip
  raw_message_looks_dsn raw_b64 =
      if str_eq (trim_space raw_b64) ""
      then false
      else elim (platform.decode_base64 (trim_space raw_b64)) [
        | none ↦ false
        | some raw ↦
            not (str_eq raw "")
            && contains_any (lower (clip 65536 raw)) (
                "report-type=delivery-status" ∷ "message/delivery-status"
                ∷ "auto-submitted: auto-generated" ∷ "auto-submitted: auto-replied" ∷ [])
      ]

  unfoldable pub is_delivery_status_notification : Event → Bool
  is_delivery_status_notification ev =
      let from = lower (trim_space ev.from) in
      let null_envelope = str_eq from "" || str_eq from "<>" in
      let system = has_prefix from "mailer-daemon@" || has_prefix from "postmaster@" in
      let subject_dsn = looks_like_dsn_subject ev.subject in
      let likely = null_envelope || system || subject_dsn in
      not (equal_fold ev.direction "outbound")
      && ((has_delivery_status_notification_symbol ev.symbols && likely)
          || (raw_message_looks_dsn ev.raw_message_b64 && likely)
          || (null_envelope && subject_dsn))

  unfoldable pub apply_delivery_status_notification_disposition : Outcome → Event → Outcome
  apply_delivery_status_notification_disposition (d, reason) ev =
      if not (is_delivery_status_notification ev)
      then (d, reason)
      else if str_eq reason "" || has_prefix reason "score >="
      then (delivered, "delivery status notification")
      else (d, reason)

  unfoldable pub apply_auth_enforcement : Outcome → Event → Outcome
  apply_auth_enforcement (d, reason) ev =
      let auth = auth_signals ev.symbols in
      if is_final d
      then (d, reason)
      else if equal_fold ev.direction "outbound"
      then (d, reason)
      else if is_delivery_status_notification ev
      then (d, reason)
      else if not (has_auth_signal ev.symbols)
      then (quarantined, "sender authentication results missing")
      else if has_symbol ev.symbols "DMARC_POLICY_REJECT"
      then (quarantined, "sender failed DMARC reject policy")
      else if has_symbol ev.symbols "DMARC_POLICY_QUARANTINE"
      then (quarantined, "sender failed DMARC quarantine policy")
      else if auth.dmarc_pass || auth.spf_pass || auth.dkim_pass
      then (d, reason)
      else if auth.spf_fail
          || auth.dkim_fail
          || auth.dmarc_fail
          || has_symbol ev.symbols "R_SPF_SOFTFAIL"
      then (quarantined, "sender failed SPF/DKIM/DMARC authentication")
      else (quarantined, "sender authentication results missing")

  unfoldable pub challenge_source_verified : Event → Bool
  challenge_source_verified ev =
      let auth = auth_signals ev.symbols in
      let hostname = lower (trim (trim_space ev.client_hostname) ".") in
      auth.dmarc_pass
      && (auth.spf_pass || auth.dkim_pass)
      && not (
          str_eq hostname ""
          || str_eq hostname "unknown"
          || str_eq hostname "localhost"
          || has_prefix hostname "[")
      && not (platform.is_ip hostname)
      && contains hostname "."

-- ===== src/Auth/Entrance.antt =====
-- The way of a user with a second factor from the login to a session.
use Prim.Native.String.{count}
use sentinel_mail_gateway.Prelude.{
  ℕ, ◌+◌, ◌<◌, String, true, false, none, some, ◌≡◌, refl, sym, ap, ◌∙◌, subst, str_eq, inr,
}
use sentinel_mail_gateway.Strings.{lower, trim_space}
use sentinel_mail_gateway.Auth.{
  User, Store, Primitives, Request, Outcome, mfa_required, token_cookie, find_user, is_null,
}
use sentinel_mail_gateway.Auth.Sessions.{is_taken, create_with_impersonator, session_ttl}
use sentinel_mail_gateway.Auth.Passwords.{verify_password}
use sentinel_mail_gateway.Auth.Scan.Laws.{no_space}
use sentinel_mail_gateway.Auth.Challenge.{
  mfa_pending_ttl, challenge_body, sign_challenge, issue_mfa_challenge, parse_mfa_challenge,
}
use sentinel_mail_gateway.Auth.Challenge.Laws.{IsCoded, parse_mfa_challenge-issue_mfa_challenge}
use sentinel_mail_gateway.Auth.Mfa.{text_of, mfa_verify}
use sentinel_mail_gateway.Auth.Login.{
  Credentials, find_email, finish_login, wants_mfa, login, login_found, login_verified,
  login_parsed, mfa_verify_login,
}
use sentinel_mail_gateway.Auth.Arrival.{
  login-mfa_required, Admits, new_issued, create-fresh, mfa_verify-none, lookup-stamped,
}

-- an active account with this password, an enrolled secret and a code that fits it
abbrev pub IsAccount : Primitives → String → Request → Credentials → String → User → Store → Type 0
IsAccount ext key r req mfa_code u db =
    (find_email (trim_space (lower req.email)) db.users ≡ some u)
    × (find_user u.id db.users ≡ some u)
    × (str_eq (trim_space (lower req.email)) "" ≡ false)
    × (str_eq req.password "" ≡ false)
    × (u.is_active ≡ true)
    × (is_null (verify_password ext req.password u.password_hash) ≡ true)
    × (is_null u.mfa_enrolled_at ≡ false)
    × (wants_mfa ext key r u ≡ true)
    × (str_eq (text_of u.mfa_secret) "" ≡ false)
    × (ext.validate_code mfa_code (text_of u.mfa_secret) ≡ true)

-- base64 on the challenge's two parts, and the text of an id
abbrev pub IsCodec : Primitives → String → ℕ → ℕ → Type 0
IsCodec ext key user expires =
    IsCoded ext (challenge_body ext user expires)
    × IsCoded ext (sign_challenge ext key (challenge_body ext user expires))
    × (no_space (ext.uuid_text user) ≡ true)
    × (count (ext.uuid_text user) ≡ 36)
    × (ext.parse_uuid (ext.uuid_text user) ≡ some user)

module _ (ext : Primitives) (key : String) (r q : Request) (req : Credentials)
    (mfa_code token : String) (u : User) (db : Store) where
  abbrev challenge : String
  challenge = (issue_mfa_challenge ext key r.now u.id).0

  abbrev expires : ℕ
  expires = (issue_mfa_challenge ext key r.now u.id).1

  abbrev second_on : Store → Outcome
  second_on m = mfa_verify_login ext key q (some (challenge, mfa_code)) m

  abbrev pub second : Outcome
  second = second_on (login ext key r (some req) db).store

  abbrev finished : find_user u.id db.users ≡ some u → Outcome
  finished found_id =
      finish_login ext key q "auth.mfa.login" "session create failed" u.id u.organization_id db
        (some (new_issued ext key q u db token found_id))

  second-finished :
      (found_id : find_user u.id db.users ≡ some u)
      → parse_mfa_challenge ext key q.now challenge ≡ inr u.id
      → mfa_verify ext u.id mfa_code db ≡ none
      → create_with_impersonator ext q.now q.random_token u.id u.organization_id none db
        ≡ some (new_issued ext key q u db token found_id)
      → second_on db ≡ finished found_id
  unfolding mfa_verify_login login_parsed login_verified login_found
  second-finished found_id parsed valid issued =
      rw
        (
          parsed, valid, found_id, issued, mfa_verify_login, login_parsed, login_verified,
          login_found,
        )
        refl

  cookie_finished :
      (found_id : find_user u.id db.users ≡ some u)
      → (finished found_id).cookie ≡ token_cookie token (q.now + session_ttl)
  unfolding finish_login new_issued
  cookie_finished found_id = refl

  -- A user with an active account, the right password, an enrolled second factor and a code that
  -- fits gets in: the login answers with a challenge, the challenge and the code lead in time to a
  -- session cookie, if a token can be drawn that is not in use, and a lookup finds the user's own
  -- identity by that token until it expires.
  pub mfa_verify_login-login :
      IsAccount ext key r req mfa_code u db
      → IsCodec ext key u.id (r.now + mfa_pending_ttl)
      → r.now + mfa_pending_ttl < 9223372036854775808
      → q.now < r.now + mfa_pending_ttl
      → q.random_token ≡ some token
      → str_eq token "" ≡ false
      → is_taken (ext.sha256 token) db.sessions ≡ false
      → ((login ext key r (some req) db).reply ≡ mfa_required challenge expires)
        × (second.cookie ≡ token_cookie token (q.now + session_ttl))
        × ((now : ℕ) → now < q.now + session_ttl → Admits ext token u second.store now)
  mfa_verify_login-login
        (
          found, found_id, with_email, with_password, active, right_password, enrolled, key_long,
          secret, valid,
        )
        (coded_body, coded_mac, no_space-uuid_text, count-uuid_text, parse-uuid_text) bound early
        drawn named fresh =
      let first =
        login-mfa_required ext key r req u db found with_email with_password active right_password
          key_long in
      let unchanged = ap (λ (o : Outcome). o.store) first in
      let e =
        ap second_on unchanged
        ∙ second-finished found_id
            (parse_mfa_challenge-issue_mfa_challenge ext u.id no_space-uuid_text count-uuid_text
              parse-uuid_text key r.now q.now bound early coded_body coded_mac)
            (mfa_verify-none ext key q u db token found_id mfa_code enrolled secret valid)
            (create-fresh ext key q u db token found_id drawn fresh) in
      (
        ap (λ (o : Outcome). o.reply) first,
        ap (λ (o : Outcome). o.cookie) e ∙ cookie_finished found_id,
        λ now k.
            subst (λ (o : Outcome). Admits ext token u o.store now) (sym e)
              (lookup-stamped ext key q u db token found_id now active named k),
      )

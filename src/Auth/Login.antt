-- ===== src/Auth/Login.antt =====
-- internal/auth/handlers.go: logging in, with a second factor where one is enrolled, logging out,
-- and the answer about oneself.
use Prim.Native.String.{len}
use sentinel_mail_gateway.Prelude.{
  ℕ, String, Bool, not, ◌&&◌, ◌||◌, Option, none, some, List, [], ◌∷◌, leb, str_eq, if◌then◌else◌,
  ◌⊎◌, inl, inr,
}
use sentinel_mail_gateway.Strings.{lower, trim_space}
use sentinel_mail_gateway.Auth.{
  User, Store, Identity, Primitives, Request, Outcome, ok, no_content, mfa_required, me, unset,
  token_cookie, expired_cookie, refuse, find_user, is_null, write_audit,
}
use sentinel_mail_gateway.Auth.Sessions.{Issued, create_with_impersonator, lookup, revoke_cookie}
use sentinel_mail_gateway.Auth.Passwords.{verify_password}
use sentinel_mail_gateway.Auth.Challenge.{issue_mfa_challenge, parse_mfa_challenge}
use sentinel_mail_gateway.Auth.Mfa.{change_user, mfa_verify}

-- loginReq
pub record Credentials : Type 0 where
  pub email : String
  pub password : String

-- SELECT … FROM users WHERE email = $1, for a column of type CITEXT
unfoldable pub find_email : String → List User → Option User
unfolding lower
find_email email [] = none
find_email email (u ∷ us) =
    let rest = find_email email us in if str_eq (lower u.email) (lower email) then some u else rest

-- UPDATE users SET last_login_at = now(), failed_login_count = 0
unfoldable pub stamp_login : ℕ → ℕ → Store → Store
unfolding change_user
stamp_login now id db =
    change_user (λ u. record u { last_login_at = some now; failed_login_count = 0 }) id db

module _ (ext : Primitives) (key : String) (r : Request) where
  -- from the call of Store.Create on, which Login and MFAVerifyLogin share
  unfoldable pub finish_login : String → String → ℕ → ℕ → Store → Option Issued → Outcome
  unfolding refuse stamp_login write_audit
  finish_login action failure user org db none = refuse db 500 failure
  finish_login action failure user org db (some issued) = record {
    store = write_audit action user org (stamp_login r.now user issued.store);
    reply = ok;
    cookie = token_cookie issued.token issued.expires_at;
  }

  unfoldable pub wants_mfa : User → Bool
  unfolding is_null
  wants_mfa u = not (is_null u.mfa_enrolled_at) && leb 32 (len key)

  -- Login behind the row of the user
  unfoldable pub login_user : String → Store → User → Outcome
  unfolding refuse verify_password wants_mfa issue_mfa_challenge create_with_impersonator
      finish_login
  login_user password db u =
      if not u.is_active
      then refuse db 401 "invalid credentials"
      else if not (is_null (verify_password ext password u.password_hash))
      then refuse db 401 "invalid credentials"
      else if wants_mfa u
      then record {
        store = db;
        reply =
            mfa_required (issue_mfa_challenge ext key r.now u.id).0
              (issue_mfa_challenge ext key r.now u.id).1;
        cookie = unset;
      }
      else finish_login "auth.login" "internal" u.id u.organization_id db
          (create_with_impersonator ext r.now r.random_token u.id u.organization_id none db)

  unfoldable pub login_row : String → Store → Option User → Outcome
  unfolding refuse login_user
  login_row password db none = refuse db 401 "invalid credentials"
  login_row password db (some u) = login_user password db u

  -- `Login`, for a body that decodes or not
  unfoldable pub login : Option Credentials → Store → Outcome
  unfolding refuse login_row find_email lower trim_space
  login none db = refuse db 400 "bad request"
  login (some req) db =
      let email = trim_space (lower req.email) in
      if str_eq email "" || str_eq req.password ""
      then refuse db 401 "invalid credentials"
      else login_row req.password db (find_email email db.users)

  unfoldable pub login_found : ℕ → Store → Option User → Outcome
  unfolding refuse create_with_impersonator finish_login
  login_found user db none = refuse db 500 "user lookup failed"
  login_found user db (some u) =
      finish_login "auth.mfa.login" "session create failed" user u.organization_id db
        (create_with_impersonator ext r.now r.random_token user u.organization_id none db)

  unfoldable pub login_verified : Store → ℕ → Option String → Outcome
  unfolding refuse find_user login_found
  login_verified db user (some error) = refuse db 401 "invalid code"
  login_verified db user none = login_found user db (find_user user db.users)

  -- behind the challenge: its error or its user
  unfoldable pub login_parsed : String → Store → String ⊎ ℕ → Outcome
  unfolding refuse mfa_verify login_verified
  login_parsed mfa_code db (inl error) = refuse db 401 "invalid challenge"
  login_parsed mfa_code db (inr user) = login_verified db user (mfa_verify ext user mfa_code db)

  -- `MFAVerifyLogin`, for a challenge and a code
  unfoldable pub mfa_verify_login : Option (String × String) → Store → Outcome
  unfolding refuse parse_mfa_challenge login_parsed
  mfa_verify_login none db = refuse db 400 "bad request"
  mfa_verify_login (some (challenge, mfa_code)) db =
      login_parsed mfa_code db (parse_mfa_challenge ext key r.now challenge)

  -- the store that Logout leaves: an entry of the audit for a cookie that is live, then revocation
  unfoldable pub audit_logout : Option Identity → Store → Store
  unfolding write_audit
  audit_logout none db = db
  audit_logout (some ident) db = write_audit "auth.logout" ident.user_id ident.organization_id db

  unfoldable pub logout_store : Option String → Store → Store
  unfolding audit_logout lookup revoke_cookie
  logout_store none db = db
  logout_store (some token) db =
      revoke_cookie ext r.now (some token) (audit_logout (lookup ext r.now token db) db)

  -- `Logout`
  unfoldable pub logout : Store → Outcome
  unfolding logout_store
  logout db = record {
    store = logout_store r.cookie db;
    reply = no_content;
    cookie = expired_cookie;
  }

  -- `Me`
  unfoldable pub tell_me : Store → Outcome
  unfolding refuse is_null
  tell_me db = elim r.identity [
    | none ↦ refuse db 401 "unauthenticated"
    | some ident ↦ record {
      store = db;
      reply = me ident (not (is_null ident.impersonator));
      cookie = unset;
    }
  ]

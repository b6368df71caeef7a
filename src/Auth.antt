-- ===== src/Auth.antt =====
-- internal/auth: users, their sessions and second factors, as rows of the database, and what a
-- handler answers. Times are seconds; a nil time or id is `none`. The hash functions, the
-- authenticator codes and uuid's texts are parameters; database errors are left out, but a random
-- token that cannot be drawn or is taken already makes the insertion fail.

pub mod Scan
pub mod Challenge
pub mod Sessions
pub mod Mfa
pub mod Passwords
pub mod Login
pub mod Impersonation
pub mod Guards
pub mod History
pub mod Admission
pub mod Arrival
pub mod Entrance
pub mod Samples
pub mod Tests
use sentinel_mail_gateway.Prelude.{
  ℕ, String, Bool, true, false, Option, none, some, List, [], ◌∷◌, ◌==◌, if◌then◌else◌,
}

-- a row of users
pub record User : Type 0 where
  pub id : ℕ
  pub organization_id : ℕ
  pub email : String
  pub role : String
  pub is_active : Bool
  pub password_hash : String
  pub mfa_secret : Option String
  pub mfa_enrolled_at : Option ℕ
  pub last_login_at : Option ℕ
  pub failed_login_count : ℕ

-- a row of sessions, without the user agent and the address
pub record Session : Type 0 where
  pub token_hash : String
  pub user_id : ℕ
  pub organization_id : ℕ
  pub expires_at : ℕ
  pub revoked_at : Option ℕ
  pub impersonator_user_id : Option ℕ

-- a call of AuditWrite
pub record AuditEvent : Type 0 where
  pub action : String
  pub user_id : ℕ
  pub org_id : ℕ

pub record Store : Type 0 where
  pub users : List User
  pub sessions : List Session
  pub audits : List AuditEvent

pub record Identity : Type 0 where
  pub user_id : ℕ
  pub organization_id : ℕ
  pub email : String
  pub role : String
  pub impersonator : Option ℕ
  pub impersonator_email : String

-- what the package takes from hash functions, encodings and the libraries it calls
pub record Primitives : Type 0 where
  -- sha256.Sum256 on a text, in hexadecimal or any other faithful writing
  pub sha256 : String → String
  -- argon2.IDKey: password, salt, passes, memory, threads, length
  pub id_key : String → String → ℕ → ℕ → ℕ → ℕ → String
  -- base64.RawURLEncoding and RawStdEncoding
  pub encode_url : String → String
  pub decode_url : String → Option String
  pub decode_std : String → Option String
  -- totp.Validate: code and secret
  pub validate_code : String → String → Bool
  -- uuid.UUID.String and uuid.Parse
  pub uuid_text : ℕ → String
  pub parse_uuid : String → Option ℕ

-- what a request brings: the time, the cookie, the identity that the middleware has put into the
-- context, and the tokens that crypto/rand and totp.Generate draw
pub record Request : Type 0 where
  pub now : ℕ
  pub cookie : Option String
  pub identity : Option Identity
  pub random_token : Option String
  pub random_secret : Option String

pub data Reply : Type 0 where
  http_error : (status : ℕ) → (message : String) → Reply
  ok : Reply
  no_content : Reply
  mfa_required : (challenge : String) → (expires_at : ℕ) → Reply
  mfa_setup : (secret : String) → Reply
  me : (identity : Identity) → (impersonating : Bool) → Reply

-- the session cookie that a reply sets: a token with its expiry, or the empty one that expires it
pub data Cookie : Type 0 where
  unset : Cookie
  token_cookie : (token : String) → (expires_at : ℕ) → Cookie
  expired_cookie : Cookie

pub record Outcome : Type 0 where
  pub store : Store
  pub reply : Reply
  pub cookie : Cookie

-- http.Error: nothing else has happened
unfoldable pub refuse : Store → ℕ → String → Outcome
refuse db status message = record { store = db; reply = http_error status message; cookie = unset }

-- SELECT … FROM users WHERE id = $1
unfoldable pub find_user : ℕ → List User → Option User
find_user id [] = none
find_user id (u ∷ us) = let rest = find_user id us in if u.id == id then some u else rest

unfoldable pub is_null {ℓ} : {A : Type ℓ} → Option A → Bool
is_null none = true
is_null (some a) = false

unfoldable pub write_audit : String → ℕ → ℕ → Store → Store
write_audit action user org db = record db {
  audits = record { action = action; user_id = user; org_id = org } ∷ db.audits;
}

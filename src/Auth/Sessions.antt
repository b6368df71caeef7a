-- ===== src/Auth/Sessions.antt =====
-- internal/auth/session.go: the store of sessions.
pub mod Laws
pub mod Owner
use sentinel_mail_gateway.Prelude.{
  ℕ, ◌+◌, ◌*◌, String, Bool, true, false, not, ◌&&◌, Option, none, some, List, [], ◌∷◌, any, ltb,
  ◌==◌, str_eq, if◌then◌else◌,
}
use sentinel_mail_gateway.Auth.{User, Session, Store, Identity, Primitives, find_user, is_null}

abbrev pub session_ttl : ℕ
session_ttl = 12 * 60 * 60

-- the session that Create returns, with the store after it
pub record Issued : Type 0 where
  pub store : Store
  pub token : String
  pub expires_at : ℕ

-- token_hash is the primary key
unfoldable pub is_taken : String → List Session → Bool
is_taken hash sessions = any (λ (s : Session). str_eq s.token_hash hash) sessions

unfoldable pub insert_session : String → ℕ → ℕ → Option ℕ → ℕ → Store → Store
insert_session hash user org impersonator expires db = record db {
  sessions =
      record {
        token_hash = hash;
        user_id = user;
        organization_id = org;
        expires_at = expires;
        revoked_at = none;
        impersonator_user_id = impersonator;
      }
      ∷ db.sessions;
}

unfoldable pub create_with_impersonator :
    Primitives → ℕ → Option String → ℕ → ℕ → Option ℕ → Store → Option Issued
unfolding insert_session
create_with_impersonator ext now none user org impersonator db = none
create_with_impersonator ext now (some token) user org impersonator db =
    if is_taken (ext.sha256 token) db.sessions
    then none
    else some record {
      store = insert_session (ext.sha256 token) user org impersonator (now + session_ttl) db;
      token = token;
      expires_at = now + session_ttl;
    }

-- `imp.email`, of the LEFT JOIN
unfoldable pub impersonator_email : List User → Option ℕ → String
unfolding find_user
impersonator_email users none = ""
impersonator_email users (some id) = elim (find_user id users) [ some u ↦ u.email | none ↦ "" ]

unfoldable pub identity_of : List User → Session → User → Identity
unfolding impersonator_email
identity_of users s u = record {
  user_id = u.id;
  organization_id = u.organization_id;
  email = u.email;
  role = u.role;
  impersonator = s.impersonator_user_id;
  impersonator_email = impersonator_email users s.impersonator_user_id;
}

-- the WHERE clause on the session
unfoldable pub is_live : ℕ → String → Session → Bool
is_live now hash s = str_eq s.token_hash hash && (is_null s.revoked_at && ltb now s.expires_at)

-- JOIN users ON u.id = s.user_id, with `u.is_active = true`
unfoldable pub if_active : Option User → Option User
if_active none = none
if_active (some u) = if u.is_active then some u else none

unfoldable pub active_user : ℕ → List User → Option User
unfolding find_user if_active
active_user id users = if_active (find_user id users)

unfoldable pub identity_row : List User → Session → Option User → Option Identity
unfolding identity_of
identity_row users s none = none
identity_row users s (some u) = some (identity_of users s u)

unfoldable pub join_user : List User → Session → Option Identity
unfolding active_user identity_row
join_user users s = identity_row users s (active_user s.user_id users)

-- QueryRow: the first row of the query
unfoldable pub first_row : Option Identity → Option Identity → Option Identity
first_row (some ident) rest = some ident
first_row none rest = rest

unfoldable pub lookup_row : ℕ → String → List User → List Session → Option Identity
unfolding join_user is_live first_row
lookup_row now hash users [] = none
lookup_row now hash users (s ∷ ss) =
    let rest = lookup_row now hash users ss in
    if is_live now hash s then first_row (join_user users s) rest else rest

-- `Lookup`, with its error as `none`
unfoldable pub lookup : Primitives → ℕ → String → Store → Option Identity
unfolding lookup_row
lookup ext now token db =
    if str_eq token "" then none else lookup_row now (ext.sha256 token) db.users db.sessions

unfoldable pub revoke_row : ℕ → String → Session → Session
revoke_row now hash s =
    if str_eq s.token_hash hash && is_null s.revoked_at
    then record s { revoked_at = some now }
    else s

unfoldable pub revoke_rows : ℕ → String → List Session → List Session
unfolding revoke_row
revoke_rows now hash [] = []
revoke_rows now hash (s ∷ ss) = revoke_row now hash s ∷ revoke_rows now hash ss

unfoldable pub revoke : Primitives → ℕ → String → Store → Store
unfolding revoke_rows
revoke ext now token db = record db { sessions = revoke_rows now (ext.sha256 token) db.sessions }

-- `if c, err := r.Cookie(…); err == nil { _ = Store.Revoke(…) }`
unfoldable pub revoke_cookie : Primitives → ℕ → Option String → Store → Store
unfolding revoke
revoke_cookie ext now none db = db
revoke_cookie ext now (some token) db = revoke ext now token db

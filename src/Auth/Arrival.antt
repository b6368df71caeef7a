-- ===== src/Auth/Arrival.antt =====
-- internal/auth/handlers.go: what the steps of a login that goes well leave behind.
use sentinel_mail_gateway.Prelude.{
  ℕ, ◌+◌, ◌<◌, String, true, false, none, some, List, [], ◌∷◌, ◌≡◌, refl, ap, ◌∙◌, arith, lt→ltb,
  ◌==◌, str_eq, str_eq_iff, Bool-cases, inl, inr,
}
use mathlib.Core.Option.{map}
use sentinel_mail_gateway.Strings.{lower, trim_space}
use sentinel_mail_gateway.Auth.{
  User, Session, Store, Identity, Primitives, Request, unset, mfa_required, find_user, is_null,
  write_audit,
}
use sentinel_mail_gateway.Auth.Sessions.{
  Issued, is_taken, insert_session, create_with_impersonator, if_active, active_user, identity_of,
  identity_row, is_live, join_user, first_row, lookup_row, lookup, session_ttl,
}
use sentinel_mail_gateway.Auth.Passwords.{verify_password}
use sentinel_mail_gateway.Auth.Challenge.{issue_mfa_challenge}
use sentinel_mail_gateway.Auth.Mfa.{
  text_of, loaded_row, load_mfa, check_with, check_enrolled, mfa_verify, update_user, change_user,
}
use sentinel_mail_gateway.Auth.Login.{
  Credentials, find_email, stamp_login, finish_login, wants_mfa, login_user, login_row, login,
}

find_user-head :
    (id : ℕ) (v : User) (vs : List User) → (v.id == id) ≡ true → find_user id (v ∷ vs) ≡ some v
unfolding find_user
find_user-head id v vs e = rw (e, find_user) refl

find_user-update_user :
    (f : User → User)
    → ((u : User) → (f u).id ≡ u.id)
    → (id : ℕ) (users : List User) (u : User) → find_user id users ≡ some u
    → find_user id (update_user f id users) ≡ some (f u)
unfolding find_user update_user
find_user-update_user f keeps id [] u h = absurd (ground (arith, h))
find_user-update_user f keeps id (v ∷ vs) u h = elim (Bool-cases (v.id == id)) [
  | inl e ↦
      let same_row : some v ≡ some u = ground (arith, e) in
      rw e (
        find_user-head id (f v) (update_user f id vs) (ap (λ i. i == id) (keeps v) ∙ e)
        ∙ ap (map f) same_row)
  | inr e ↦ rw (e, e) (find_user-update_user f keeps id vs u (ground (arith, e)))
]

-- the row of a session that was made just now is found
lookup_row-cons :
    (now : ℕ) (hash : String) (users : List User) (s : Session) (ss : List Session) (u : User)
    → is_live now hash s ≡ true
    → active_user s.user_id users ≡ some u
    → lookup_row now hash users (s ∷ ss) ≡ some (identity_of users s u)
unfolding lookup_row join_user identity_row first_row
lookup_row-cons now hash users s ss u h k = rw (h, k) refl

module _ (ext : Primitives) (key : String) (r : Request) (req : Credentials) (u : User) (db : Store)
    (found : find_email (trim_space (lower req.email)) db.users ≡ some u) where
  -- the login's answer, for a user who needs a code
  pub login-mfa_required :
      str_eq (trim_space (lower req.email)) "" ≡ false
      → str_eq req.password "" ≡ false
      → u.is_active ≡ true
      → is_null (verify_password ext req.password u.password_hash) ≡ true
      → wants_mfa ext key r u ≡ true
      → login ext key r (some req) db ≡ record {
        store = db;
        reply =
            mfa_required
              (issue_mfa_challenge ext key r.now u.id).0
              (issue_mfa_challenge ext key r.now u.id).1;
        cookie = unset;
      }
  unfolding login login_row login_user
  login-mfa_required with_email with_password active right_password key_long =
      rw
        (
          with_email, with_password, found, active, right_password, key_long, login, login_row,
          login_user,
        )
        refl

-- a token opens the account, with nobody behind it
abbrev pub Admits : Primitives → String → User → Store → ℕ → Type 0
Admits ext token u m now =
    (ident : Identity) × (lookup ext now token m ≡ some ident)
    × (ident.user_id ≡ u.id)
    × (ident.role ≡ u.role)
    × (ident.impersonator ≡ none)

-- the stores and the identity of a code that is right
module _ (ext : Primitives) (key : String) (q : Request) (u : User) (db : Store) (token : String)
    (found_id : find_user u.id db.users ≡ some u) where
  new_session : Session
  new_session = record {
    token_hash = ext.sha256 token;
    user_id = u.id;
    organization_id = u.organization_id;
    expires_at = q.now + session_ttl;
    revoked_at = none;
    impersonator_user_id = none;
  }

  unfoldable pub new_issued : Issued
  unfolding insert_session
  new_issued = record {
    store = insert_session (ext.sha256 token) u.id u.organization_id none (q.now + session_ttl) db;
    token = token;
    expires_at = q.now + session_ttl;
  }

  pub create-fresh :
      q.random_token ≡ some token
      → is_taken (ext.sha256 token) db.sessions ≡ false
      → create_with_impersonator ext q.now q.random_token u.id u.organization_id none db
        ≡ some new_issued
  unfolding create_with_impersonator new_issued
  create-fresh drawn fresh = rw (drawn, fresh, create_with_impersonator) refl

  pub mfa_verify-none :
      (mfa_code : String)
      → is_null u.mfa_enrolled_at ≡ false
      → str_eq (text_of u.mfa_secret) "" ≡ false
      → ext.validate_code mfa_code (text_of u.mfa_secret) ≡ true
      → mfa_verify ext u.id mfa_code db ≡ none
  unfolding mfa_verify load_mfa loaded_row check_with check_enrolled
  mfa_verify-none mfa_code enrolled secret valid = rw (found_id, enrolled, secret, valid) refl

  stamp : User → User
  stamp w = record w { last_login_at = some q.now; failed_login_count = 0 }

  active_user-stamped :
      u.is_active ≡ true → active_user u.id (update_user stamp u.id db.users) ≡ some (stamp u)
  unfolding active_user if_active stamp
  active_user-stamped active =
      rw (find_user-update_user stamp (λ w. refl) u.id db.users u found_id, active) refl

  is_live-new_session :
      (now : ℕ) → now < q.now + session_ttl → is_live now (ext.sha256 token) new_session ≡ true
  unfolding is_live new_session is_null
  is_live-new_session now early =
      rw
        (
          (str_eq_iff (ext.sha256 token) (ext.sha256 token)).1 refl,
          lt→ltb now (q.now + session_ttl) early,
        )
        refl

  pub lookup-stamped :
      (now : ℕ)
      → u.is_active ≡ true
      → str_eq token "" ≡ false
      → now < q.now + session_ttl
      → Admits ext token u
          (finish_login ext key q "auth.mfa.login" "session create failed" u.id u.organization_id db
            (some new_issued)).store
          now
  unfolding lookup finish_login stamp_login change_user write_audit new_issued insert_session
      identity_of new_session stamp
  lookup-stamped now active named early =
      let users = update_user stamp u.id db.users in
      (
        identity_of users new_session (stamp u),
        rw named (
            lookup_row-cons now (ext.sha256 token) users new_session db.sessions (stamp u)
              (is_live-new_session now early) (active_user-stamped active)),
        refl,
        refl,
        refl,
      )

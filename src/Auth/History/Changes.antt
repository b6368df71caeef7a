-- ===== src/Auth/History/Changes.antt =====
-- The changes of the store that requests are made of, and those of logging in and out.
use sentinel_mail_gateway.Prelude.{
  ℕ, String, Bool, true, false, not, ◌&&◌, ◌||◌, Option, none, some, List, ◌≡◌, refl, arith, ltb,
  ◌==◌, str_eq, Bool-cases, Option-cases, inl, inr, ◌⊎◌,
}
use sentinel_mail_gateway.Strings.{lower, trim_space}
use sentinel_mail_gateway.Auth.{
  User, Store, Identity, AuditEvent, Primitives, Request, Outcome, Reply, http_error, refuse,
  find_user, is_null, write_audit,
}
use sentinel_mail_gateway.Auth.Sessions.{
  Issued, create_with_impersonator, lookup, revoke, revoke_cookie,
}
use sentinel_mail_gateway.Auth.Mfa.{change_user, mfa_verify}
use sentinel_mail_gateway.Auth.Passwords.{verify_password}
use sentinel_mail_gateway.Auth.Challenge.{parse_mfa_challenge}
use sentinel_mail_gateway.Auth.Login.{
  Credentials, find_email, stamp_login, finish_login, wants_mfa, login_user, login_row, login,
  login_found, login_verified, login_parsed, mfa_verify_login, audit_logout, logout_store, logout,
  tell_me,
}

-- the role of the user with an id is super_admin
unfoldable pub is_super : List User → ℕ → Bool
unfolding find_user
is_super users id = elim (find_user id users) [
  | some u ↦ str_eq u.role "super_admin"
  | none ↦ false
]

-- who may make a session for `user`: nobody special, or a super_admin who is someone else
unfoldable pub is_warranted : List User → ℕ → Option ℕ → Bool
unfolding is_super
is_warranted users user none = true
is_warranted users user (some admin) = is_super users admin && not (user == admin)

-- an answer with an error of the client's, 4xx
abbrev pub is_client_error : Reply → Bool
is_client_error (http_error status message) = ltb status 500
is_client_error _ = false

abbrev pub refused : Outcome → Bool
refused o = is_client_error o.reply

module _ (ext : Primitives) where
  pub data Changes : Store → Store → Type 0 where
    same : {db : Store} → Changes db db
    audited :
        {db m : Store} → Changes db m → (a : List AuditEvent) → Changes db (record m { audits = a })
    updated :
        {db m : Store}
        → Changes db m
        → (f : User → User) → ((u : User) → (f u).id ≡ u.id)
        → ((u : User) → (f u).role ≡ u.role)
        → (id : ℕ) → Changes db (change_user f id m)
    revoked :
        {db m : Store}
        → Changes db m
        → (now : ℕ) → (token : String) → Changes db (revoke ext now token m)
    inserted :
        {db m : Store} {issued : Issued}
        → Changes db m
        → (now : ℕ) → (random : Option String) → (user org : ℕ) → (admin : Option ℕ)
        → create_with_impersonator ext now random user org admin m ≡ some issued
        → is_warranted m.users user admin ≡ true
        → Changes db issued.store

  -- a request's effect: these changes, and none where it is refused for a reason of its own
  abbrev pub Serves : Store → Outcome → Type 0
  Serves db o = Changes db o.store × (refused o ≡ true → o.store ≡ db)

  module _ (key : String) (r : Request) where
    finish_login-Changes :
        (action failure : String) (user org : ℕ) (db : Store) (o : Option Issued)
        → create_with_impersonator ext r.now r.random_token user org none db ≡ o
        → Serves db (finish_login ext key r action failure user org db o)
    unfolding finish_login refuse stamp_login write_audit is_warranted
    finish_login-Changes action failure user org db none e = (same, λ _. refl)
    finish_login-Changes action failure user org db (some issued) e = (
      audited
          (updated (inserted same r.now r.random_token user org none e refl)
            (λ u. record u { last_login_at = some r.now; failed_login_count = 0 }) (λ u. refl)
            (λ u. refl) user)
          _,
      λ h. absurd (ground (arith, h)),
    )

    login_user-Changes :
        (password : String) (db : Store) (u : User) → Serves db (login_user ext key r password db u)
    unfolding login_user refuse
    login_user-Changes password db u = elim (Bool-cases u.is_active) [
      | inr e ↦ rw e (same, λ _. refl)
      | inl e ↦ rw e (elim (Bool-cases (is_null (verify_password ext password u.password_hash))) [
        | inr f ↦ rw f (same, λ _. refl)
        | inl f ↦ rw f (elim (Bool-cases (wants_mfa ext key r u)) [
          | inl g ↦ rw g (same, λ h. absurd (ground (arith, h)))
          | inr g ↦
              rw g (finish_login-Changes "auth.login" "internal" u.id u.organization_id db _ refl)
        ])
      ])
    ]

    login_row-Changes :
        (password : String) (db : Store) (row : Option User)
        → Serves db (login_row ext key r password db row)
    unfolding login_row refuse
    login_row-Changes password db none = (same, λ _. refl)
    login_row-Changes password db (some u) = login_user-Changes password db u

    pub login-Changes :
        (body : Option Credentials) (db : Store) → Serves db (login ext key r body db)
    unfolding login refuse
    login-Changes none db = (same, λ _. refl)
    login-Changes (some req) db =
        elim (Bool-cases (str_eq (trim_space (lower req.email)) "" || str_eq req.password "")) [
          | inl e ↦ rw e (same, λ _. refl)
          | inr e ↦ rw e (
              login_row-Changes req.password db
                (find_email (trim_space (lower req.email)) db.users))
        ]

    login_found-Changes :
        (user : ℕ) (db : Store) (row : Option User) → Serves db (login_found ext key r user db row)
    unfolding login_found refuse
    login_found-Changes user db none = (same, λ _. refl)
    login_found-Changes user db (some u) =
        finish_login-Changes "auth.mfa.login" "session create failed" user u.organization_id db
          (create_with_impersonator ext r.now r.random_token user u.organization_id none db) refl

    login_verified-Changes :
        (db : Store) (user : ℕ) (error : Option String)
        → Serves db (login_verified ext key r db user error)
    unfolding login_verified refuse
    login_verified-Changes db user (some error) = (same, λ _. refl)
    login_verified-Changes db user none = login_found-Changes user db (find_user user db.users)

    login_parsed-Changes :
        (mfa_code : String) (db : Store) (parsed : String ⊎ ℕ)
        → Serves db (login_parsed ext key r mfa_code db parsed)
    unfolding login_parsed refuse
    login_parsed-Changes mfa_code db (inl error) = (same, λ _. refl)
    login_parsed-Changes mfa_code db (inr user) =
        login_verified-Changes db user (mfa_verify ext user mfa_code db)

    pub mfa_verify_login-Changes :
        (body : Option (String × String)) (db : Store)
        → Serves db (mfa_verify_login ext key r body db)
    unfolding mfa_verify_login refuse
    mfa_verify_login-Changes none db = (same, λ _. refl)
    mfa_verify_login-Changes (some (challenge, mfa_code)) db =
        login_parsed-Changes mfa_code db (parse_mfa_challenge ext key r.now challenge)

    pub revoke_cookie-Changes :
        {db m : Store}
        → Changes db m
        → (cookie : Option String) → Changes db (revoke_cookie ext r.now cookie m)
    unfolding revoke_cookie
    revoke_cookie-Changes h none = h
    revoke_cookie-Changes h (some token) = revoked h r.now token

    audit_logout-Changes :
        (db : Store) (ident : Option Identity) → Changes db (audit_logout ext key r ident db)
    unfolding audit_logout write_audit
    audit_logout-Changes db none = same
    audit_logout-Changes db (some ident) = audited same _

    logout_store-Changes :
        (db : Store) (cookie : Option String) → Changes db (logout_store ext key r cookie db)
    unfolding logout_store
    logout_store-Changes db none = same
    logout_store-Changes db (some token) =
        revoke_cookie-Changes (audit_logout-Changes db (lookup ext r.now token db)) (some token)

    pub logout-Changes : (db : Store) → Serves db (logout ext key r db)
    unfolding logout
    logout-Changes db = (logout_store-Changes db r.cookie, λ h. absurd (ground (arith, h)))

    pub tell_me-Changes : (q : Request) (db : Store) → Serves db (tell_me ext key q db)
    unfolding tell_me refuse
    tell_me-Changes q db = elim (Option-cases q.identity) [
      | inl e ↦ rw e (same, λ _. refl)
      | inr (ident, e) ↦ rw e (same, λ h. absurd (ground (arith, h)))
    ]

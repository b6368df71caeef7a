-- ===== src/Auth/Admission.antt =====
-- Who is let in.
use sentinel_mail_gateway.Prelude.{
  ℕ, String, Bool, true, false, ◌||◌, Option, none, some, ◌≡◌, refl, ap, arith, str_eq, Bool-cases,
  inl, inr, ◌⊎◌,
}
use sentinel_mail_gateway.Strings.{lower, trim_space}
use sentinel_mail_gateway.Auth.{
  User, Store, Primitives, Request, Reply, ok, refuse, find_user, is_null,
}
use sentinel_mail_gateway.Auth.Passwords.{verify_password}
use sentinel_mail_gateway.Auth.Challenge.{parse_mfa_challenge}
use sentinel_mail_gateway.Auth.Mfa.{
  text_of, loaded_row, load_mfa, check_with, check_enrolled, mfa_verify,
}
use sentinel_mail_gateway.Auth.Login.{
  Credentials, find_email, wants_mfa, login_user, login_row, login, login_verified, login_parsed,
  mfa_verify_login,
}

abbrev is_ok : Reply → Bool
is_ok ok = true
is_ok _ = false

module _ (ext : Primitives) (key : String) (r : Request) where
  -- an active user whose password is right and who needs no code
  abbrev pub IsAdmitted : String → User → Type 0
  IsAdmitted password u =
      (u.is_active ≡ true)
      × (is_null (verify_password ext password u.password_hash) ≡ true)
      × (wants_mfa ext key r u ≡ false)

  login_user-ok :
      (password : String) (db : Store) (u : User)
      → is_ok (login_user ext key r password db u).reply ≡ true
      → IsAdmitted password u
  unfolding login_user refuse
  login_user-ok password db u h = elim (Bool-cases u.is_active) [
    | inr e ↦ absurd (ground (arith, e))
    | inl e ↦ elim (Bool-cases (is_null (verify_password ext password u.password_hash))) [
      | inr f ↦ absurd (ground (arith, e, f))
      | inl f ↦ elim (Bool-cases (wants_mfa ext key r u)) [
        | inl g ↦ absurd (ground (arith, e, f, g))
        | inr g ↦ (e, f, g)
      ]
    ]
  ]

  login_row-ok :
      (password : String) (db : Store) (row : Option User)
      → is_ok (login_row ext key r password db row).reply ≡ true
      → (u : User) × (row ≡ some u) × IsAdmitted password u
  unfolding login_row refuse
  login_row-ok password db none h = absurd (ground (arith, h))
  login_row-ok password db (some u) h = (u, refl, login_user-ok password db u h)

  -- A login is answered with success only if the address has a user who is active, whose password
  -- is verified and of whom no second factor is wanted.
  pub login-ok :
      (req : Credentials) (db : Store)
      → (login ext key r (some req) db).reply ≡ ok
      → (u : User) × (find_email (trim_space (lower req.email)) db.users ≡ some u)
        × IsAdmitted req.password u
  unfolding login refuse
  login-ok req db h =
      elim (Bool-cases (str_eq (trim_space (lower req.email)) "" || str_eq req.password "")) [
        | inl e ↦ absurd (ground (arith, e, ap is_ok h))
        | inr e ↦
            login_row-ok req.password db (find_email (trim_space (lower req.email)) db.users)
              (ground (arith, e, ap is_ok h))
      ]

  -- the code of an enrolled second factor is right
  abbrev pub IsCodeRight : String → User → Type 0
  IsCodeRight mfa_code u =
      (is_null u.mfa_enrolled_at ≡ false)
      × (str_eq (text_of u.mfa_secret) "" ≡ false)
      × (ext.validate_code mfa_code (text_of u.mfa_secret) ≡ true)

  loaded_row-IsCodeRight :
      (mfa_code : String) (row : Option User)
      → check_with ext (check_enrolled ext mfa_code) (loaded_row row) ≡ none
      → (u : User) × (row ≡ some u) × IsCodeRight mfa_code u
  unfolding check_with check_enrolled loaded_row is_null
  loaded_row-IsCodeRight mfa_code none h = absurd (ground (arith, h))
  loaded_row-IsCodeRight mfa_code (some u) h = elim (Bool-cases (is_null u.mfa_enrolled_at)) [
    | inl e ↦ absurd (ground (arith, e))
    | inr e ↦ elim (Bool-cases (str_eq (text_of u.mfa_secret) "")) [
      | inl f ↦ absurd (ground (arith, e, f))
      | inr f ↦ elim (Bool-cases (ext.validate_code mfa_code (text_of u.mfa_secret))) [
        | inr g ↦ absurd (ground (arith, e, f, g))
        | inl g ↦ (u, refl, (e, f, g))
      ]
    ]
  ]

  login_verified-ok :
      (db : Store) (user : ℕ) (error : Option String)
      → is_ok (login_verified ext key r db user error).reply ≡ true
      → error ≡ none
  unfolding login_verified refuse
  login_verified-ok db user (some e) h = absurd (ground (arith, h))
  login_verified-ok db user none h = refl

  login_parsed-ok :
      (mfa_code : String) (db : Store) (parsed : String ⊎ ℕ)
      → is_ok (login_parsed ext key r mfa_code db parsed).reply ≡ true
      → (user : ℕ) × (u : User) × (parsed ≡ inr user)
        × (find_user user db.users ≡ some u)
        × IsCodeRight mfa_code u
  unfolding login_parsed refuse mfa_verify load_mfa
  login_parsed-ok mfa_code db (inl error) h = absurd (ground (arith, h))
  login_parsed-ok mfa_code db (inr user) h =
      let (u, found, right) =
        loaded_row-IsCodeRight mfa_code (find_user user db.users)
          (login_verified-ok db user (mfa_verify ext user mfa_code db) h) in
      (user, u, refl, found, right)

  -- A second step is answered with success only if the challenge names a user with an enrolled
  -- secret that the code fits.
  pub mfa_verify_login-ok :
      (challenge mfa_code : String) (db : Store)
      → (mfa_verify_login ext key r (some (challenge, mfa_code)) db).reply ≡ ok
      → (user : ℕ) × (u : User) × (parse_mfa_challenge ext key r.now challenge ≡ inr user)
        × (find_user user db.users ≡ some u)
        × IsCodeRight mfa_code u
  unfolding mfa_verify_login
  mfa_verify_login-ok challenge mfa_code db h =
      login_parsed-ok mfa_code db (parse_mfa_challenge ext key r.now challenge) (ap is_ok h)

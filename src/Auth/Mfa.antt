-- ===== src/Auth/Mfa.antt =====
-- internal/auth/mfa.go: enrolling an authenticator, confirming and disabling it, and the check of a
-- code. The QR code and the address of the setup's answer are left out.
use sentinel_mail_gateway.Prelude.{
  ℕ, String, Bool, not, ◌||◌, Option, none, some, List, [], ◌∷◌, ◌==◌, str_eq, if◌then◌else◌, ◌⊎◌,
  inl, inr,
}
use sentinel_mail_gateway.Auth.{
  User, Store, Identity, Primitives, Request, Outcome, no_content, mfa_setup, unset, refuse,
  find_user, is_null, write_audit,
}

-- UPDATE users SET … WHERE id = $1
unfoldable pub update_user : (User → User) → ℕ → List User → List User
update_user f id [] = []
update_user f id (u ∷ us) = (if u.id == id then f u else u) ∷ update_user f id us

unfoldable pub change_user : (User → User) → ℕ → Store → Store
unfolding update_user
change_user f id db = record db { users = update_user f id db.users }

-- a secret that is NULL is read as ""
unfoldable pub text_of : Option String → String
text_of none = ""
text_of (some s) = s

-- `loadMFA`: the secret, and whether it is enrolled
unfoldable pub loaded_row : Option User → String ⊎ (String × Bool)
unfolding text_of
loaded_row none = inl "user not found"
loaded_row (some u) = inr (text_of u.mfa_secret, not (is_null u.mfa_enrolled_at))

unfoldable pub load_mfa : ℕ → Store → String ⊎ (String × Bool)
unfolding find_user loaded_row
load_mfa id db = loaded_row (find_user id db.users)

module _ (ext : Primitives) where
  -- `MFASetup`, for the secret that was drawn
  unfoldable pub set_secret : String → ℕ → Store → Store
  unfolding change_user
  set_secret secret id db =
      change_user (λ u. record u { mfa_secret = some secret; mfa_enrolled_at = none }) id db

  -- the check that MFADisable and MFAVerify share
  unfoldable pub check_enrolled : String → (String × Bool) → Option String
  check_enrolled code (secret, enrolled) =
      if not enrolled || str_eq secret ""
      then some "MFA not enrolled"
      else if not (ext.validate_code code secret)
      then some "invalid code"
      else none

  unfoldable pub check_pending : String → (String × Bool) → Option String
  check_pending code (secret, enrolled) =
      if str_eq secret ""
      then some "no pending MFA secret; call setup first"
      else if not (ext.validate_code code secret)
      then some "invalid code"
      else none

  -- the error of the loading, or else of the check
  unfoldable pub check_with :
      ((String × Bool) → Option String) → (String ⊎ (String × Bool)) → Option String
  check_with check (inl error) = some error
  check_with check (inr loaded) = check loaded

  -- `MFAVerify`
  unfoldable pub mfa_verify : ℕ → String → Store → Option String
  unfolding check_with check_enrolled load_mfa
  mfa_verify id code db = check_with (check_enrolled code) (load_mfa id db)

  -- the update behind a check
  unfoldable pub after_check : Option String → Store → String ⊎ Store
  after_check (some error) changed = inl error
  after_check none changed = inr changed

  -- `MFAConfirm` and `MFADisable`: an error, or the store after the update
  unfoldable pub mfa_confirm : ℕ → ℕ → String → Store → String ⊎ Store
  unfolding check_with check_pending load_mfa change_user after_check
  mfa_confirm now id code db =
      after_check (check_with (check_pending code) (load_mfa id db))
        (change_user (λ u. record u { mfa_enrolled_at = some now }) id db)

  unfoldable pub mfa_disable : ℕ → String → Store → String ⊎ Store
  unfolding mfa_verify change_user after_check
  mfa_disable id code db =
      after_check (mfa_verify id code db)
        (change_user (λ u. record u { mfa_secret = none; mfa_enrolled_at = none }) id db)

  -- the end of Confirm and Disable
  unfoldable pub finish_code : String → Identity → Store → (String ⊎ Store) → Outcome
  unfolding refuse write_audit
  finish_code action ident db (inl error) = refuse db 400 error
  finish_code action ident db (inr changed) = record {
    store = write_audit action ident.user_id ident.organization_id changed;
    reply = no_content;
    cookie = unset;
  }

  -- `Setup`
  unfoldable pub setup : Request → Store → Outcome
  unfolding refuse set_secret write_audit
  setup r db = elim r.identity [
    | none ↦ refuse db 401 "unauthenticated"
    | some ident ↦ elim r.random_secret [
      | none ↦ refuse db 500 "setup failed"
      | some secret ↦ record {
        store =
            write_audit "auth.mfa.setup" ident.user_id ident.organization_id
              (set_secret secret ident.user_id db);
        reply = mfa_setup secret;
        cookie = unset;
      }
    ]
  ]

  -- `Confirm` and `Disable`, for the code of a body that decodes
  unfoldable pub confirm : Request → Option String → Store → Outcome
  unfolding refuse mfa_confirm finish_code
  confirm r body db = elim r.identity [
    | none ↦ refuse db 401 "unauthenticated"
    | some ident ↦ elim body [
      | none ↦ refuse db 400 "bad request"
      | some code ↦
          finish_code "auth.mfa.enrolled" ident db (mfa_confirm r.now ident.user_id code db)
    ]
  ]

  unfoldable pub disable : Request → Option String → Store → Outcome
  unfolding refuse mfa_disable finish_code
  disable r body db = elim r.identity [
    | none ↦ refuse db 401 "unauthenticated"
    | some ident ↦ elim body [
      | none ↦ refuse db 400 "bad request"
      | some code ↦ finish_code "auth.mfa.disabled" ident db (mfa_disable ident.user_id code db)
    ]
  ]

-- ===== src/Auth/History/Codes.antt =====
-- The changes of the handlers for an authenticator, and of those for impersonation.
use sentinel_mail_gateway.Prelude.{
  ℕ, String, true, false, Option, none, some, ◌≡◌, refl, arith, ◌==◌, str_eq, Bool-cases,
  Option-cases, inl, inr,
}
use sentinel_mail_gateway.Auth.{
  User, Store, Identity, Primitives, Request, refuse, is_null, write_audit,
}
use sentinel_mail_gateway.Auth.Sessions.{
  Issued, create_with_impersonator, active_user, revoke, revoke_cookie,
}
use sentinel_mail_gateway.Auth.Mfa.{
  set_secret, mfa_verify, mfa_confirm, mfa_disable, finish_code, setup, confirm, disable,
  after_check, check_with, check_pending, load_mfa,
}
use sentinel_mail_gateway.Auth.Impersonation.{
  finish_start, become, start_as, start_target, start_impersonating, finish_stop, return_to,
  stop_as, stop_impersonating,
}
use sentinel_mail_gateway.Auth.Sessions.Owner.{IsUser, find_user-id, active_user-cases}
use sentinel_mail_gateway.Auth.History.Changes.{
  Changes, Serves, same, audited, updated, inserted, is_super, is_warranted, revoke_cookie-Changes,
}

module _ (ext : Primitives) where
  pub setup-Changes : (q : Request) (db : Store) → Serves ext db (setup ext q db)
  unfolding setup refuse set_secret write_audit
  setup-Changes q db = elim (Option-cases q.identity) [
    | inl e ↦ rw e (same, λ _. refl)
    | inr (ident, e) ↦ rw e (elim (Option-cases q.random_secret) [
      | inl f ↦ rw f (same, λ _. refl)
      | inr (secret, f) ↦ rw f (
        audited
            (updated same (λ u. record u { mfa_secret = some secret; mfa_enrolled_at = none })
              (λ u. refl) (λ u. refl) ident.user_id)
            _,
        λ h. absurd (ground (arith, h)),
      )
    ])
  ]

  finish_code-Changes :
      (action : String) (ident : Identity) {db changed : Store} (error : Option String)
      → Changes ext db changed
      → Serves ext db (finish_code ext action ident db (after_check ext error changed))
  unfolding finish_code refuse write_audit after_check
  finish_code-Changes action ident (some error) h = (same, λ _. refl)
  finish_code-Changes action ident none h = (audited h _, λ k. absurd (ground (arith, k)))

  pub confirm-Changes :
      (q : Request) (body : Option String) (db : Store) → Serves ext db (confirm ext q body db)
  unfolding confirm refuse mfa_confirm
  confirm-Changes q body db = elim (Option-cases q.identity) [
    | inl e ↦ rw e (same, λ _. refl)
    | inr (ident, e) ↦ rw e (elim (Option-cases body) [
      | inl f ↦ rw f (same, λ _. refl)
      | inr (code, f) ↦ rw f (
          finish_code-Changes "auth.mfa.enrolled" ident
            (check_with ext (check_pending ext code) (load_mfa ident.user_id db))
            (updated same (λ u. record u { mfa_enrolled_at = some q.now }) (λ u. refl) (λ u. refl)
              ident.user_id))
    ])
  ]

  pub disable-Changes :
      (q : Request) (body : Option String) (db : Store) → Serves ext db (disable ext q body db)
  unfolding disable refuse mfa_disable
  disable-Changes q body db = elim (Option-cases q.identity) [
    | inl e ↦ rw e (same, λ _. refl)
    | inr (ident, e) ↦ rw e (elim (Option-cases body) [
      | inl f ↦ rw f (same, λ _. refl)
      | inr (code, f) ↦ rw f (
          finish_code-Changes "auth.mfa.disabled" ident (mfa_verify ext ident.user_id code db) (
            updated same (λ u. record u { mfa_secret = none; mfa_enrolled_at = none }) (λ u. refl)
              (λ u. refl) ident.user_id))
    ])
  ]

  module _ (r : Request) where
    finish_stop-Changes :
        {db m : Store}
        → Changes ext db m
        → (user org : ℕ) (o : Option Issued)
        → create_with_impersonator ext r.now r.random_token user org none m ≡ o
        → Serves ext db (finish_stop ext r m o)
    unfolding finish_stop refuse is_warranted
    finish_stop-Changes h user org none e = (h, λ k. absurd (ground (arith, k)))
    finish_stop-Changes h user org (some issued) e =
        (inserted h r.now r.random_token user org none e refl, λ k. absurd (ground (arith, k)))

    stop_as-Changes : (db : Store) (row : Option User) → Serves ext db (stop_as ext r db row)
    unfolding stop_as refuse return_to
    stop_as-Changes db none = (same, λ _. refl)
    stop_as-Changes db (some admin) =
        finish_stop-Changes (revoke_cookie-Changes ext "" r same r.cookie) admin.id
          admin.organization_id _ refl

    pub stop_impersonating-Changes : (db : Store) → Serves ext db (stop_impersonating ext r db)
    unfolding stop_impersonating refuse
    stop_impersonating-Changes db = elim (Option-cases r.identity) [
      | inl e ↦ rw e (same, λ _. refl)
      | inr (ident, e) ↦ rw e (elim (Option-cases ident.impersonator) [
        | inl f ↦ rw f (same, λ _. refl)
        | inr (admin, f) ↦ rw f (stop_as-Changes db (active_user admin db.users))
      ])
    ]

    module _ (ident : Identity) (db : Store) (h : is_super db.users ident.user_id ≡ true) where
      users-revoke_cookie :
          (cookie : Option String) → (revoke_cookie ext r.now cookie db).users ≡ db.users
      unfolding revoke_cookie revoke
      users-revoke_cookie none = refl
      users-revoke_cookie (some token) = refl

      finish_start-Changes :
          {m : Store}
          → Changes ext db m
          → m.users ≡ db.users
          → (user org : ℕ) → (user == ident.user_id) ≡ false
          → (o : Option Issued)
          → create_with_impersonator ext r.now r.random_token user org (some ident.user_id) m ≡ o
          → Serves ext db (finish_start ext r ident m o)
      unfolding finish_start refuse write_audit is_warranted
      finish_start-Changes c e user org k none f = (c, λ p. absurd (ground (arith, p)))
      finish_start-Changes c e user org k (some issued) f = (
        audited
            (inserted c r.now r.random_token user org (some ident.user_id) f (rw (e, h, k) refl)) _,
        λ p. absurd (ground (arith, p)),
      )

      start_as-Changes :
          (row : Option User)
          → ((u : User) → row ≡ some u → (u.id == ident.user_id) ≡ false)
          → Serves ext db (start_as ext r ident db row)
      unfolding start_as refuse become
      start_as-Changes none k = (same, λ _. refl)
      start_as-Changes (some target) k =
          finish_start-Changes (revoke_cookie-Changes ext "" r same r.cookie)
            (users-revoke_cookie r.cookie) target.id target.organization_id (k target refl) _ refl

      start_target-Changes :
          (target : Option ℕ) → Serves ext db (start_target ext r ident db target)
      unfolding start_target refuse
      start_target-Changes none = (same, λ _. refl)
      start_target-Changes (some target) = elim (Bool-cases (target == ident.user_id)) [
        | inl e ↦ rw e (same, λ _. refl)
        | inr e ↦ rw e (
            start_as-Changes (active_user target db.users) λ u f.
              rw (find_user-id target db.users u (active_user-cases target db.users u f).0) e)
      ]

    pub start_impersonating-Changes :
        (body : Option String) (db : Store)
        → ((ident : Identity) → r.identity ≡ some ident → IsUser db.users ident)
        → Serves ext db (start_impersonating ext r body db)
    unfolding start_impersonating refuse is_super
    start_impersonating-Changes body db owner = elim (Option-cases r.identity) [
      | inl e ↦ rw e (same, λ _. refl)
      | inr (ident, e) ↦ rw e (elim (Bool-cases (str_eq ident.role "super_admin")) [
        | inr f ↦ rw f (same, λ _. refl)
        | inl f ↦ rw f (elim (Bool-cases (is_null ident.impersonator)) [
          | inr g ↦ rw g (same, λ _. refl)
          | inl g ↦ rw g (elim (Option-cases body) [
            | inl k ↦ rw k (same, λ _. refl)
            | inr (target, k) ↦
                let (u, found, _, role, _) = owner ident e in
                rw k (
                  start_target-Changes ident db (rw (found, is_super) (rw role f))
                    (ext.parse_uuid target))
          ])
        ])
      ])
    ]

-- ===== src/Auth/History/Served.antt =====
-- The changes of every route.
use sentinel_mail_gateway.Prelude.{
  ℕ, String, true, Option, none, some, ◌≡◌, refl, subst, arith, str_eq, Bool-cases, Option-cases,
  inl, inr,
}
use sentinel_mail_gateway.Auth.{Store, Identity, Primitives, Request, Outcome, refuse}
use sentinel_mail_gateway.Auth.Sessions.Owner.{IsUser, IsUserRow, lookup-IsUser}
use sentinel_mail_gateway.Auth.Guards.{cookie_identity, middleware}
use sentinel_mail_gateway.Auth.Login.{tell_me}
use sentinel_mail_gateway.Auth.Mfa.{setup, confirm, disable}
use sentinel_mail_gateway.Auth.Impersonation.{start_impersonating, stop_impersonating}
use sentinel_mail_gateway.Auth.History.{
  Route, post_login, post_mfa_verify, post_logout, get_me, post_impersonate, post_impersonate_stop,
  post_mfa_setup, post_mfa_confirm, post_mfa_disable, serve,
}
use sentinel_mail_gateway.Auth.History.Changes.{
  Serves, same, refused, login-Changes, mfa_verify_login-Changes, logout-Changes, tell_me-Changes,
}
use sentinel_mail_gateway.Auth.History.Codes.{
  setup-Changes, confirm-Changes, disable-Changes, stop_impersonating-Changes,
  start_impersonating-Changes,
}

pub cookie_identity-IsUser :
    (ext : Primitives) (now : ℕ) (db : Store) (cookie : Option String) (ident : Identity)
    → cookie_identity ext now db cookie ≡ some ident
    → IsUser db.users ident
unfolding cookie_identity
cookie_identity-IsUser ext now db none ident h = absurd (ground (arith, h))
cookie_identity-IsUser ext now db (some token) ident h = elim (Bool-cases (str_eq token "")) [
  | inl e ↦ absurd (ground (arith, e))
  | inr e ↦ lookup-IsUser ext now token db ident (ground (arith, e))
]

module _ (ext : Primitives) (r : Request) (db : Store) where
  -- the handler runs with the identity of an active user, or not at all
  middleware-Serves :
      (handler : Request → Store → Outcome)
      → ((ident : Identity)
          → IsUser db.users ident
          → Serves ext db (handler (record r { identity = some ident }) db))
      → Serves ext db (middleware ext handler r db)
  unfolding middleware refuse
  middleware-Serves handler h = elim (Option-cases (cookie_identity ext r.now db r.cookie)) [
    | inl e ↦ rw (e, middleware) (same, λ _. refl)
    | inr (ident, e) ↦
        rw (e, middleware) (h ident (cookie_identity-IsUser ext r.now db r.cookie ident e))
  ]

  pub serve-Serves : (key : String) (route : Route) → Serves ext db (serve ext key route r db)
  unfolding serve
  serve-Serves key (post_login body) = login-Changes ext key r body db
  serve-Serves key (post_mfa_verify body) = mfa_verify_login-Changes ext key r body db
  serve-Serves key post_logout = logout-Changes ext key r db
  serve-Serves key get_me =
      middleware-Serves (λ q. tell_me ext key q)
        λ ident h. tell_me-Changes ext key r (record r { identity = some ident }) db
  serve-Serves key (post_impersonate body) =
      middleware-Serves (λ q. start_impersonating ext q body)
        λ ident h.
          start_impersonating-Changes ext (record r { identity = some ident }) body db
            λ other e. subst (IsUserRow db.users) e h
  serve-Serves key post_impersonate_stop =
      middleware-Serves (λ q. stop_impersonating ext q)
        λ ident h. stop_impersonating-Changes ext (record r { identity = some ident }) db
  serve-Serves key post_mfa_setup =
      middleware-Serves (λ q. setup ext q)
        λ ident h. setup-Changes ext (record r { identity = some ident }) db
  serve-Serves key (post_mfa_confirm body) =
      middleware-Serves (λ q. confirm ext q body)
        λ ident h. confirm-Changes ext (record r { identity = some ident }) body db
  serve-Serves key (post_mfa_disable body) =
      middleware-Serves (λ q. disable ext q body)
        λ ident h. disable-Changes ext (record r { identity = some ident }) body db

  -- A request to a route of the package that is answered with a 4xx status leaves users, sessions
  -- and audit as they were.
  pub serve-refused :
      (key : String) (route : Route)
      → refused (serve ext key route r db) ≡ true
      → (serve ext key route r db).store ≡ db
  serve-refused key route = (serve-Serves key route).1

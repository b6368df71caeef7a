-- ===== src/Auth/History.antt =====
-- internal/httpapi/server.go: the routes of internal/auth, and the stores that a series of requests
-- leads to.
pub mod Changes
pub mod Codes
pub mod Served
pub mod Spent
pub mod Warrants
use sentinel_mail_gateway.Prelude.{ℕ, String, Option}
use sentinel_mail_gateway.Auth.{Store, Primitives, Request, Outcome}
use sentinel_mail_gateway.Auth.Mfa.{setup, confirm, disable}
use sentinel_mail_gateway.Auth.Login.{Credentials, login, mfa_verify_login, logout, tell_me}
use sentinel_mail_gateway.Auth.Impersonation.{start_impersonating, stop_impersonating}
use sentinel_mail_gateway.Auth.Guards.{middleware}

-- a request by its route, with what its body decodes to
pub data Route : Type 0 where
  post_login : Option Credentials → Route
  post_mfa_verify : Option (String × String) → Route
  post_logout : Route
  get_me : Route
  post_impersonate : Option String → Route
  post_impersonate_stop : Route
  post_mfa_setup : Route
  post_mfa_confirm : Option String → Route
  post_mfa_disable : Option String → Route

module _ (ext : Primitives) (key : String) where
  unfoldable pub serve : Route → Request → Store → Outcome
  unfolding login mfa_verify_login logout middleware tell_me start_impersonating stop_impersonating
      setup confirm disable
  serve (post_login body) r db = login ext key r body db
  serve (post_mfa_verify body) r db = mfa_verify_login ext key r body db
  serve post_logout r db = logout ext key r db
  serve get_me r db = middleware ext (λ q. tell_me ext key q) r db
  serve (post_impersonate body) r db = middleware ext (λ q. start_impersonating ext q body) r db
  serve post_impersonate_stop r db = middleware ext (λ q. stop_impersonating ext q) r db
  serve post_mfa_setup r db = middleware ext (λ q. setup ext q) r db
  serve (post_mfa_confirm body) r db = middleware ext (λ q. confirm ext q body) r db
  serve (post_mfa_disable body) r db = middleware ext (λ q. disable ext q body) r db

  -- the stores that requests lead to from `db`, by the last request
  pub data Reaches (db : Store) : Store → Type 0 where
    start : Reaches db db
    next :
        {m : Store}
        → Reaches db m
        → (route : Route) → (r : Request) → Reaches db (serve route r m).store

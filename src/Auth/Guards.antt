-- ===== src/Auth/Guards.antt =====
-- internal/auth/middleware.go: who gets past the middleware, and past a required role.
use sentinel_mail_gateway.Prelude.{ℕ, String, Option, none, some, List, any, str_eq, if◌then◌else◌}
use sentinel_mail_gateway.Auth.{Store, Identity, Primitives, Request, Outcome, refuse}
use sentinel_mail_gateway.Auth.Sessions.{lookup}

-- the cookie's token, where there is one that is not empty, and the identity that it has
unfoldable pub cookie_identity : Primitives → ℕ → Store → Option String → Option Identity
unfolding lookup
cookie_identity ext now db none = none
cookie_identity ext now db (some token) = if str_eq token "" then none else lookup ext now token db

-- `Middleware`: the next handler runs with the identity in the context
unfoldable pub middleware : Primitives → (Request → Store → Outcome) → Request → Store → Outcome
unfolding cookie_identity refuse
middleware ext handler r db = elim (cookie_identity ext r.now db r.cookie) [
  | none ↦ refuse db 401 "unauthenticated"
  | some ident ↦ handler (record r { identity = some ident }) db
]

-- `RequireRole`
unfoldable pub require_role : List String → (Request → Store → Outcome) → Request → Store → Outcome
unfolding refuse
require_role roles handler r db = elim r.identity [
  | none ↦ refuse db 401 "unauthenticated"
  | some ident ↦ if any (str_eq ident.role) roles then handler r db else refuse db 403 "forbidden"
]

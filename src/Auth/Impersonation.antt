-- ===== src/Auth/Impersonation.antt =====
-- internal/auth/handlers.go: a super_admin acting as another user, and back.
use sentinel_mail_gateway.Prelude.{ℕ, String, not, Option, none, some, ◌==◌, str_eq, if◌then◌else◌}
use sentinel_mail_gateway.Auth.{
  User, Store, Identity, Primitives, Request, Outcome, no_content, token_cookie, refuse, is_null,
  write_audit,
}
use sentinel_mail_gateway.Auth.Sessions.{
  Issued, create_with_impersonator, active_user, revoke_cookie,
}

module _ (ext : Primitives) (r : Request) where
  unfoldable pub finish_start : Identity → Store → Option Issued → Outcome
  unfolding refuse write_audit
  finish_start ident db none = refuse db 500 "internal"
  finish_start ident db (some issued) = record {
    store = write_audit "admin.impersonate.start" ident.user_id ident.organization_id issued.store;
    reply = no_content;
    cookie = token_cookie issued.token issued.expires_at;
  }

  -- behind the row of the target: the admin's session is revoked before the new one is made
  unfoldable pub become : Identity → Store → User → Outcome
  unfolding revoke_cookie create_with_impersonator finish_start
  become ident db target =
      let revoked = revoke_cookie ext r.now r.cookie db in
      finish_start ident revoked (
        create_with_impersonator ext r.now r.random_token target.id target.organization_id
          (some ident.user_id) revoked)

  unfoldable pub start_as : Identity → Store → Option User → Outcome
  unfolding refuse become
  start_as ident db none = refuse db 404 "target not found or inactive"
  start_as ident db (some target) = become ident db target

  unfoldable pub start_target : Identity → Store → Option ℕ → Outcome
  unfolding refuse start_as active_user
  start_target ident db none = refuse db 400 "invalid target_user_id"
  start_target ident db (some target) =
      if target == ident.user_id
      then refuse db 400 "cannot impersonate yourself"
      else start_as ident db (active_user target db.users)

  -- `StartImpersonating`, for the target of a body that decodes
  unfoldable pub start_impersonating : Option String → Store → Outcome
  unfolding refuse is_null start_target
  start_impersonating body db = elim r.identity [
    | none ↦ refuse db 401 "unauthenticated"
    | some ident ↦
        if not (str_eq ident.role "super_admin")
        then refuse db 403 "forbidden"
        else if not (is_null ident.impersonator)
        then refuse db 409 "already impersonating; stop first"
        else elim body [
          | none ↦ refuse db 400 "bad request"
          | some target ↦ start_target ident db (ext.parse_uuid target)
        ]
  ]

  unfoldable pub finish_stop : Store → Option Issued → Outcome
  unfolding refuse
  finish_stop db none = refuse db 500 "internal"
  finish_stop db (some issued) = record {
    store = issued.store;
    reply = no_content;
    cookie = token_cookie issued.token issued.expires_at;
  }

  -- behind the row of the admin
  unfoldable pub return_to : Store → User → Outcome
  unfolding revoke_cookie create_with_impersonator finish_stop
  return_to db admin =
      let revoked = revoke_cookie ext r.now r.cookie db in
      finish_stop revoked (
        create_with_impersonator ext r.now r.random_token admin.id admin.organization_id none
          revoked)

  unfoldable pub stop_as : Store → Option User → Outcome
  unfolding refuse return_to
  stop_as db none = refuse db 410 "impersonator no longer active"
  stop_as db (some admin) = return_to db admin

  -- `StopImpersonating`
  unfoldable pub stop_impersonating : Store → Outcome
  unfolding refuse stop_as active_user
  stop_impersonating db = elim r.identity [
    | none ↦ refuse db 401 "unauthenticated"
    | some ident ↦ elim ident.impersonator [
      | none ↦ refuse db 409 "not impersonating"
      | some admin ↦ stop_as db (active_user admin db.users)
    ]
  ]

-- ===== src/Auth/History/Spent.antt =====
-- Tokens that are revoked.
use sentinel_mail_gateway.Prelude.{ℕ, String, true, Option, none, some, ◌≡◌, refl, arith}
use sentinel_mail_gateway.Auth.{Store, Identity, write_audit, Primitives, Request, is_null}
use sentinel_mail_gateway.Auth.Sessions.{
  Issued, is_taken, insert_session, create_with_impersonator, lookup, revoke, revoke_cookie,
}
use sentinel_mail_gateway.Auth.Sessions.Laws.{
  is_spent, lookup_of_spent, created, fresh_differs, is_taken-revoke_rows, closed-revoke_rows,
  closed-revoke_rows_of_closed,
}
use sentinel_mail_gateway.Auth.Mfa.{change_user}
use sentinel_mail_gateway.Auth.Login.{logout, logout_store, audit_logout}
use sentinel_mail_gateway.Auth.History.{Reaches, start, next}
use sentinel_mail_gateway.Auth.History.Changes.{Changes, same, audited, updated, revoked, inserted}
use sentinel_mail_gateway.Auth.History.Served.{serve-Serves}

module _ (ext : Primitives) (hash : String) where
  is_spent_of_insert :
      (now : ℕ) (random : Option String) (user org : ℕ) (admin : Option ℕ) (db : Store)
      (issued : Issued)
      → create_with_impersonator ext now random user org admin db ≡ some issued
      → is_spent hash db.sessions ≡ true
      → is_spent hash issued.store.sessions ≡ true
  unfolding insert_session is_taken is_null
  is_spent_of_insert now random user org admin db issued e h =
      let (token, _, fresh, stored, _) = created ext now random user org admin db issued e in
      let differs = fresh_differs (ext.sha256 token) hash db.sessions fresh (ground (arith, h)) in
      rw (stored, differs) h

  Changes-is_spent :
      {db m : Store}
      → Changes ext db m
      → is_spent hash db.sessions ≡ true
      → is_spent hash m.sessions ≡ true
  unfolding change_user revoke
  Changes-is_spent same h = h
  Changes-is_spent (audited c a) h = Changes-is_spent c h
  Changes-is_spent (updated c f i k id) h = Changes-is_spent c h
  Changes-is_spent (revoked {m = m} c now token) h =
      let k = Changes-is_spent c h in
      ground (
        arith,
        k,
        is_taken-revoke_rows now hash (ext.sha256 token) m.sessions,
        closed-revoke_rows_of_closed now hash (ext.sha256 token) m.sessions,
      )
  Changes-is_spent (inserted {m = m} {issued = issued} c now random user org admin e w) h =
      is_spent_of_insert now random user org admin m issued e (Changes-is_spent c h)

  Reaches-is_spent :
      {key : String} {db m : Store}
      → Reaches ext key db m
      → is_spent hash db.sessions ≡ true
      → is_spent hash m.sessions ≡ true
  Reaches-is_spent start h = h
  Reaches-is_spent {key = key} (next {m = m} run route r) h =
      Changes-is_spent (serve-Serves ext r m key route).0 (Reaches-is_spent run h)

module _ (ext : Primitives) (key : String) (r : Request) (token : String) where
  sessions-audit_logout :
      (ident : Option Identity) (db : Store)
      → (audit_logout ext key r ident db).sessions ≡ db.sessions
  unfolding audit_logout write_audit
  sessions-audit_logout none db = refl
  sessions-audit_logout (some ident) db = refl

  revoke-is_spent :
      (db : Store)
      → is_taken (ext.sha256 token) db.sessions ≡ true
      → is_spent (ext.sha256 token) (revoke_cookie ext r.now (some token) db).sessions ≡ true
  unfolding revoke_cookie revoke
  revoke-is_spent db h =
      let hash = ext.sha256 token in
      ground (
        arith,
        h,
        is_taken-revoke_rows r.now hash hash db.sessions,
        closed-revoke_rows r.now hash db.sessions,
      )

  logout-is_spent :
      (db : Store)
      → r.cookie ≡ some token
      → is_taken (ext.sha256 token) db.sessions ≡ true
      → is_spent (ext.sha256 token) (logout ext key r db).store.sessions ≡ true
  unfolding logout logout_store
  logout-is_spent db e h = rw e (
      revoke-is_spent (audit_logout ext key r (lookup ext r.now token db) db)
        (rw (sessions-audit_logout (lookup ext r.now token db) db) h))

  -- A token of a stored session, once its holder has logged out, opens nothing any more, at no
  -- time and whatever requests to the routes of the package follow.
  pub lookup-logout :
      (db m : Store)
      → r.cookie ≡ some token
      → is_taken (ext.sha256 token) db.sessions ≡ true
      → Reaches ext key (logout ext key r db).store m
      → (now : ℕ) → lookup ext now token m ≡ none
  lookup-logout db m e h run now =
      lookup_of_spent ext now token m
        (Reaches-is_spent ext (ext.sha256 token) run (logout-is_spent db e h))

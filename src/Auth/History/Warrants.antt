-- ===== src/Auth/History/Warrants.antt =====
-- Who stands behind a session.
use sentinel_mail_gateway.Prelude.{
  ℕ, String, Bool, true, false, ◌&&◌, Option, none, some, List, [], ◌∷◌, ◌≡◌, refl, sym, ◌∙◌, ◌==◌,
  str_eq, Bool-cases, inl, inr, if◌then◌else◌, All, All-imp,
}
use sentinel_mail_gateway.Auth.{User, Store, Session, Primitives, find_user, is_null}
use sentinel_mail_gateway.Auth.Sessions.{insert_session, revoke_row, revoke_rows, revoke}
use sentinel_mail_gateway.Auth.Sessions.Laws.{created}
use sentinel_mail_gateway.Auth.Mfa.{update_user, change_user}
use sentinel_mail_gateway.Auth.History.{Reaches, start, next}
use sentinel_mail_gateway.Auth.History.Changes.{
  Changes, same, audited, updated, revoked, inserted, is_super, is_warranted,
}
use sentinel_mail_gateway.Auth.History.Served.{serve-Serves}

-- a session of nobody special, or of a super_admin who is not the session's user
abbrev pub IsWarranted : List User → Session → Type 0
IsWarranted users s = is_warranted users s.user_id s.impersonator_user_id ≡ true

is_super-cons :
    (u : User) (us : List User) (admin : ℕ)
    → is_super (u ∷ us) admin
      ≡ (if u.id == admin then str_eq u.role "super_admin" else is_super us admin)
unfolding is_super find_user
is_super-cons u us admin = elim (Bool-cases (u.id == admin)) [
  | inl e ↦ rw (e, is_super, find_user) refl
  | inr e ↦ rw (e, is_super, find_user) refl
]

module _ (f : User → User) (keeps_id : (u : User) → (f u).id ≡ u.id)
    (keeps_role : (u : User) → (f u).role ≡ u.role) (id : ℕ) where
  id-if : (b : Bool) (u : User) → (if b then f u else u).id ≡ u.id
  id-if true u = keeps_id u
  id-if false u = refl

  role-if : (b : Bool) (u : User) → (if b then f u else u).role ≡ u.role
  role-if true u = keeps_role u
  role-if false u = refl

  is_super-update_user :
      (users : List User) (admin : ℕ)
      → is_super (update_user f id users) admin ≡ is_super users admin
  unfolding is_super find_user update_user
  is_super-update_user [] admin = refl
  is_super-update_user (u ∷ us) admin =
      is_super-cons (if u.id == id then f u else u) (update_user f id us) admin
      ∙ (rw (id-if (u.id == id) u, role-if (u.id == id) u, is_super-update_user us admin) refl)
      ∙ sym (is_super-cons u us admin)

  is_warranted-update_user :
      (users : List User) (user : ℕ) (admin : Option ℕ)
      → is_warranted (update_user f id users) user admin ≡ is_warranted users user admin
  unfolding is_warranted
  is_warranted-update_user users user none = refl
  is_warranted-update_user users user (some admin) = rw (is_super-update_user users admin) refl

All-revoke_rows :
    (users : List User) (now : ℕ) (hash : String) (sessions : List Session)
    → All (IsWarranted users) sessions
    → All (IsWarranted users) (revoke_rows now hash sessions)
unfolding revoke_rows revoke_row
All-revoke_rows users now hash [] h = tt
All-revoke_rows users now hash (s ∷ ss) (h, k) =
    elim (Bool-cases (str_eq s.token_hash hash && is_null s.revoked_at)) [
      | inl e ↦ rw e (h, All-revoke_rows users now hash ss k)
      | inr e ↦ rw e (h, All-revoke_rows users now hash ss k)
    ]

module _ (ext : Primitives) where
  Changes-IsWarranted :
      {db m : Store}
      → Changes ext db m
      → All (IsWarranted db.users) db.sessions
      → All (IsWarranted m.users) m.sessions
  unfolding change_user revoke insert_session
  Changes-IsWarranted same h = h
  Changes-IsWarranted (audited c a) h = Changes-IsWarranted c h
  Changes-IsWarranted (updated {m = m} c f i k id) h =
      All-imp (IsWarranted m.users) (IsWarranted (update_user f id m.users))
        (λ s w. rw (is_warranted-update_user f i k id m.users s.user_id s.impersonator_user_id) w)
        m.sessions (Changes-IsWarranted c h)
  Changes-IsWarranted (revoked {m = m} c now token) h =
      All-revoke_rows m.users now (ext.sha256 token) m.sessions (Changes-IsWarranted c h)
  Changes-IsWarranted (inserted {m = m} {issued = issued} c now random user org admin e w) h =
      let (token, _, _, stored, _) = created ext now random user org admin m issued e in
      rw stored (w, Changes-IsWarranted c h)

  -- If each session that has an impersonator has one whose role is super_admin and who is not the
  -- session's user, then so it stays under every series of requests to the routes of the package.
  pub Reaches-IsWarranted :
      {key : String} {db m : Store}
      → Reaches ext key db m
      → All (IsWarranted db.users) db.sessions
      → All (IsWarranted m.users) m.sessions
  Reaches-IsWarranted start h = h
  Reaches-IsWarranted {key = key} (next {m = m} run route r) h =
      Changes-IsWarranted (serve-Serves ext r m key route).0 (Reaches-IsWarranted run h)

-- ===== src/Auth/Sessions/Laws.antt =====
-- What a lookup finds after an insertion, and after a revocation.
use sentinel_mail_gateway.Prelude.{
  ℕ, ◌+◌, String, Bool, true, false, not, ◌&&◌, Option, none, some, List, [], ◌∷◌, ◌≡◌, refl, ap,
  subst, arith, any, str_eq, str_eq_iff, Bool-cases, inl, inr,
}
use sentinel_mail_gateway.Auth.{User, Session, Store, Primitives, is_null}
use sentinel_mail_gateway.Auth.Sessions.{
  Issued, is_taken, insert_session, create_with_impersonator, is_live, lookup_row, lookup,
  revoke_row, revoke_rows, session_ttl,
}

-- a row that a lookup of this hash may still use
abbrev pub is_open : String → Session → Bool
is_open hash s = str_eq s.token_hash hash && is_null s.revoked_at

-- the hash is in the table, and every row of it is revoked
abbrev pub is_spent : String → List Session → Bool
is_spent hash sessions = is_taken hash sessions && not (any (is_open hash) sessions)

lookup_row_of_closed :
    (now : ℕ) (hash : String) (users : List User) (sessions : List Session)
    → any (is_open hash) sessions ≡ false
    → lookup_row now hash users sessions ≡ none
unfolding lookup_row is_live is_null
lookup_row_of_closed now hash users [] h = refl
lookup_row_of_closed now hash users (s ∷ ss) h =
    ground (arith, lookup_row_of_closed now hash users ss)

pub lookup_of_spent :
    (ext : Primitives) (now : ℕ) (token : String) (db : Store)
    → is_spent (ext.sha256 token) db.sessions ≡ true
    → lookup ext now token db ≡ none
unfolding lookup
lookup_of_spent ext now token db h =
    ground (arith, lookup_row_of_closed now (ext.sha256 token) db.users db.sessions)

is_open-revoke_row :
    (now : ℕ) (hash : String) (s : Session) → is_open hash (revoke_row now hash s) ≡ false
unfolding revoke_row is_null
is_open-revoke_row now hash s = elim (Bool-cases (is_open hash s)) [
  | inl e ↦ rw e (ground arith)
  | inr e ↦ rw e (ground arith)
]

token_hash-revoke_row :
    (now : ℕ) (other : String) (s : Session) → (revoke_row now other s).token_hash ≡ s.token_hash
unfolding revoke_row is_null
token_hash-revoke_row now other s = elim (Bool-cases (is_open other s)) [
  | inl e ↦ rw e (refl)
  | inr e ↦ rw e (refl)
]

-- a revocation of this hash, and of any other
pub is_taken-revoke_rows :
    (now : ℕ) (hash other : String) (sessions : List Session)
    → is_taken hash (revoke_rows now other sessions) ≡ is_taken hash sessions
unfolding revoke_rows revoke_row is_taken
is_taken-revoke_rows now hash other [] = refl
is_taken-revoke_rows now hash other (s ∷ ss) =
    rw (token_hash-revoke_row now other s, is_taken-revoke_rows now hash other ss) refl

pub closed-revoke_rows :
    (now : ℕ) (hash : String) (sessions : List Session)
    → any (is_open hash) (revoke_rows now hash sessions) ≡ false
unfolding revoke_rows
closed-revoke_rows now hash [] = refl
closed-revoke_rows now hash (s ∷ ss) =
    ground (arith, is_open-revoke_row now hash s, closed-revoke_rows now hash ss)

is_open-revoke_row_of_closed :
    (now : ℕ) (hash other : String) (s : Session)
    → is_open hash s ≡ false
    → is_open hash (revoke_row now other s) ≡ false
unfolding revoke_row is_null
is_open-revoke_row_of_closed now hash other s h = elim (Bool-cases (is_open other s)) [
  | inl e ↦ rw e (ground arith)
  | inr e ↦ rw e (ground arith)
]

pub closed-revoke_rows_of_closed :
    (now : ℕ) (hash other : String) (sessions : List Session)
    → any (is_open hash) sessions ≡ false
    → any (is_open hash) (revoke_rows now other sessions) ≡ false
unfolding revoke_rows
closed-revoke_rows_of_closed now hash other [] h = refl
closed-revoke_rows_of_closed now hash other (s ∷ ss) h = ground (
  arith,
  is_open-revoke_row_of_closed now hash other s,
  closed-revoke_rows_of_closed now hash other ss,
)

-- what a creation has done, where it returns a session
abbrev pub IsIssued :
    Primitives → ℕ → Option String → ℕ → ℕ → Option ℕ → Store → Option Issued → Type 0
IsIssued ext now random user org admin db none = Unit
IsIssued ext now random user org admin db (some issued) =
    (token : String) × (random ≡ some token)
    × (is_taken (ext.sha256 token) db.sessions ≡ false)
    × (issued.store ≡ insert_session (ext.sha256 token) user org admin (now + session_ttl) db)
    × (issued.token ≡ token)

create_with_impersonator-IsIssued :
    (ext : Primitives) (now : ℕ) (random : Option String) (user org : ℕ) (admin : Option ℕ)
    (db : Store)
    → IsIssued ext now random user org admin db
        (create_with_impersonator ext now random user org admin db)
unfolding create_with_impersonator
create_with_impersonator-IsIssued ext now none user org admin db = tt
create_with_impersonator-IsIssued ext now (some token) user org admin db =
    elim (Bool-cases (is_taken (ext.sha256 token) db.sessions)) [
      | inl e ↦ rw e tt
      | inr e ↦ rw e (token, refl, e, refl, refl)
    ]

pub created :
    (ext : Primitives) (now : ℕ) (random : Option String) (user org : ℕ) (admin : Option ℕ)
    (db : Store) (issued : Issued)
    → create_with_impersonator ext now random user org admin db ≡ some issued
    → IsIssued ext now random user org admin db (some issued)
created ext now random user org admin db issued e =
    subst (IsIssued ext now random user org admin db) e
      (create_with_impersonator-IsIssued ext now random user org admin db)

pub fresh_differs :
    (fresh hash : String) (sessions : List Session)
    → is_taken fresh sessions ≡ false
    → is_taken hash sessions ≡ true
    → str_eq fresh hash ≡ false
fresh_differs fresh hash sessions h k = elim (Bool-cases (str_eq fresh hash)) [
  | inr e ↦ e
  | inl e ↦ absurd (ground (arith, ap (λ s. is_taken s sessions) ((str_eq_iff fresh hash).0 e)))
]

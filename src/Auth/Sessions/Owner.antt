-- ===== src/Auth/Sessions/Owner.antt =====
-- The identity that a lookup returns.
use sentinel_mail_gateway.Prelude.{
  ℕ, String, true, Option, none, some, List, [], ◌∷◌, ◌≡◌, refl, ap, ◌∙◌, subst, arith, str_eq,
  Bool-cases, inl, inr, ◌⊎◌,
}
use sentinel_mail_gateway.Auth.{User, Session, Store, Identity, Primitives, find_user}
use sentinel_mail_gateway.Auth.Sessions.{
  if_active, active_user, identity_row, join_user, identity_of, first_row, lookup_row, lookup,
  is_live,
}

-- an active row of users with the id and the role of an identity
abbrev pub IsUser : List User → Identity → Type 0
IsUser users ident =
    (u : User) × (find_user ident.user_id users ≡ some u)
    × (u.is_active ≡ true)
    × (u.role ≡ ident.role)
    × (u.organization_id ≡ ident.organization_id)

abbrev pub IsUserRow : List User → Option Identity → Type 0
IsUserRow users none = Unit
IsUserRow users (some ident) = IsUser users ident

pub find_user-id : (id : ℕ) (users : List User) (u : User) → find_user id users ≡ some u → u.id ≡ id
unfolding find_user
find_user-id id [] u h = absurd (ground (arith, h))
find_user-id id (v ∷ vs) u h = ground (arith, find_user-id id vs u)

abbrev IsActiveRow : Option User → Type 0
IsActiveRow none = Unit
IsActiveRow (some u) = u.is_active ≡ true

if_active-cases :
    (row : Option User) (u : User) → if_active row ≡ some u → (row ≡ some u) × (u.is_active ≡ true)
unfolding if_active
if_active-cases none u h = absurd (ground (arith, h))
if_active-cases (some v) u h = elim (Bool-cases v.is_active) [
  | inl e ↦
      let same_row : some v ≡ some u = ground arith in (same_row, subst IsActiveRow same_row e)
  | inr e ↦ absurd (ground arith)
]

pub active_user-cases :
    (id : ℕ) (users : List User) (u : User)
    → active_user id users ≡ some u
    → (find_user id users ≡ some u) × (u.is_active ≡ true)
unfolding active_user
active_user-cases id users u h = if_active-cases (find_user id users) u h

identity_row-IsUser :
    (users : List User) (s : Session) (row : Option User) (ident : Identity)
    → active_user s.user_id users ≡ row
    → identity_row users s row ≡ some ident
    → IsUser users ident
unfolding identity_row identity_of
identity_row-IsUser users s none ident e h = absurd (ground (arith, h))
identity_row-IsUser users s (some u) ident e h =
    let (found, active) = active_user-cases s.user_id users u e in
    let id = find_user-id s.user_id users u found in
    subst (IsUserRow users) h (u, ap (λ i. find_user i users) id ∙ found, active, refl, refl)

first_row-cases :
    (row rest : Option Identity) (ident : Identity)
    → first_row row rest ≡ some ident
    → (row ≡ some ident) ⊎ (rest ≡ some ident)
unfolding first_row
first_row-cases none rest ident h = inr h
first_row-cases (some i) rest ident h = inl h

lookup_row-IsUser :
    (now : ℕ) (hash : String) (users : List User) (sessions : List Session) (ident : Identity)
    → lookup_row now hash users sessions ≡ some ident
    → IsUser users ident
unfolding lookup_row join_user
lookup_row-IsUser now hash users [] ident h = absurd (ground (arith, h))
lookup_row-IsUser now hash users (s ∷ ss) ident h = elim (Bool-cases (is_live now hash s)) [
  | inr e ↦ lookup_row-IsUser now hash users ss ident (ground (arith, e))
  | inl e ↦
      elim (first_row-cases (join_user users s) (lookup_row now hash users ss) ident
        (ground (arith, e))) [
          | inl f ↦ identity_row-IsUser users s (active_user s.user_id users) ident refl f
          | inr f ↦ lookup_row-IsUser now hash users ss ident f
        ]
]

pub lookup-IsUser :
    (ext : Primitives) (now : ℕ) (token : String) (db : Store) (ident : Identity)
    → lookup ext now token db ≡ some ident
    → IsUser db.users ident
unfolding lookup
lookup-IsUser ext now token db ident h = elim (Bool-cases (str_eq token "")) [
  | inl e ↦ absurd (ground (arith, e))
  | inr e ↦ lookup_row-IsUser now (ext.sha256 token) db.users db.sessions ident (ground (arith, e))
]

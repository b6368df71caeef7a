-- ===== src/Quarantine/Courses/Copies.antt =====
-- The same for the deletion and the release of a recipient's copies.
use sentinel_mail_gateway.Prelude.{
  ℕ, String, Bool, true, false, List, [], ◌∷◌, ◌==◌, ==_iff, ltb, ◌≡◌, refl, ap, arith,
  if◌then◌else◌, inl, inr, Bool-cases, Option, some, none, Option-cases,
}
use sentinel_mail_gateway.Quarantine.{Entry, Store, Caller, deleted, is_held, to_state}
use sentinel_mail_gateway.Quarantine.Delivery.{World, release_error}
use sentinel_mail_gateway.Quarantine.Batches.{
  is_copy, delete_copies, delete_held_for_recipient, later_copy, latest_copy, release_copy,
  release_held_for_recipient,
}
use sentinel_mail_gateway.Quarantine.Courses.Moves.{Moves, MovesTo, same, falls, delivered, holds}

-- a row that is changed, or not, before rows that hold no more than others
pub marked-holds :
    (f : Entry → Entry)
    → ((e : Entry) → (f e).id ≡ e.id)
    → ((e : Entry) → is_held (f e).state ≡ true → is_held e.state ≡ true)
    → (id : ℕ) (e : Entry) (ds es : List Entry) (b : Bool)
    → (holds id ds ≡ true → holds id es ≡ true)
    → holds id ((if b then f e else e) ∷ ds) ≡ true
    → holds id (e ∷ es) ≡ true
unfolding holds
marked-holds f keeps fewer id e ds es true k h =
    let same_test : ((f e).id == id) ≡ (e.id == id) = ap (λ i. i == id) (keeps e) in
    ground (arith, h, k, fewer e, same_test)
marked-holds f keeps fewer id e ds es false k h = ground (arith, h, k)

module _ (w : World) (c : Caller) where
  delete_copies-holds :
      (log : ℕ) (to_addr : String) (id : ℕ) (entries : List Entry)
      → holds id (delete_copies w c log to_addr entries) ≡ true
      → holds id entries ≡ true
  unfolding delete_copies to_state is_held
  delete_copies-holds log to_addr id [] h = h
  delete_copies-holds log to_addr id (e ∷ es) h =
      marked-holds (to_state deleted) (λ f. refl) (λ f k. absurd (ground (arith, k))) id e
        (delete_copies w c log to_addr es) es (is_copy w c log to_addr e)
        (delete_copies-holds log to_addr id es) h

  pub delete_held_for_recipient-Moves :
      (log : ℕ) (to_addr : String) (db : Store)
      → Moves w db (delete_held_for_recipient w c log to_addr db)
  unfolding delete_held_for_recipient
  delete_held_for_recipient-Moves log to_addr db =
      falls same _ refl (λ id. delete_copies-holds log to_addr id db.entries)

  -- a row, if there is one, has the id of a held entry
  abbrev IsHeldIn : List Entry → Option Entry → Type 0
  IsHeldIn entries none = Unit
  IsHeldIn entries (some e) = holds e.id entries ≡ true

  IsHeldIn-cons :
      (f : Entry) (entries : List Entry) (row : Option Entry)
      → IsHeldIn entries row
      → IsHeldIn (f ∷ entries) row
  unfolding holds
  IsHeldIn-cons f entries none h = tt
  IsHeldIn-cons f entries (some e) h = ground (arith, h)

  later_copy-IsHeldIn :
      (f : Entry) (entries : List Entry) (row : Option Entry)
      → holds f.id entries ≡ true
      → IsHeldIn entries row
      → IsHeldIn entries (later_copy w c f row)
  unfolding later_copy
  later_copy-IsHeldIn f entries none own h = own
  later_copy-IsHeldIn f entries (some e) own h =
      elim (Bool-cases (ltb f.received_at e.received_at)) [ inl k ↦ rw k h | inr k ↦ rw k own ]

  is_copy-holds :
      (log : ℕ) (to_addr : String) (f : Entry) (entries : List Entry)
      → is_copy w c log to_addr f ≡ true
      → holds f.id (f ∷ entries) ≡ true
  unfolding is_copy holds
  is_copy-holds log to_addr f entries h = ground (arith, h, (==_iff f.id f.id).1 refl)

  latest_copy-IsHeldIn :
      (log : ℕ) (to_addr : String) (entries : List Entry)
      → IsHeldIn entries (latest_copy w c log to_addr entries)
  unfolding latest_copy
  latest_copy-IsHeldIn log to_addr [] = tt
  latest_copy-IsHeldIn log to_addr (f ∷ fs) =
      let rest = latest_copy w c log to_addr fs in
      let held = IsHeldIn-cons f fs rest (latest_copy-IsHeldIn log to_addr fs) in
      elim (Bool-cases (is_copy w c log to_addr f)) [
        | inl k ↦ rw k (later_copy-IsHeldIn f (f ∷ fs) rest (is_copy-holds log to_addr f fs k) held)
        | inr k ↦ rw k held
      ]

  release_copy-MovesTo :
      (db : Store) (row : Option Entry)
      → IsHeldIn db.entries row
      → MovesTo w db (release_copy w c db row)
  unfolding release_copy
  release_copy-MovesTo db none held = tt
  release_copy-MovesTo db (some e) held = elim (Option-cases (release_error w e)) [
    | inl k ↦ rw (k, release_copy) (delivered same c e held k)
    | inr (error, k) ↦ rw (k, release_copy) tt
  ]

  pub release_held_for_recipient-MovesTo :
      (log : ℕ) (to_addr : String) (db : Store)
      → MovesTo w db (release_held_for_recipient w c log to_addr db)
  unfolding release_held_for_recipient
  release_held_for_recipient-MovesTo log to_addr db =
      release_copy-MovesTo db (latest_copy w c log to_addr db.entries)
        (latest_copy-IsHeldIn log to_addr db.entries)

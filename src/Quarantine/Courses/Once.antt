-- ===== src/Quarantine/Courses/Once.antt =====
-- The messages that went out, and the entries that are still held.
use sentinel_mail_gateway.Prelude.{
  ℕ, Bool, true, false, not, ◌&&◌, List, [], ◌∷◌, any, ◌==◌, ==_iff, ◌≡◌, refl, ap, arith,
  Bool-cases, inl, inr, String, Option, ◌⊎◌,
}
use sentinel_mail_gateway.Quarantine.{
  Entry, Store, Caller, is_held, find_entry, update_entry, change_entry, to_released,
}
use sentinel_mail_gateway.Quarantine.Delivery.{World, send}
use sentinel_mail_gateway.Quarantine.Batches.{release_held_for_recipient}
use sentinel_mail_gateway.Quarantine.Handlers.{release, delete}
use sentinel_mail_gateway.Quarantine.Courses.{
  Order, order_release, order_delete, order_verdict, order_not_spam, order_block, order_allow,
  order_bulk, order_release_copy, order_delete_copy, kept, carry_out, Follows, begin, after,
}
use sentinel_mail_gateway.Quarantine.Courses.Ruled.{block_sender-Moves, allow_sender-Moves}
use sentinel_mail_gateway.Quarantine.Courses.Moves.{
  Moves, MovesTo, same, aside, updated, falls, delivered, holds, release_entry-Moves,
  delete_entry-Moves, find_entry-found,
}
use sentinel_mail_gateway.Quarantine.Courses.Served.{give_verdict-Moves, not_spam-Moves}
use sentinel_mail_gateway.Quarantine.Courses.Batched.{bulk_action-Moves}
use sentinel_mail_gateway.Quarantine.Courses.Copies.{
  marked-holds, release_held_for_recipient-MovesTo, delete_held_for_recipient-Moves,
}

-- each message that was sent is none of the others, and its entry is not held
abbrev pub is_once : List Entry → List ℕ → Bool
is_once entries [] = true
is_once entries (id ∷ ids) =
    not (holds id entries) && (not (any (λ i. i == id) ids) && is_once entries ids)

kept-Moves :
    (w : World) (db : Store) (r : Option String ⊎ Store) → MovesTo w db r → Moves w db (kept db r)
unfolding kept
kept-Moves w db (inl error) h = same
kept-Moves w db (inr m) h = h

pub carry_out-Moves :
    (w : World) (c : Caller) (o : Order) (db : Store) → Moves w db (carry_out w c o db)
unfolding carry_out release delete
carry_out-Moves w c (order_release id) db =
    release_entry-Moves w c db (find_entry id db.entries) (find_entry-found id db.entries)
carry_out-Moves w c (order_delete id) db = delete_entry-Moves w c db (find_entry id db.entries)
carry_out-Moves w c (order_verdict body id) db = give_verdict-Moves w c body id db
carry_out-Moves w c (order_not_spam id) db = not_spam-Moves w c id db
carry_out-Moves w c (order_block body id) db = block_sender-Moves w c body id db
carry_out-Moves w c (order_allow body id) db = allow_sender-Moves w c body id db
carry_out-Moves w c (order_bulk ids action) db = bulk_action-Moves w c ids action db
carry_out-Moves w c (order_release_copy log to_addr) db =
    kept-Moves w db (release_held_for_recipient w c log to_addr db)
      (release_held_for_recipient-MovesTo w c log to_addr db)
carry_out-Moves w c (order_delete_copy log to_addr) db =
    delete_held_for_recipient-Moves w c log to_addr db

module _ (f : Entry → Entry) (keeps : (e : Entry) → (f e).id ≡ e.id)
    (fewer : (e : Entry) → is_held (f e).state ≡ true → is_held e.state ≡ true) (id : ℕ) where
  update_entry-holds :
      (other : ℕ) (entries : List Entry)
      → holds other (update_entry f id entries) ≡ true
      → holds other entries ≡ true
  unfolding update_entry
  update_entry-holds other [] h = h
  update_entry-holds other (e ∷ es) h =
      marked-holds f keeps fewer other e (update_entry f id es) es (e.id == id)
        (update_entry-holds other es) h

pub update_entry-released :
    (user id : ℕ) (entries : List Entry)
    → holds id (update_entry (to_released user) id entries) ≡ false
unfolding update_entry to_released is_held holds
update_entry-released user id [] = refl
update_entry-released user id (e ∷ es) = elim (Bool-cases (e.id == id)) [
  | inl k ↦ rw (k, k) (ground (arith, k, update_entry-released user id es))
  | inr k ↦ rw k (ground (arith, k, update_entry-released user id es))
]

once-absent :
    (entries : List Entry) (id : ℕ)
    → holds id entries ≡ true
    → (ids : List ℕ) → is_once entries ids ≡ true
    → any (λ i. i == id) ids ≡ false
once-absent entries id held [] h = refl
once-absent entries id held (i ∷ is) h = elim (Bool-cases (i == id)) [
  | inl k ↦ absurd (ground (arith, h, held, ap (λ j. holds j entries) ((==_iff i id).0 k)))
  | inr k ↦ ground (arith, h, k, once-absent entries id held is)
]

fewer-once :
    (before entries : List Entry)
    → ((id : ℕ) → holds id entries ≡ true → holds id before ≡ true)
    → (ids : List ℕ) → is_once before ids ≡ true
    → is_once entries ids ≡ true
fewer-once before entries fewer [] h = refl
fewer-once before entries fewer (id ∷ ids) h = elim (Bool-cases (holds id entries)) [
  | inl k ↦ absurd (ground (arith, h, fewer id k))
  | inr k ↦ ground (arith, h, k, fewer-once before entries fewer ids)
]

module _ (w : World) where
  Moves-is_once :
      {db m : Store}
      → Moves w db m
      → is_once db.entries db.sent ≡ true
      → is_once m.entries m.sent ≡ true
  unfolding change_entry send to_released is_held
  Moves-is_once same h = h
  Moves-is_once (aside k n rows out) h = rw (rows, out) (Moves-is_once k h)
  Moves-is_once (updated {m = m} k f keeps fewer id) h =
      fewer-once m.entries (update_entry f id m.entries)
        (λ i. update_entry-holds f keeps fewer id i m.entries) m.sent (Moves-is_once k h)
  Moves-is_once (falls {m = m} k n out fewer) h =
      rw out (fewer-once m.entries n.entries fewer m.sent (Moves-is_once k h))
  Moves-is_once (delivered {m = m} k c e held out) h =
      let once = Moves-is_once k h in
      let gone = update_entry-released c.user_id e.id m.entries in
      let fresh = once-absent m.entries e.id held m.sent once in
      let rest =
        fewer-once m.entries (update_entry (to_released c.user_id) e.id m.entries)
          (λ i.
            update_entry-holds (to_released c.user_id) (λ f. refl)
              (λ f p. absurd (ground (arith, p))) e.id i m.entries)
          m.sent once in
      rw (gone, fresh) rest

-- Whatever requests follow one another, each carried out before the next begins (releases,
-- deletions, verdicts, not-spam, blocks and allowances of a sender, bulk actions, releases and
-- deletions of a recipient's copies), no entry's message is sent twice, and an entry whose message
-- was sent is not held again, if so it was at the start.
pub Follows-is_once :
    {db m : Store}
    → Follows db m
    → is_once db.entries db.sent ≡ true
    → is_once m.entries m.sent ≡ true
Follows-is_once begin h = h
Follows-is_once (after {m = m} run w c o) h =
    Moves-is_once w (carry_out-Moves w c o m) (Follows-is_once run h)

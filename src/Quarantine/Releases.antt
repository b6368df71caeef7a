-- ===== src/Quarantine/Releases.antt =====
-- Who may release a message, and what a release needs.
use sentinel_mail_gateway.Prelude.{
  ℕ, String, true, false, Option, none, some, ◌∷◌, ◌≡◌, refl, sym, ap, ◌∙◌, subst, Bool-cases, ◌⊎◌,
  inl, inr,
}
use sentinel_mail_gateway.Quarantine.{
  Entry, Store, Caller, Answer, is_held, find_entry, change_entry, may_act,
}
use sentinel_mail_gateway.Quarantine.Delivery.{
  World, ApprovalError, inactive_recipient, approval_failed, is_pending, release_error, send,
  record_challenge_approval,
}
use sentinel_mail_gateway.Quarantine.Handlers.{
  answer, release_sent, release_approved, release_entry, release,
}
use sentinel_mail_gateway.Quarantine.Courses.Moves.{
  IsAside, record_challenge_approval-IsAside, find_entry-id, holds,
}
use sentinel_mail_gateway.Quarantine.Courses.Once.{update_entry-released}

module _ (w : World) (c : Caller) where
  -- the message of an entry that the caller may act on, held and deliverable
  abbrev pub IsReleasable : Entry → Type 0
  IsReleasable e = (may_act c e ≡ true) × (is_held e.state ≡ true) × (release_error w e ≡ none)

  abbrev pub Sends : Store → Option Entry → Store → Type 0
  Sends db row after =
      (after.sent ≡ db.sent)
      ⊎ ((e : Entry) × (row ≡ some e) × (after.sent ≡ e.id ∷ db.sent) × IsReleasable e)

  release_sent-Sends :
      (e : Entry) (db approved : Store) (error : Option String)
      → approved.sent ≡ db.sent
      → may_act c e ≡ true
      → is_held e.state ≡ true
      → release_error w e ≡ error
      → Sends db (some e) (release_sent w c e approved error).store
  unfolding release_sent answer send change_entry
  release_sent-Sends e db approved (some error) out may is k = inl out
  release_sent-Sends e db approved none out may is k =
      inr (e, refl, ap (λ s. e.id ∷ s) out, (may, is, k))

  release_approved-Sends :
      (e : Entry) (db : Store) (approval : ApprovalError ⊎ Store)
      → IsAside w db approval
      → may_act c e ≡ true
      → is_held e.state ≡ true
      → Sends db (some e) (release_approved w c e db approval).store
  unfolding release_approved answer
  release_approved-Sends e db (inl inactive_recipient) a may is = inl refl
  release_approved-Sends e db (inl approval_failed) a may is = inl refl
  release_approved-Sends e db (inr approved) (_, out) may is =
      release_sent-Sends e db approved (release_error w e) out may is refl

  release_entry-held :
      (db : Store) (e : Entry)
      → may_act c e ≡ true
      → is_held e.state ≡ true
      → release_entry w c db (some e)
        ≡ release_approved w c e db (record_challenge_approval w c e db)
  unfolding release_entry
  release_entry-held db e h k = rw (h, k, release_entry) refl

  release_entry-Sends :
      (db : Store) (row : Option Entry) → Sends db row (release_entry w c db row).store
  unfolding release_entry answer
  release_entry-Sends db none = inl refl
  release_entry-Sends db (some e) = elim (Bool-cases (may_act c e)) [
    | inr h ↦ rw h (inl refl)
    | inl h ↦ elim (Bool-cases (is_held e.state)) [
      | inr k ↦ rw (h, k) (inl refl)
      | inl k ↦
          let result =
            release_approved-Sends e db (record_challenge_approval w c e db)
              (record_challenge_approval-IsAside w c e db) h k in
          subst (λ (a : Answer). Sends db (some e) a.store) (sym (release_entry-held db e h k))
            result
    ]
  ]

  -- A release request sends nothing, or the message of the entry that it names, once, and then the
  -- entry was held, its message could be delivered, and the caller administers the entry's
  -- organization or is the end user to whom the mail is addressed.
  pub release-Sends :
      (id : ℕ) (db : Store) → Sends db (find_entry id db.entries) (release w c id db).store
  unfolding release
  release-Sends id db = release_entry-Sends db (find_entry id db.entries)

  approval-not_pending :
      (db : Store) (e : Entry)
      → is_pending e.log_reason ≡ false
      → record_challenge_approval w c e db ≡ inr db
  unfolding record_challenge_approval
  approval-not_pending db e h = rw (h, record_challenge_approval) refl

  released_now :
      (db : Store) (e : Entry)
      → release_error w e ≡ none
      → release_approved w c e db (inr db) ≡ answer 204 (send c e db)
  unfolding release_approved release_sent
  released_now db e h = rw (h, release_approved, release_sent) refl

  sent-send : (e : Entry) (db : Store) → (send c e db).sent ≡ e.id ∷ db.sent
  unfolding send
  sent-send e db = refl

  holds-send : (e : Entry) (db : Store) → holds e.id (send c e db).entries ≡ false
  unfolding send change_entry
  holds-send e db = update_entry-released c.user_id e.id db.entries

  -- A release by a caller who may act on a held entry whose message can be delivered, and which
  -- waits for no challenge, is answered with 204; the message is sent, and the entry is not held
  -- any more.
  pub release-delivers :
      (id : ℕ) (db : Store) (e : Entry)
      → find_entry id db.entries ≡ some e
      → IsReleasable e
      → is_pending e.log_reason ≡ false
      → ((release w c id db).status ≡ 204)
        × ((release w c id db).store.sent ≡ id ∷ db.sent)
        × (holds id (release w c id db).store.entries ≡ false)
  unfolding release
  release-delivers id db e found (may, is, deliverable) calm =
      let done =
        ap (release_entry w c db) found
        ∙ release_entry-held db e may is
        ∙ ap (release_approved w c e db) (approval-not_pending db e calm)
        ∙ released_now db e deliverable in
      (
        ap (λ (a : Answer). a.status) done,
        ap (λ (a : Answer). a.store.sent) done
            ∙ sent-send e db
            ∙ ap (λ i. i ∷ db.sent) (find_entry-id id db.entries e found),
        ap (λ (a : Answer). holds id a.store.entries) done
            ∙ ap (λ i. holds i (send c e db).entries) (sym (find_entry-id id db.entries e found))
            ∙ holds-send e db,
      )

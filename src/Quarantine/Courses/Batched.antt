-- ===== src/Quarantine/Courses/Batched.antt =====
-- The same for bulk actions and for a recipient's copies.
use sentinel_mail_gateway.Prelude.{
  ℕ, String, Bool, true, false, not, ◌&&◌, ◌||◌, Option, none, some, List, [], ◌∷◌, any, ◌==◌, ◌≡◌,
  refl, ap, ◌∙◌, arith, length, ltb, str_eq, if◌then◌else◌, ◌⊎◌, inl, inr, Bool-cases,
}
use sentinel_mail_gateway.Strings.{lower, trim_space}
use sentinel_mail_gateway.Learning.{Sample}
use sentinel_mail_gateway.SenderList.Query.{is_block}
use sentinel_mail_gateway.SenderList.Rules.{Rule, Key, has_key}
use sentinel_mail_gateway.Learning.Keys.{subject_fingerprint, sender_domain_key}
use sentinel_mail_gateway.Quarantine.{
  Entry, Store, Caller, deleted, is_held, find_entry, to_state, may_read,
}
use sentinel_mail_gateway.Quarantine.Delivery.{
  World, ApprovalError, release_error, record_challenge_approval, text_or_empty,
}
use sentinel_mail_gateway.Quarantine.Verdicts.{
  add_sample, record_quarantine_verdict, record_quarantine_classification, finish_sender_block,
  current_entry_verdict, normalized_sender_address,
}
use sentinel_mail_gateway.Quarantine.Handlers.{decide_domain}
use sentinel_mail_gateway.Quarantine.Bulk.{
  insert_block_entry, match_domain, finish_block, block_domain_of, block_sender_of,
  block_entry_sender, send_approved, bulk_release, bulk_mark, outcome_of, apply_bulk_action,
  block_key,
}
use sentinel_mail_gateway.Quarantine.Batches.{
  BulkResult, load_allowed_entry, count_result, bulk_step, run_bulk_action, bulk_start, bulk_action,
  valid_bulk_action, should_queue_bulk_action,
}
use sentinel_mail_gateway.Quarantine.Courses.Moves.{
  Moves, Moves-trans, same, aside, updated, delivered, IsAside, MovesTo,
  record_quarantine_verdict-MovesTo, record_challenge_approval-IsAside, find_entry-found,
  holds-find_entry,
}
use sentinel_mail_gateway.Quarantine.Courses.Served.{decide_domain-IsAside}

add_sample-if :
    (b : Bool) (db : Store) (s : Sample)
    → ((if b then db else add_sample s db).entries ≡ db.entries)
      × ((if b then db else add_sample s db).sent ≡ db.sent)
unfolding add_sample
add_sample-if true db s = (refl, refl)
add_sample-if false db s = (refl, refl)

module _ (w : World) (c : Caller) where
  pub record_quarantine_classification-aside :
      (e : Entry) (sender verdict : String) (db : Store)
      → ((record_quarantine_classification e sender verdict db).entries ≡ db.entries)
        × ((record_quarantine_classification e sender verdict db).sent ≡ db.sent)
  unfolding record_quarantine_classification add_sample
  record_quarantine_classification-aside e sender verdict db =
      elim (Bool-cases (str_eq (subject_fingerprint (text_or_empty e.subject)) "")) [
        | inl h ↦ elim (Bool-cases (str_eq (sender_domain_key sender) "")) [
          | inl k ↦ rw (h, k) (refl, refl)
          | inr k ↦ rw (h, k) (refl, refl)
        ]
        | inr h ↦ elim (Bool-cases (str_eq (sender_domain_key sender) "")) [
          | inl k ↦ rw (h, k) (refl, refl)
          | inr k ↦ rw (h, k) (refl, refl)
        ]
      ]

  outcome_of-Moves :
      {db m : Store} (r : String ⊎ Store)
      → Moves w db m
      → MovesTo w db r
      → Moves w db (outcome_of m r).1
  unfolding outcome_of
  outcome_of-Moves (inl error) h k = h
  outcome_of-Moves (inr n) h k = k

  finish_block-Moves :
      (e : Entry) (sender : String) (db : Store) (r : String ⊎ Store)
      → IsAside w db r
      → Moves w db (finish_block w c e sender db r).1
  unfolding finish_block finish_sender_block
  finish_block-Moves e sender db (inl error) a = same
  finish_block-Moves e sender db (inr n) (rows, out) =
      let verdict = current_entry_verdict e in
      let (rows', out') = record_quarantine_classification-aside e sender verdict n in
      let blocked : Moves w db n = aside same n rows out in
      let classed = record_quarantine_classification e sender verdict n in
      outcome_of-Moves (record_quarantine_verdict c e verdict classed) blocked
        (record_quarantine_verdict-MovesTo w c e verdict (aside blocked classed rows' out'))

  pub insert_block_entry-aside :
      (k : Key) (pattern : String) (db : Store)
      → ((insert_block_entry w k pattern db).entries ≡ db.entries)
        × ((insert_block_entry w k pattern db).sent ≡ db.sent)
  unfolding insert_block_entry
  insert_block_entry-aside k pattern db =
      elim (Bool-cases
        (any (λ (r : Rule). is_block r.entry.action && has_key k pattern r) db.rules)) [
          | inl h ↦ rw h (refl, refl)
          | inr h ↦ rw h (refl, refl)
        ]

  block_domain_of-Moves :
      (e : Entry) (sender : String) (db : Store) (d : String ⊎ String)
      → Moves w db (block_domain_of w c e sender db d).1
  unfolding block_domain_of
  block_domain_of-Moves e sender db (inl error) = same
  block_domain_of-Moves e sender db (inr d) =
      finish_block-Moves e sender db (decide_domain w c e none d "block" db)
        (decide_domain-IsAside w c e none d "block" db)

  block_sender_of-Moves :
      (e : Entry) (match : String) (db : Store) (sender : String ⊎ String)
      → Moves w db (block_sender_of w c e match db sender).1
  unfolding block_sender_of
  block_sender_of-Moves e match db (inl error) = same
  block_sender_of-Moves e match db (inr sender) = elim (Bool-cases (str_eq match "sender")) [
    | inl h ↦ rw h (
        finish_block-Moves e sender db (inr (insert_block_entry w (block_key c e) sender db))
          (insert_block_entry-aside (block_key c e) sender db))
    | inr h ↦ rw h (block_domain_of-Moves e sender db (match_domain w match sender))
  ]

  send_approved-Moves :
      (e : Entry) (db : Store) (error : Option String) (approval : ApprovalError ⊎ Store)
      → IsAside w db approval
      → find_entry e.id db.entries ≡ some e
      → is_held e.state ≡ true
      → release_error w e ≡ error
      → Moves w db (send_approved w c e db error approval).1
  unfolding send_approved
  send_approved-Moves e db error (inl _) a found is k = same
  send_approved-Moves e db (some error) (inr m) (rows, out) found is k = aside same m rows out
  send_approved-Moves e db none (inr m) (rows, out) found is k =
      delivered (aside same m rows out) c e
        (holds-find_entry e.id m.entries e (ap (find_entry e.id) rows ∙ found) is) k

  bulk_release-Moves :
      (e : Entry) (db : Store)
      → find_entry e.id db.entries ≡ some e
      → Moves w db (bulk_release w c e db).1
  unfolding bulk_release
  bulk_release-Moves e db found = elim (Bool-cases (is_held e.state)) [
    | inr h ↦ rw h same
    | inl h ↦ rw h (
        send_approved-Moves e db (release_error w e) (record_challenge_approval w c e db)
          (record_challenge_approval-IsAside w c e db) found h refl)
  ]

  bulk_mark-Moves :
      (e : Entry) (verdict : String) (db : Store) → Moves w db (bulk_mark w c e verdict db).1
  unfolding bulk_mark
  bulk_mark-Moves e verdict db =
      outcome_of-Moves (record_quarantine_verdict c e verdict db) same
        (record_quarantine_verdict-MovesTo w c e verdict same)

  -- a conditional whose branches both move
  either-Moves :
      (b : Bool) (db : Store) (x y : Option String × Store)
      → Moves w db x.1
      → Moves w db y.1
      → Moves w db (if b then x else y).1
  either-Moves true db x y h k = h
  either-Moves false db x y h k = k

  apply_bulk_action-Moves :
      (action : String) (e : Entry) (db : Store)
      → find_entry e.id db.entries ≡ some e
      → Moves w db (apply_bulk_action w c action e db).1
  unfolding apply_bulk_action block_entry_sender to_state is_held
  apply_bulk_action-Moves action e db found =
      let address = normalized_sender_address w.directory.platform.parse_address e.from_addr in
      either-Moves (str_eq action "release") db _ _ (bulk_release-Moves e db found) (
        either-Moves (str_eq action "delete") db _ _
          (updated same (to_state deleted) (λ f. refl) (λ f k. absurd (ground (arith, k))) e.id)
          (either-Moves (str_eq action "block_sender") db _ _
            (block_sender_of-Moves e "sender" db address)
            (either-Moves (str_eq action "block_domain") db _ _
              (block_sender_of-Moves e "domain" db address)
              (either-Moves (str_eq action "block_root_domain") db _ _
                (block_sender_of-Moves e "root_domain" db address)
                (either-Moves (str_eq action "mark_spam") db _ _ (bulk_mark-Moves e "spam" db) (
                  either-Moves (str_eq action "mark_phishing") db _ _
                    (bulk_mark-Moves e "phishing" db)
                    (either-Moves (str_eq action "mark_malware") db _ _
                      (bulk_mark-Moves e "malware" db)
                      (either-Moves (str_eq action "mark_other") db _ _
                        (bulk_mark-Moves e "other" db)
                        (either-Moves (str_eq action "report_source_ip") db _ _ same same)))))))))

  counted :
      {db : Store} (b : BulkResult) (r : Option String × Store)
      → Moves w db r.1
      → Moves w db (count_result w c b r).store
  unfolding count_result
  counted b (some error, m) h = h
  counted b (none, m) h = h

  bulk_step-Moves :
      (action : String) {db : Store} (b : BulkResult) (row : Option Entry)
      → Moves w db b.store
      → ((e : Entry) → row ≡ some e → find_entry e.id b.store.entries ≡ some e)
      → Moves w db (bulk_step w c action b row).store
  unfolding bulk_step
  bulk_step-Moves action b none h found = h
  bulk_step-Moves action b (some e) h found =
      counted b (apply_bulk_action w c action e b.store)
        (Moves-trans w h (apply_bulk_action-Moves action e b.store (found e refl)))

  load_allowed_entry-found :
      (row : Option Entry) (e : Entry) → load_allowed_entry w c row ≡ some e → row ≡ some e
  unfolding load_allowed_entry
  load_allowed_entry-found none e h = h
  load_allowed_entry-found (some f) e h = elim (Bool-cases (may_read c f)) [
    | inl k ↦ ground (arith, h, k)
    | inr k ↦ absurd (ground (arith, h, k))
  ]

  run_bulk_action-Moves :
      (action : String) (ids : List ℕ) {db : Store} (b : BulkResult)
      → Moves w db b.store
      → Moves w db (run_bulk_action w c action ids b).store
  unfolding run_bulk_action
  run_bulk_action-Moves action [] b h = h
  run_bulk_action-Moves action (id ∷ ids) b h =
      let row = find_entry id b.store.entries in
      run_bulk_action-Moves action ids (bulk_step w c action b (load_allowed_entry w c row)) (
        bulk_step-Moves action b (load_allowed_entry w c row) h
          λ e k. find_entry-found id b.store.entries e (load_allowed_entry-found row e k))

  pub bulk_action-Moves :
      (ids : List ℕ) (requested : String) (db : Store)
      → Moves w db (bulk_action w c ids requested db).1.store
  unfolding bulk_action bulk_start
  bulk_action-Moves ids requested db =
      let action = lower (trim_space requested) in
      let run = run_bulk_action-Moves action ids (bulk_start w c db) same in
      elim (Bool-cases
        (length ids == 0 || (ltb 500 (length ids) || not (valid_bulk_action action)))) [
          | inl h ↦ rw h same
          | inr h ↦ rw h (elim (Bool-cases (should_queue_bulk_action action (length ids))) [
            | inl k ↦ rw k run
            | inr k ↦ rw k run
          ])
        ]

-- ===== src/Quarantine/Courses/Served.antt =====
-- The same for the other endpoints, for bulk actions and for a recipient's copies.
use sentinel_mail_gateway.Prelude.{
  ℕ, String, Bool, true, false, not, ◌||◌, Option, none, some, List, ◌≡◌, refl, str_eq,
  if◌then◌else◌, ◌⊎◌, inl, inr, Bool-cases,
}
use sentinel_mail_gateway.Learning.{Sample}
use sentinel_mail_gateway.Learning.Keys.{subject_fingerprint}
use sentinel_mail_gateway.SenderList.Rules.{Rule}
use sentinel_mail_gateway.Quarantine.{Entry, Store, Caller, Answer, is_held, find_entry, may_read}
use sentinel_mail_gateway.Quarantine.Delivery.{World, release_error, send, text_or_empty}
use sentinel_mail_gateway.Quarantine.Verdicts.{
  normalize_quarantine_verdict, valid_quarantine_verdict, record_quarantine_verdict, sample_for,
  add_sample, forget_sender, record_quarantine_not_spam, normalized_sender_address,
}
use sentinel_mail_gateway.Quarantine.Handlers.{
  answer, domain_part, is_bad_domain, with_rules, decide_domain, or_status, with_entry,
  verdict_entry, give_verdict, mark_not_spam, not_spam_sent, not_spam_sender, not_spam_entry,
  not_spam,
}
use sentinel_mail_gateway.Quarantine.Courses.Moves.{
  Moves, same, aside, delivered, IsAside, MovesTo, record_quarantine_verdict-MovesTo,
  find_entry-found, holds-find_entry,
}

module _ (w : World) (c : Caller) where
  pub with_rules-IsAside :
      (db : Store) (r : String ⊎ (String × List Rule)) → IsAside w db (with_rules db r)
  unfolding with_rules
  with_rules-IsAside db (inl error) = tt
  with_rules-IsAside db (inr (pattern, rules)) = (refl, refl)

  pub decide_domain-IsAside :
      (e : Entry) (dom : Option ℕ) (d action : String) (db : Store)
      → IsAside w db (decide_domain w c e dom d action db)
  unfolding decide_domain
  decide_domain-IsAside e dom d action db = with_rules-IsAside db _

  pub or_status-Moves :
      (bad good : ℕ) {db m : Store} (r : String ⊎ Store)
      → Moves w db m
      → MovesTo w db r
      → Moves w db (or_status bad good m r).store
  unfolding or_status answer
  or_status-Moves bad good (inl error) h k = h
  or_status-Moves bad good (inr n) h k = k

  if-aside :
      (b : Bool) (db : Store) (s : Sample)
      → ((if b then db else add_sample s db).entries ≡ db.entries)
        × ((if b then db else add_sample s db).sent ≡ db.sent)
  unfolding add_sample
  if-aside true db s = (refl, refl)
  if-aside false db s = (refl, refl)

  record_quarantine_not_spam-MovesTo :
      (e : Entry) (sender : String) {db m : Store}
      → Moves w db m
      → MovesTo w db (record_quarantine_not_spam c e sender m)
  unfolding record_quarantine_not_spam forget_sender
  record_quarantine_not_spam-MovesTo e sender {m = m} h =
      let fingerprint = subject_fingerprint (text_or_empty e.subject) in
      let (rows, out) =
        if-aside (str_eq fingerprint "") m (sample_for e sender "not_spam" fingerprint) in
      record_quarantine_verdict-MovesTo w c e "not_spam" (aside h _ rows out)

  pub mark_not_spam-Moves :
      (bad : ℕ) (e : Entry) (sender : String) {db m : Store} (r : String ⊎ Store)
      → Moves w db m
      → IsAside w m r
      → Moves w db (mark_not_spam w c bad e sender m r).store
  unfolding mark_not_spam answer
  mark_not_spam-Moves bad e sender (inl error) h a = h
  mark_not_spam-Moves bad e sender (inr n) h (rows, out) =
      let next = aside h n rows out in
      or_status-Moves 500 200 (record_quarantine_not_spam c e sender n) next
        (record_quarantine_not_spam-MovesTo e sender next)

  not_spam_sent-Moves :
      (e : Entry) (sender : String) (db : Store) (error : Option String)
      → find_entry e.id db.entries ≡ some e
      → is_held e.state ≡ true
      → release_error w e ≡ error
      → Moves w db (not_spam_sent w c e sender db error).store
  unfolding not_spam_sent answer
  not_spam_sent-Moves e sender db (some error) found is k = same
  not_spam_sent-Moves e sender db none found is k =
      mark_not_spam-Moves 500 e sender
        (decide_domain w c e e.domain_id (domain_part sender) "allow" (send c e db))
        (delivered same c e (holds-find_entry e.id db.entries e found is) k)
        (decide_domain-IsAside e e.domain_id (domain_part sender) "allow" (send c e db))

  not_spam_sender-Moves :
      (e : Entry) (db : Store) (sender : String ⊎ String)
      → find_entry e.id db.entries ≡ some e
      → Moves w db (not_spam_sender w c e db sender).store
  unfolding not_spam_sender answer
  not_spam_sender-Moves e db (inl error) found = same
  not_spam_sender-Moves e db (inr sender) found =
      elim (Bool-cases (is_bad_domain (domain_part sender))) [
        | inl h ↦ rw h same
        | inr h ↦ rw h (elim (Bool-cases (is_held e.state)) [
          | inl k ↦ rw k (not_spam_sent-Moves e sender db (release_error w e) found k refl)
          | inr k ↦ rw k (
              mark_not_spam-Moves 500 e sender
                (decide_domain w c e e.domain_id (domain_part sender) "allow" db) same
                (decide_domain-IsAside e e.domain_id (domain_part sender) "allow" db))
        ])
      ]

  verdict_entry-Moves :
      (body : Option String) (e : Entry) (db : Store)
      → Moves w db (verdict_entry w c body e db).store
  unfolding verdict_entry answer
  verdict_entry-Moves none e db = same
  verdict_entry-Moves (some body) e db =
      let v = normalize_quarantine_verdict body in
      elim (Bool-cases (not (valid_quarantine_verdict v) || str_eq v "not_spam")) [
        | inl h ↦ rw h same
        | inr h ↦ rw h (
            or_status-Moves 500 200 (record_quarantine_verdict c e v db) same
              (record_quarantine_verdict-MovesTo w c e v same))
      ]

  pub with_entry-Moves :
      (next : Entry → Store → Answer) (db : Store) (row : Option Entry)
      → ((e : Entry) → row ≡ some e → Moves w db (next e db).store)
      → Moves w db (with_entry w c next db row).store
  unfolding with_entry answer
  with_entry-Moves next db none h = same
  with_entry-Moves next db (some e) h = elim (Bool-cases (may_read c e)) [
    | inl k ↦ rw k (h e refl)
    | inr k ↦ rw k same
  ]

  pub give_verdict-Moves :
      (body : Option String) (id : ℕ) (db : Store) → Moves w db (give_verdict w c body id db).store
  unfolding give_verdict
  give_verdict-Moves body id db =
      with_entry-Moves (verdict_entry w c body) db (find_entry id db.entries)
        λ e h. verdict_entry-Moves body e db

  pub not_spam-Moves : (id : ℕ) (db : Store) → Moves w db (not_spam w c id db).store
  unfolding not_spam not_spam_entry
  not_spam-Moves id db = with_entry-Moves (not_spam_entry w c) db (find_entry id db.entries) λ e h.
      not_spam_sender-Moves e db
        (normalized_sender_address w.directory.platform.parse_address e.from_addr)
        (find_entry-found id db.entries e h)

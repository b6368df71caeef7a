-- ===== src/Quarantine/Courses/Ruled.antt =====
-- The same for the endpoints that block or allow a sender.
use sentinel_mail_gateway.Prelude.{
  ℕ, String, not, ◌||◌, Option, none, some, str_eq, ◌⊎◌, inl, inr, Bool-cases,
}
use sentinel_mail_gateway.Quarantine.{Entry, Store, Caller, find_entry}
use sentinel_mail_gateway.Quarantine.Delivery.{World}
use sentinel_mail_gateway.Quarantine.Verdicts.{
  valid_quarantine_verdict, finish_sender_block, record_quarantine_classification,
}
use sentinel_mail_gateway.Quarantine.Handlers.{answer, decide_domain}
use sentinel_mail_gateway.Quarantine.Bulk.{insert_block_entry, match_domain}
use sentinel_mail_gateway.Quarantine.Senders.{
  Request, match_or, is_domain_match, named_verdict, block_stored, block_scoped, block_named,
  block_from, block_entry, block_sender, sender_key, allow_domain, allow_from, allow_entry,
  allow_sender,
}
use sentinel_mail_gateway.Quarantine.Courses.Moves.{
  Moves, same, aside, IsAside, record_quarantine_verdict-MovesTo,
}
use sentinel_mail_gateway.Quarantine.Courses.Served.{
  with_rules-IsAside, decide_domain-IsAside, or_status-Moves, mark_not_spam-Moves, with_entry-Moves,
}
use sentinel_mail_gateway.Quarantine.Courses.Batched.{
  record_quarantine_classification-aside, insert_block_entry-aside,
}

module _ (w : World) (c : Caller) where
  block_stored-Moves :
      (bad : ℕ) (e : Entry) (sender verdict : String) (db : Store) (r : String ⊎ Store)
      → IsAside w db r
      → Moves w db (block_stored w c bad e sender verdict db r).store
  unfolding block_stored answer finish_sender_block
  block_stored-Moves bad e sender verdict db (inl error) a = same
  block_stored-Moves bad e sender verdict db (inr m) (rows, out) =
      let next : Moves w db m = aside same m rows out in
      let classed = record_quarantine_classification e sender verdict m in
      let (rows', out') = record_quarantine_classification-aside w c e sender verdict m in
      or_status-Moves w c 500 200 (finish_sender_block c e sender verdict m) next
        (record_quarantine_verdict-MovesTo w c e verdict (aside next classed rows' out'))

  block_scoped-Moves :
      (e : Entry) (sender match verdict pattern : String) (db : Store)
      (target : String ⊎ (String × Option ℕ))
      → Moves w db (block_scoped w c e sender match verdict pattern db target).store
  unfolding block_scoped answer
  block_scoped-Moves e sender match verdict pattern db (inl error) = same
  block_scoped-Moves e sender match verdict pattern db (inr (scope, user)) =
      elim (Bool-cases (is_domain_match match)) [
        | inl h ↦ rw h (block_stored-Moves 409 e sender verdict db _ (with_rules-IsAside w c db _))
        | inr h ↦ rw h (
            block_stored-Moves 500 e sender verdict db
              (inr (insert_block_entry w (sender_key e scope user) pattern db))
              (insert_block_entry-aside w c (sender_key e scope user) pattern db))
      ]

  block_named-Moves :
      (e : Entry) (sender match verdict scope : String) (db : Store) (pattern : String ⊎ String)
      → Moves w db (block_named w c e sender match verdict scope db pattern).store
  unfolding block_named answer
  block_named-Moves e sender match verdict scope db (inl error) = same
  block_named-Moves e sender match verdict scope db (inr pattern) =
      block_scoped-Moves e sender match verdict pattern db _

  block_from-Moves :
      (e : Entry) (body : Request) (match verdict : String) (db : Store) (sender : String ⊎ String)
      → Moves w db (block_from w c e body match verdict db sender).store
  unfolding block_from answer
  block_from-Moves e body match verdict db (inl error) = same
  block_from-Moves e body match verdict db (inr sender) =
      block_named-Moves e sender match verdict body.scope db _

  block_entry-Moves :
      (body : Option Request) (e : Entry) (db : Store)
      → Moves w db (block_entry w c body e db).store
  unfolding block_entry answer
  block_entry-Moves none e db = same
  block_entry-Moves (some body) e db =
      let match = match_or "sender" body.match in
      let v = named_verdict e body.verdict in
      elim (Bool-cases (not (str_eq match "sender" || is_domain_match match))) [
        | inl h ↦ rw h same
        | inr h ↦
            rw h (elim (Bool-cases (not (valid_quarantine_verdict v) || str_eq v "not_spam")) [
              | inl k ↦ rw k same
              | inr k ↦ rw k (block_from-Moves e body match v db _)
            ])
      ]

  pub block_sender-Moves :
      (body : Option Request) (id : ℕ) (db : Store) → Moves w db (block_sender w c body id db).store
  unfolding block_sender
  block_sender-Moves body id db =
      with_entry-Moves w c (block_entry w c body) db (find_entry id db.entries)
        λ e h. block_entry-Moves body e db

  allow_domain-Moves :
      (e : Entry) (sender : String) (db : Store) (d : String ⊎ String)
      → Moves w db (allow_domain w c e sender db d).store
  unfolding allow_domain answer
  allow_domain-Moves e sender db (inl error) = same
  allow_domain-Moves e sender db (inr d) =
      mark_not_spam-Moves w c 409 e sender (decide_domain w c e e.domain_id d "allow" db) same
        (decide_domain-IsAside w c e e.domain_id d "allow" db)

  allow_from-Moves :
      (match : String) (e : Entry) (db : Store) (sender : String ⊎ String)
      → Moves w db (allow_from w c match e db sender).store
  unfolding allow_from answer
  allow_from-Moves match e db (inl error) = same
  allow_from-Moves match e db (inr sender) =
      allow_domain-Moves e sender db (match_domain w match sender)

  allow_entry-Moves :
      (body : Option Request) (e : Entry) (db : Store)
      → Moves w db (allow_entry w c body e db).store
  unfolding allow_entry answer
  allow_entry-Moves none e db = same
  allow_entry-Moves (some body) e db =
      elim (Bool-cases (is_domain_match (match_or "domain" body.match))) [
        | inl h ↦ rw h (allow_from-Moves (match_or "domain" body.match) e db _)
        | inr h ↦ rw h same
      ]

  pub allow_sender-Moves :
      (body : Option Request) (id : ℕ) (db : Store) → Moves w db (allow_sender w c body id db).store
  unfolding allow_sender
  allow_sender-Moves body id db =
      with_entry-Moves w c (allow_entry w c body) db (find_entry id db.entries)
        λ e h. allow_entry-Moves body e db

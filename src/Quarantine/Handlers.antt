-- ===== src/Quarantine/Handlers.antt =====
-- The endpoints for one entry.
use sentinel_mail_gateway.Prelude.{
  ℕ, String, Bool, not, ◌||◌, Option, none, some, List, str_eq, if◌then◌else◌, ◌⊎◌, inl, inr,
}
use sentinel_mail_gateway.Strings.{lower, trim_space, cut_last}
use sentinel_mail_gateway.SenderList.Rules.{Rule, normalize_sender_domain, upsert_decision}
use sentinel_mail_gateway.Quarantine.{
  Entry, Store, Caller, Answer, deleted, is_held, find_entry, change_entry, to_state, may_act,
  may_read,
}
use sentinel_mail_gateway.Quarantine.Delivery.{
  World, ApprovalError, inactive_recipient, approval_failed, release_error, send,
  record_challenge_approval,
}
use sentinel_mail_gateway.Quarantine.Verdicts.{
  normalize_quarantine_verdict, valid_quarantine_verdict, record_quarantine_verdict,
  record_quarantine_not_spam, normalized_sender_address,
}

unfoldable pub answer : ℕ → Store → Answer
answer status db = record { status = status; store = db }

-- `domainPart`
unfoldable pub domain_part : String → String
domain_part value =
    let v = trim_space value in
    let part : String = elim (cut_last "@" v) [ some (_, after) ↦ after | none ↦ v ] in
    if str_eq part "" then "sentinelmail.local" else part

unfoldable pub is_bad_domain : String → Bool
is_bad_domain d = str_eq d "" || str_eq d "sentinelmail.local"

unfoldable pub domain_or : Option String → String → String
domain_or none d = d
domain_or (some root) d = lower root

-- `RootSenderDomain`
unfoldable pub root_sender_domain : World → String → String ⊎ String
unfolding normalize_sender_domain domain_or
root_sender_domain w value = elim (normalize_sender_domain w.directory value) [
  | inl error ↦ inl error
  | inr d ↦ inr (domain_or (w.root_domain d) d)
]

-- the scope of a caller's own decision
unfoldable pub own_scope : Caller → String
own_scope c = if str_eq c.role "org_user" then "user" else "org"

unfoldable pub own_user : Caller → Option ℕ
own_user c = if str_eq c.role "org_user" then some c.user_id else none

unfoldable pub with_rules : Store → String ⊎ (String × List Rule) → String ⊎ Store
with_rules db (inl error) = inl error
with_rules db (inr (pattern, rules)) = inr (record db { rules = rules })

-- UpsertDomainDecision with the entry's ids and the caller's scope
unfoldable pub decide_domain :
    World → Caller → Entry → Option ℕ → String → String → Store → String ⊎ Store
unfolding upsert_decision own_scope own_user with_rules
decide_domain w c e dom sender_domain action db = with_rules db (
    upsert_decision w.directory w.rule_id w.now (some e.organization_id) dom (own_user c)
      (own_scope c) "domain" sender_domain action db.rules)

unfoldable pub or_status : ℕ → ℕ → Store → String ⊎ Store → Answer
unfolding answer
or_status bad good db (inl error) = answer bad db
or_status bad good db (inr changed) = answer good changed

module _ (w : World) (c : Caller) where
  unfoldable pub release_sent : Entry → Store → Option String → Answer
  unfolding answer send
  release_sent e db (some error) = answer 409 db
  release_sent e db none = answer 204 (send c e db)

  unfoldable pub release_approved : Entry → Store → ApprovalError ⊎ Store → Answer
  unfolding answer release_sent release_error
  release_approved e db (inl inactive_recipient) = answer 409 db
  release_approved e db (inl approval_failed) = answer 500 db
  release_approved e db (inr approved) = release_sent e approved (release_error w e)

  unfoldable pub release_entry : Store → Option Entry → Answer
  unfolding answer may_act is_held release_approved record_challenge_approval
  release_entry db none = answer 404 db
  release_entry db (some e) =
      if not (may_act c e)
      then answer 403 db
      else if not (is_held e.state)
      then answer 409 db
      else release_approved e db (record_challenge_approval w c e db)

  -- `release`
  unfoldable pub release : ℕ → Store → Answer
  unfolding release_entry find_entry
  release id db = release_entry db (find_entry id db.entries)

  unfoldable pub delete_entry : Store → Option Entry → Answer
  unfolding answer may_act change_entry to_state
  delete_entry db none = answer 404 db
  delete_entry db (some e) =
      if may_act c e then answer 204 (change_entry (to_state deleted) e.id db) else answer 403 db

  -- `del`
  unfoldable pub delete : ℕ → Store → Answer
  unfolding delete_entry find_entry
  delete id db = delete_entry db (find_entry id db.entries)

  -- readAllowedEntryWithIdentity, and what follows it
  unfoldable pub with_entry : (Entry → Store → Answer) → Store → Option Entry → Answer
  unfolding answer may_read
  with_entry next db none = answer 404 db
  with_entry next db (some e) = if may_read c e then next e db else answer 404 db

  unfoldable pub verdict_entry : Option String → Entry → Store → Answer
  unfolding answer normalize_quarantine_verdict valid_quarantine_verdict record_quarantine_verdict
      or_status
  verdict_entry none e db = answer 400 db
  verdict_entry (some body) e db =
      let v = normalize_quarantine_verdict body in
      if not (valid_quarantine_verdict v) || str_eq v "not_spam"
      then answer 400 db
      else or_status 500 200 db (record_quarantine_verdict c e v db)

  -- `verdict`, for a body that decodes or not
  unfoldable pub give_verdict : Option String → ℕ → Store → Answer
  unfolding with_entry verdict_entry find_entry
  give_verdict body id db = with_entry (verdict_entry body) db (find_entry id db.entries)

  -- from UpsertDomainDecision on
  unfoldable pub mark_not_spam : ℕ → Entry → String → Store → String ⊎ Store → Answer
  unfolding answer or_status record_quarantine_not_spam
  mark_not_spam bad e sender db (inl error) = answer bad db
  mark_not_spam bad e sender db (inr allowed) =
      or_status 500 200 allowed (record_quarantine_not_spam c e sender allowed)

  unfoldable pub not_spam_sent : Entry → String → Store → Option String → Answer
  unfolding answer send decide_domain mark_not_spam domain_part
  not_spam_sent e sender db (some error) = answer 409 db
  not_spam_sent e sender db none =
      let out = send c e db in
      mark_not_spam 500 e sender out
        (decide_domain w c e e.domain_id (domain_part sender) "allow" out)

  unfoldable pub not_spam_sender : Entry → Store → String ⊎ String → Answer
  unfolding answer is_bad_domain domain_part is_held not_spam_sent release_error mark_not_spam
      decide_domain
  not_spam_sender e db (inl error) = answer 409 db
  not_spam_sender e db (inr sender) =
      if is_bad_domain (domain_part sender)
      then answer 409 db
      else if is_held e.state
      then not_spam_sent e sender db (release_error w e)
      else mark_not_spam 500 e sender db
          (decide_domain w c e e.domain_id (domain_part sender) "allow" db)

  unfoldable pub not_spam_entry : Entry → Store → Answer
  unfolding not_spam_sender normalized_sender_address
  not_spam_entry e db =
      not_spam_sender e db
        (normalized_sender_address w.directory.platform.parse_address e.from_addr)

  -- `notSpam`
  unfoldable pub not_spam : ℕ → Store → Answer
  unfolding with_entry not_spam_entry find_entry
  not_spam id db = with_entry not_spam_entry db (find_entry id db.entries)

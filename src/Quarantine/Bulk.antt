-- ===== src/Quarantine/Bulk.antt =====
-- The actions of a bulk request on one entry.
use sentinel_mail_gateway.Prelude.{
  String, not, ◌&&◌, Option, none, some, ◌∷◌, any, str_eq, if◌then◌else◌, ◌⊎◌, inl, inr,
}
use sentinel_mail_gateway.Strings.{lower}
use sentinel_mail_gateway.SenderList.Query.{block, email, is_block}
use sentinel_mail_gateway.SenderList.Rules.{Rule, Key, has_key, rule_of}
use sentinel_mail_gateway.Quarantine.{
  Entry, Store, Caller, deleted, is_held, change_entry, to_state,
}
use sentinel_mail_gateway.Quarantine.Delivery.{
  World, ApprovalError, release_error, send, record_challenge_approval,
}
use sentinel_mail_gateway.Quarantine.Verdicts.{
  record_quarantine_verdict, finish_sender_block, current_entry_verdict, normalized_sender_address,
}
use sentinel_mail_gateway.Quarantine.Handlers.{
  domain_part, is_bad_domain, root_sender_domain, own_scope, own_user, decide_domain,
}

-- the row that insertBlockEntry looks for, and inserts
unfoldable pub block_key : Caller → Entry → Key
unfolding own_user own_scope
block_key c e = record {
  organization_id = some e.organization_id;
  domain_id = none;
  user_id = own_user c;
  scope = own_scope c;
  kind = email;
}

-- `insertBlockEntry`
unfoldable pub insert_block_entry : World → Key → String → Store → Store
unfolding has_key rule_of
insert_block_entry w k pattern db =
    if any (λ (r : Rule). is_block r.entry.action && has_key k pattern r) db.rules
    then db
    else record db { rules = rule_of w.rule_id w.now k block (lower pattern) ∷ db.rules }

-- what is matched: the sender, its domain, or its root domain
unfoldable pub match_domain : World → String → String → String ⊎ String
unfolding root_sender_domain domain_part is_bad_domain
match_domain w match sender =
    let d = domain_part sender in
    if is_bad_domain d
    then inl "sender domain is invalid"
    else if str_eq match "root_domain"
    then root_sender_domain w d
    else inr d

-- an error or none, with what is stored by then
unfoldable pub outcome_of : Store → String ⊎ Store → Option String × Store
outcome_of db (inl error) = (some error, db)
outcome_of db (inr changed) = (none, changed)

module _ (w : World) (c : Caller) where
  unfoldable pub finish_block : Entry → String → Store → String ⊎ Store → Option String × Store
  unfolding outcome_of finish_sender_block current_entry_verdict
  finish_block e sender db (inl error) = (some error, db)
  finish_block e sender db (inr blocked) =
      outcome_of blocked (finish_sender_block c e sender (current_entry_verdict e) blocked)

  unfoldable pub block_domain_of : Entry → String → Store → String ⊎ String → Option String × Store
  unfolding finish_block decide_domain
  block_domain_of e sender db (inl error) = (some error, db)
  block_domain_of e sender db (inr d) =
      finish_block e sender db (decide_domain w c e none d "block" db)

  unfoldable pub block_sender_of : Entry → String → Store → String ⊎ String → Option String × Store
  unfolding finish_block block_key insert_block_entry block_domain_of match_domain
  block_sender_of e match db (inl error) = (some error, db)
  block_sender_of e match db (inr sender) =
      if str_eq match "sender"
      then finish_block e sender db (inr (insert_block_entry w (block_key c e) sender db))
      else block_domain_of e sender db (match_domain w match sender)

  -- `blockEntrySender`
  unfoldable pub block_entry_sender : Entry → String → Store → Option String × Store
  unfolding block_sender_of normalized_sender_address
  block_entry_sender e match db =
      block_sender_of e match db
        (normalized_sender_address w.directory.platform.parse_address e.from_addr)

  -- releaseMessage and the update, after recordChallengeApproval
  unfoldable pub send_approved :
      Entry → Store → Option String → ApprovalError ⊎ Store → Option String × Store
  unfolding send
  send_approved e db error (inl _) = (some "sender approval failed", db)
  send_approved e db (some error) (inr approved) = (some error, approved)
  send_approved e db none (inr approved) = (none, send c e approved)

  unfoldable pub bulk_release : Entry → Store → Option String × Store
  unfolding is_held send_approved release_error record_challenge_approval
  bulk_release e db =
      if not (is_held e.state)
      then (some "not in held state", db)
      else send_approved e db (release_error w e) (record_challenge_approval w c e db)

  unfoldable pub bulk_mark : Entry → String → Store → Option String × Store
  unfolding outcome_of record_quarantine_verdict
  bulk_mark e verdict db = outcome_of db (record_quarantine_verdict c e verdict db)

  -- `applyBulkAction`, without the addresses that it reports
  unfoldable pub apply_bulk_action : String → Entry → Store → Option String × Store
  unfolding bulk_release block_entry_sender bulk_mark change_entry to_state
  apply_bulk_action action e db =
      if str_eq action "release"
      then bulk_release e db
      else if str_eq action "delete"
      then (none, change_entry (to_state deleted) e.id db)
      else if str_eq action "block_sender"
      then block_entry_sender e "sender" db
      else if str_eq action "block_domain"
      then block_entry_sender e "domain" db
      else if str_eq action "block_root_domain"
      then block_entry_sender e "root_domain" db
      else if str_eq action "mark_spam"
      then bulk_mark e "spam" db
      else if str_eq action "mark_phishing"
      then bulk_mark e "phishing" db
      else if str_eq action "mark_malware"
      then bulk_mark e "malware" db
      else if str_eq action "mark_other"
      then bulk_mark e "other" db
      else if str_eq action "report_source_ip"
      then (w.report_error e, db)
      else (some "invalid action", db)

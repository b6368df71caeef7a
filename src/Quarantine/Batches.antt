-- ===== src/Quarantine/Batches.antt =====
-- The loop over the ids of a bulk action, its endpoint, and the copy of one recipient.
use sentinel_mail_gateway.Prelude.{
  ℕ, suc, String, Bool, false, not, ◌&&◌, ◌||◌, Option, none, some, List, [], ◌∷◌, any, length, leb,
  ltb, ◌==◌, str_eq, if◌then◌else◌, ◌⊎◌, inl, inr,
}
use sentinel_mail_gateway.Strings.{lower, trim_space}
use sentinel_mail_gateway.Quarantine.{
  Entry, Store, Caller, deleted, is_held, find_entry, to_state, may_read,
}
use sentinel_mail_gateway.Quarantine.Delivery.{World, release_error, send}
use sentinel_mail_gateway.Quarantine.Bulk.{apply_bulk_action}

-- bulkActionResult with the store
pub record BulkResult : Type 0 where
  pub processed : ℕ
  pub succeeded : ℕ
  pub failed : ℕ
  pub store : Store

abbrev pub bulk_background_threshold : ℕ
bulk_background_threshold = 10

-- `validBulkAction`
unfoldable pub valid_bulk_action : String → Bool
valid_bulk_action action = any (str_eq action) (
    "release" ∷ "delete" ∷ "block_sender" ∷ "block_domain" ∷ "block_root_domain"
    ∷ "report_source_ip" ∷ "mark_spam" ∷ "mark_phishing" ∷ "mark_malware" ∷ "mark_other" ∷ [])

-- `shouldQueueBulkAction`
unfoldable pub should_queue_bulk_action : String → ℕ → Bool
should_queue_bulk_action action count =
    if str_eq action "report_source_ip" then leb 2 count else leb bulk_background_threshold count

module _ (w : World) (c : Caller) where
  -- `loadAllowedEntry`
  unfoldable pub load_allowed_entry : Option Entry → Option Entry
  unfolding may_read
  load_allowed_entry none = none
  load_allowed_entry (some e) = if may_read c e then some e else none

  unfoldable pub count_result : BulkResult → Option String × Store → BulkResult
  count_result r (some error, db) = record r {
    processed = suc r.processed;
    failed = suc r.failed;
    store = db;
  }
  count_result r (none, db) = record r {
    processed = suc r.processed;
    succeeded = suc r.succeeded;
    store = db;
  }

  unfoldable pub bulk_step : String → BulkResult → Option Entry → BulkResult
  unfolding count_result apply_bulk_action
  bulk_step action r none = record r { processed = suc r.processed; failed = suc r.failed }
  bulk_step action r (some e) = count_result r (apply_bulk_action w c action e r.store)

  -- the loop of `runBulkAction`
  unfoldable pub run_bulk_action : String → List ℕ → BulkResult → BulkResult
  unfolding bulk_step load_allowed_entry find_entry
  run_bulk_action action [] r = r
  run_bulk_action action (id ∷ ids) r =
      run_bulk_action action ids
        (bulk_step action r (load_allowed_entry (find_entry id r.store.entries)))

  unfoldable pub bulk_start : Store → BulkResult
  bulk_start db = record { processed = 0; succeeded = 0; failed = 0; store = db }

  -- `bulkAction`: a status with the result, which a queued action has later
  unfoldable pub bulk_action : List ℕ → String → Store → ℕ × BulkResult
  unfolding valid_bulk_action should_queue_bulk_action run_bulk_action bulk_start
  bulk_action ids requested db =
      let action = lower (trim_space requested) in
      if length ids == 0 || (ltb 500 (length ids) || not (valid_bulk_action action))
      then (400, bulk_start db)
      else if should_queue_bulk_action action (length ids)
      then (202, run_bulk_action action ids (bulk_start db))
      else (200, run_bulk_action action ids (bulk_start db))

  -- the WHERE clause of both functions for a recipient
  unfoldable pub is_copy : ℕ → String → Entry → Bool
  unfolding is_held
  is_copy log to_addr e = elim e.mail_log_id [
    | none ↦ false
    | some l ↦ l == log && (str_eq (lower e.to_addr) (lower to_addr) && is_held e.state)
  ]

  -- ORDER BY received_at DESC LIMIT 1
  unfoldable pub later_copy : Entry → Option Entry → Option Entry
  later_copy e none = some e
  later_copy e (some f) = if ltb e.received_at f.received_at then some f else some e

  unfoldable pub latest_copy : ℕ → String → List Entry → Option Entry
  unfolding is_copy later_copy
  latest_copy log to_addr [] = none
  latest_copy log to_addr (e ∷ es) =
      let rest = latest_copy log to_addr es in
      if is_copy log to_addr e then later_copy e rest else rest

  unfoldable pub release_copy : Store → Option Entry → Option String ⊎ Store
  unfolding send release_error
  release_copy db none = inl none
  release_copy db (some e) = elim (release_error w e) [
    | some error ↦ inl (some error)
    | none ↦ inr (send c e db)
  ]

  -- `ReleaseHeldForRecipient`: an error, false (`none`), or the store
  unfoldable pub release_held_for_recipient : ℕ → String → Store → Option String ⊎ Store
  unfolding release_copy latest_copy
  release_held_for_recipient log to_addr db = release_copy db (latest_copy log to_addr db.entries)

  unfoldable pub delete_copies : ℕ → String → List Entry → List Entry
  unfolding is_copy to_state
  delete_copies log to_addr [] = []
  delete_copies log to_addr (e ∷ es) =
      (if is_copy log to_addr e then to_state deleted e else e) ∷ delete_copies log to_addr es

  -- `DeleteHeldForRecipient`
  unfoldable pub delete_held_for_recipient : ℕ → String → Store → Store
  unfolding delete_copies
  delete_held_for_recipient log to_addr db = record db {
    entries = delete_copies log to_addr db.entries;
  }

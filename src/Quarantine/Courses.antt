-- ===== src/Quarantine/Courses.antt =====
-- Series of requests to the quarantine. `ReleaseDeepAnalysisHold`, a loop that runs beside the
-- requests, is not among them: DeepAnalysis is about it.
pub mod Moves
pub mod Served
pub mod Batched
pub mod Ruled
pub mod Copies
pub mod Once
use sentinel_mail_gateway.Prelude.{ℕ, String, Option, none, some, List, ◌⊎◌, inl, inr}
use sentinel_mail_gateway.Quarantine.{Store, Caller}
use sentinel_mail_gateway.Quarantine.Delivery.{World}
use sentinel_mail_gateway.Quarantine.Handlers.{release, delete, give_verdict, not_spam}
use sentinel_mail_gateway.Quarantine.Senders.{Request, block_sender, allow_sender}
use sentinel_mail_gateway.Quarantine.Batches.{
  bulk_action, release_held_for_recipient, delete_held_for_recipient,
}

-- a request with its arguments; the last two come from the mailbox
pub data Order : Type 0 where
  order_release : ℕ → Order
  order_delete : ℕ → Order
  order_verdict : Option String → ℕ → Order
  order_not_spam : ℕ → Order
  order_block : Option Request → ℕ → Order
  order_allow : Option Request → ℕ → Order
  order_bulk : List ℕ → String → Order
  order_release_copy : ℕ → String → Order
  order_delete_copy : ℕ → String → Order

unfoldable pub kept : Store → Option String ⊎ Store → Store
kept db (inl error) = db
kept db (inr changed) = changed

-- the store after a request
unfoldable pub carry_out : World → Caller → Order → Store → Store
unfolding release delete give_verdict not_spam block_sender allow_sender bulk_action
    release_held_for_recipient delete_held_for_recipient kept
carry_out w c (order_release id) db = (release w c id db).store
carry_out w c (order_delete id) db = (delete w c id db).store
carry_out w c (order_verdict body id) db = (give_verdict w c body id db).store
carry_out w c (order_not_spam id) db = (not_spam w c id db).store
carry_out w c (order_block body id) db = (block_sender w c body id db).store
carry_out w c (order_allow body id) db = (allow_sender w c body id db).store
carry_out w c (order_bulk ids action) db = (bulk_action w c ids action db).1.store
carry_out w c (order_release_copy log to_addr) db =
    kept db (release_held_for_recipient w c log to_addr db)
carry_out w c (order_delete_copy log to_addr) db = delete_held_for_recipient w c log to_addr db

-- the stores that requests of any callers lead to from `db`
pub data Follows (db : Store) : Store → Type 0 where
  begin : Follows db db
  after :
      {m : Store}
      → Follows db m
      → (w : World) → (c : Caller) → (o : Order) → Follows db (carry_out w c o m)

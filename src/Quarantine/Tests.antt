-- ===== src/Quarantine/Tests.antt =====
-- One held entry, its recipient and an administrator.
use sentinel_mail_gateway.Strings.{contains, contains_any, cut_last, lower, trim_prefix, trim_space}
use sentinel_mail_gateway.Prelude.{true, false, ◌≡◌, refl, none, some, [], ◌∷◌}
use sentinel_mail_gateway.Samples.{small_platform}
use sentinel_mail_gateway.SenderList.Rules.{Directory}
use sentinel_mail_gateway.Quarantine.{
  Entry, Store, Caller, held, deleted, find_entry, may_act, is_held,
}
use sentinel_mail_gateway.Quarantine.Delivery.{Gateway, World, release_error, is_pending}
use sentinel_mail_gateway.Quarantine.Handlers.{release, delete, give_verdict, not_spam}
use sentinel_mail_gateway.Quarantine.Batches.{bulk_action, delete_held_for_recipient}
use sentinel_mail_gateway.Quarantine.Senders.{Request, block_sender, allow_sender}
use sentinel_mail_gateway.Quarantine.Courses.{
  Follows, begin, after, order_release, order_bulk, order_release_copy, carry_out,
}
use sentinel_mail_gateway.Quarantine.Courses.Moves.{holds}
use sentinel_mail_gateway.Quarantine.Courses.Once.{is_once, Follows-is_once}
use sentinel_mail_gateway.Quarantine.Releases.{Sends, release-Sends, release-delivers}

abbrev directory : Directory
directory = record { platform = small_platform; masked_prefix = λ s. none; domain_names = [] }

abbrev gateway : Gateway
gateway = record {
  domain_id = 3;
  organization_id = 7;
  is_active = true;
  priority = 10;
  created_at = 1;
  host = "mx.shop.example";
  port = 25;
}

abbrev world : World
world = record {
  directory = directory;
  accounts = [];
  gateways = gateway ∷ [];
  normalize_sender = λ s. s;
  root_domain = λ s. none;
  rule_id = 1;
  now = 9;
  accepts = λ e. true;
  report_error = λ e. none;
}

abbrev entry : Entry
entry = record {
  id = 5;
  organization_id = 7;
  mail_log_id = some 8;
  domain_id = some 3;
  log_reason = none;
  from_addr = some "eve@bad.example";
  to_addr = "ann@shop.example";
  subject = some "Invoice 12";
  threat_class = none;
  state = held;
  blob = some "message";
  received_at = 2;
  released_by = none;
}

abbrev store : Store
store = record { entries = entry ∷ []; rules = []; samples = []; reports = []; sent = [] }

abbrev ann : Caller
ann = record {
  user_id = 4;
  email = " Ann@Shop.example";
  role = "org_user";
  scope = record { is_super_admin = false; org_id = 7; visible_org_ids = 7 ∷ [] };
}

abbrev bob : Caller
bob = record ann { user_id = 6; email = "bob@shop.example" }

test_released : (release world ann 5 store).store.sent ≡ 5 ∷ []
unfolding release
test_released = refl

test_forbidden : (release world bob 5 store).status ≡ 403
unfolding release
test_forbidden = refl

test_twice : (release world ann 5 (release world ann 5 store).store).status ≡ 409
unfolding release
test_twice = refl

test_deleted : (release world ann 5 (delete world ann 5 store).store).status ≡ 409
unfolding release delete
test_deleted = refl

test_hidden : (give_verdict world bob (some "spam") 5 store).status ≡ 404
unfolding give_verdict
test_hidden = refl

test_not_spam : (not_spam world ann 5 store).status ≡ 200
unfolding not_spam contains cut_last trim_prefix contains_any
test_not_spam = refl

abbrev request : Request
request = record { match = " Domain"; scope = ""; pattern = ""; verdict = "" }

test_block : (block_sender world ann (some request) 5 store).status ≡ 200
unfolding block_sender contains cut_last trim_prefix contains_any
test_block = refl

test_block_for_all :
    (block_sender world ann (some (record request { scope = "org" })) 5 store).status ≡ 403
unfolding block_sender contains cut_last
test_block_for_all = refl

test_block_undecoded : (block_sender world ann none 5 store).status ≡ 400
unfolding block_sender
test_block_undecoded = refl

test_allow : (allow_sender world ann (some request) 5 store).status ≡ 200
unfolding allow_sender contains cut_last trim_prefix contains_any
test_allow = refl

test_allow_one :
    (allow_sender world ann (some (record request { match = "sender" })) 5 store).status ≡ 400
unfolding allow_sender
test_allow_one = refl

test_bulk : (bulk_action world ann (5 ∷ 6 ∷ []) " Release" store).1.failed ≡ 1
unfolding bulk_action
test_bulk = refl

test_copies :
    (delete_held_for_recipient world ann 8 "ANN@shop.example" store).entries
    ≡ record entry { state = deleted } ∷ []
unfolding delete_held_for_recipient lower
test_copies = refl

test_released_copy :
    (carry_out world ann (order_release_copy 8 "ANN@shop.example") store).sent ≡ 5 ∷ []
unfolding carry_out lower
test_released_copy = refl

test_may : may_act ann entry ≡ true
unfolding may_act
test_may = refl

test_deliverable : release_error world entry ≡ none
unfolding release_error trim_space
test_deliverable = refl

test_found : find_entry 5 store.entries ≡ some entry
unfolding find_entry
test_found = refl

test_once : is_once store.entries store.sent ≡ true
test_once = refl

release-Sends_example :
    Sends world ann store (find_entry 5 store.entries) (release world ann 5 store).store
release-Sends_example = release-Sends world ann 5 store

release-delivers_example :
    ((release world ann 5 store).status ≡ 204)
    × ((release world ann 5 store).store.sent ≡ 5 ∷ [])
    × (holds 5 (release world ann 5 store).store.entries ≡ false)
unfolding is_held is_pending
release-delivers_example =
    release-delivers world ann 5 store entry test_found (test_may, refl, test_deliverable) refl

abbrev later : Store
later =
    carry_out world ann (order_bulk (5 ∷ []) "release")
      (carry_out world ann (order_release 5) store)

run : Follows store later
run = after (after begin world ann (order_release 5)) world ann (order_bulk (5 ∷ []) "release")

Follows-is_once_example : is_once later.entries later.sent ≡ true
Follows-is_once_example = Follows-is_once run test_once

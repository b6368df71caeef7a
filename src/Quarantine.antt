-- ===== src/Quarantine.antt =====
-- internal/quarantine/quarantine.go: the entries of the quarantine and the tables that its handlers
-- write. A handler is a function from the caller, the entry's id and the store to a status and a
-- store; each runs as one step. Database errors, times and audit entries are left out.
pub mod Delivery
pub mod Verdicts
pub mod Handlers
pub mod Bulk
pub mod Senders
pub mod Batches
pub mod Courses
pub mod Releases
pub mod Tests
use sentinel_mail_gateway.Prelude.{
  ℕ, String, Bool, true, false, not, ◌&&◌, ◌||◌, Option, none, some, List, [], ◌∷◌, ◌==◌, str_eq,
  if◌then◌else◌,
}
use sentinel_mail_gateway.Strings.{trim_space, equal_fold}
use sentinel_mail_gateway.Learning.{Sample}
use sentinel_mail_gateway.Tenant.{Scope, allows, can_admin}
use sentinel_mail_gateway.SenderList.Rules.{Rule}

-- quarantine_state
pub data EntryState : Type 0 where
  held released deleted expired : EntryState

-- a row of quarantine_entries, with the reason of its mail log and its stored message
pub record Entry : Type 0 where
  pub id : ℕ
  pub organization_id : ℕ
  pub mail_log_id : Option ℕ
  pub domain_id : Option ℕ
  pub log_reason : Option String
  pub from_addr : Option String
  pub to_addr : String
  pub subject : Option String
  pub threat_class : Option String
  pub state : EntryState
  pub blob : Option String
  pub received_at : ℕ
  pub released_by : Option ℕ

-- a row of phishing_reports
pub record Report : Type 0 where
  pub entry_id : ℕ
  pub verdict : String
  pub reporter : ℕ

pub record Store : Type 0 where
  pub entries : List Entry
  pub rules : List Rule
  pub samples : List Sample
  pub reports : List Report
  -- the entries whose message was sent downstream, the last one first
  pub sent : List ℕ

pub record Caller : Type 0 where
  pub user_id : ℕ
  pub email : String
  pub role : String
  pub scope : Scope

pub record Answer : Type 0 where
  pub status : ℕ
  pub store : Store

unfoldable pub is_held : EntryState → Bool
is_held held = true
is_held _ = false

-- SELECT … WHERE id = $1
unfoldable pub find_entry : ℕ → List Entry → Option Entry
find_entry id [] = none
find_entry id (e ∷ es) = let rest = find_entry id es in if e.id == id then some e else rest

-- UPDATE … WHERE id = $1
unfoldable pub update_entry : (Entry → Entry) → ℕ → List Entry → List Entry
update_entry f id [] = []
update_entry f id (e ∷ es) = (if e.id == id then f e else e) ∷ update_entry f id es

unfoldable pub change_entry : (Entry → Entry) → ℕ → Store → Store
unfolding update_entry
change_entry f id db = record db { entries = update_entry f id db.entries }

unfoldable pub to_state : EntryState → Entry → Entry
to_state s e = record e { state = s }

unfoldable pub to_released : ℕ → Entry → Entry
to_released user e = record e { state = released; released_by = some user }

-- `canEndUserAct`
unfoldable pub can_end_user_act : Caller → Entry → Bool
unfolding trim_space equal_fold
can_end_user_act c e =
    str_eq c.role "org_user" && equal_fold (trim_space e.to_addr) (trim_space c.email)

-- the test of `release` and `del`
unfoldable pub may_act : Caller → Entry → Bool
unfolding can_end_user_act can_admin
may_act c e = can_admin c.scope c.role e.organization_id || can_end_user_act c e

-- the test of readAllowedEntryWithIdentity and loadAllowedEntry
unfoldable pub may_read : Caller → Entry → Bool
unfolding can_end_user_act allows
may_read c e =
    allows c.scope e.organization_id && (not (str_eq c.role "org_user") || can_end_user_act c e)

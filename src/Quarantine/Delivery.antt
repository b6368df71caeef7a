-- ===== src/Quarantine/Delivery.antt =====
-- Sending a stored message downstream, and the approval of its sender that goes before.
use sentinel_mail_gateway.Prelude.{
  ℕ, String, Bool, true, false, not, ◌&&◌, ◌||◌, Option, none, some, List, [], ◌∷◌, ltb, leb, ◌==◌,
  str_eq, if◌then◌else◌, ◌⊎◌, inl, inr,
}
use sentinel_mail_gateway.Strings.{lower, trim_space}
use sentinel_mail_gateway.SenderList.Query.{allow}
use sentinel_mail_gateway.SenderList.Rules.{Rule, Account, Directory, upsert_user_decision}
use sentinel_mail_gateway.Quarantine.{
  Entry, Store, Caller, can_end_user_act, change_entry, to_released,
}

-- a row of gateways
pub record Gateway : Type 0 where
  pub domain_id : ℕ
  pub organization_id : ℕ
  pub is_active : Bool
  pub priority : ℕ
  pub created_at : ℕ
  pub host : String
  pub port : ℕ

-- what a request meets: other tables, the id and the time of a new rule, the public suffix list,
-- whether the gateway takes the message, and the error of an abuse report
pub record World : Type 0 where
  pub directory : Directory
  pub accounts : List Account
  pub gateways : List Gateway
  pub normalize_sender : String → String
  pub root_domain : String → Option String
  pub rule_id : ℕ
  pub now : ℕ
  pub accepts : Entry → Bool
  pub report_error : Entry → Option String

unfoldable pub serves : ℕ → ℕ → Gateway → Bool
serves dom org g = g.domain_id == dom && (g.organization_id == org && g.is_active)

-- ORDER BY priority, created_at
unfoldable pub comes_first : Gateway → Gateway → Bool
comes_first g h =
    ltb g.priority h.priority || (g.priority == h.priority && leb g.created_at h.created_at)

unfoldable pub better : Gateway → Option Gateway → Option Gateway
unfolding comes_first
better g none = some g
better g (some h) = if comes_first g h then some g else some h

unfoldable pub first_gateway : ℕ → ℕ → List Gateway → Option Gateway
unfolding serves better
first_gateway dom org [] = none
first_gateway dom org (g ∷ gs) =
    let rest = first_gateway dom org gs in if serves dom org g then better g rest else rest

unfoldable pub check_gateway : Option Gateway → Option String
check_gateway none = some "no active downstream gateway configured"
check_gateway (some g) =
    if str_eq (trim_space g.host) "" || g.port == 0
    then some "downstream gateway is invalid"
    else none

-- `gatewayForRelease`, as its error
unfoldable pub gateway_error : World → Entry → Option String
unfolding first_gateway check_gateway
gateway_error w e = elim e.domain_id [
  | none ↦ some "message has no domain for downstream gateway lookup"
  | some dom ↦ check_gateway (first_gateway dom e.organization_id w.gateways)
]

unfoldable pub blob_error : Option String → Option String
blob_error none = some "original message is not stored for this quarantine entry"
blob_error (some raw) = if str_eq raw "" then some "stored message is empty" else none

unfoldable pub or_error : Option String → Option String → Option String
or_error (some error) next = some error
or_error none next = next

-- `releaseMessage`, as its error: the message is sent where there is none
unfoldable pub release_error : World → Entry → Option String
unfolding gateway_error blob_error or_error
release_error w e =
    or_error (blob_error e.blob)
      (or_error (gateway_error w e) (if w.accepts e then none else some "delivery failed"))

-- the message is out, and the entry is marked
unfoldable pub send : Caller → Entry → Store → Store
unfolding change_entry to_released
send c e db = record (change_entry (to_released c.user_id) e.id db) { sent = e.id ∷ db.sent }

-- the user of the organization with the recipient's address
unfoldable pub find_account : ℕ → String → List Account → Option Account
find_account org to_addr [] = none
find_account org to_addr (u ∷ us) =
    let rest = find_account org to_addr us in
    if u.organization_id == org && str_eq (lower u.email) (lower to_addr) then some u else rest

unfoldable pub is_pending : Option String → Bool
is_pending none = false
is_pending (some reason) = str_eq reason "pending recipient challenge-response approval"

-- errInactiveChallengeRecipient, or another error
pub data ApprovalError : Type 0 where
  inactive_recipient : ApprovalError
  approval_failed : ApprovalError

unfoldable pub text_or_empty : Option String → String
text_or_empty none = ""
text_or_empty (some s) = s

unfoldable pub store_rules : Store → String ⊎ List Rule → ApprovalError ⊎ Store
store_rules db (inl error) = inl approval_failed
store_rules db (inr rules) = inr (record db { rules = rules })

unfoldable pub approve_as : World → Entry → ℕ → Store → ApprovalError ⊎ Store
unfolding store_rules upsert_user_decision text_or_empty
approve_as w e user db = store_rules db (
    upsert_user_decision w.normalize_sender w.accounts w.rule_id w.now e.organization_id e.domain_id
      user e.to_addr (text_or_empty e.from_addr) allow db.rules)

unfoldable pub approve_account : World → Entry → Option Account → Store → ApprovalError ⊎ Store
unfolding approve_as
approve_account w e none db = inr db
approve_account w e (some u) db =
    if u.is_active then approve_as w e u.id db else inl inactive_recipient

-- a user's approval of the user's own mail
unfoldable pub approve_own : World → Caller → Entry → Store → ApprovalError ⊎ Store
unfolding can_end_user_act approve_as
approve_own w c e db = if can_end_user_act c e then approve_as w e c.user_id db else inr db

unfoldable pub approve_by_role : World → Caller → Entry → Store → Bool → ApprovalError ⊎ Store
unfolding approve_own approve_account find_account
approve_by_role w c e db true = approve_own w c e db
approve_by_role w c e db false =
    approve_account w e (find_account e.organization_id e.to_addr w.accounts) db

-- `recordChallengeApproval`
unfoldable pub record_challenge_approval : World → Caller → Entry → Store → ApprovalError ⊎ Store
unfolding is_pending approve_by_role
record_challenge_approval w c e db =
    if not (is_pending e.log_reason)
    then inr db
    else approve_by_role w c e db (str_eq c.role "org_user")

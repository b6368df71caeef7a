-- ===== src/SenderList/Query.antt =====
-- internal/mail/sender_policy.go, `lookupSenderListAddress`: the query on the table of list entries,
-- row by row.
use sentinel_mail_gateway.Prelude.{
  ℕ, suc, String, Bool, true, false, not, ◌&&◌, ◌||◌, Option, none, some, List, [], ◌∷◌, any, ltb,
  ◌==◌, str_eq, if◌then◌else◌,
}
use sentinel_mail_gateway.Strings.{lower}
use sentinel_mail_gateway.SenderList.{Lookup, found}

pub data ListAction : Type 0 where
  allow block : ListAction

pub data ListKind : Type 0 where
  email domain ip : ListKind

-- a row of list_entries
pub record ListEntry : Type 0 where
  pub organization_id : Option ℕ
  pub domain_id : Option ℕ
  pub user_id : Option ℕ
  pub action : ListAction
  pub kind : ListKind
  pub pattern : String
  pub created_at : ℕ

unfoldable pub action_text : ListAction → String
action_text allow = "allow"
action_text block = "block"

abbrev pub is_block : ListAction → Bool
is_block block = true
is_block allow = false

abbrev is_ip : ListKind → Bool
is_ip ip = true
is_ip _ = false

-- SQL's `a = b` with a null on the left, which is not true; `a` is null in the second
abbrev equals : Option ℕ → Option ℕ → Bool
equals (some a) (some b) = a == b
equals _ _ = false

abbrev is_null : Option ℕ → Bool
is_null none = true
is_null (some _) = false

-- array_position, from 1; 999 where there is none
position_from : ℕ → List String → String → ℕ
position_from n [] s = 999
position_from n (p ∷ ps) s = let rest = position_from (suc n) ps s in if str_eq p s then n else rest

-- The recipient: organization, domain and the user with that address, if there is one.
pub record Recipient : Type 0 where
  pub organization_id : ℕ
  pub domain_id : Option ℕ
  pub user_id : Option ℕ

-- the WHERE clause
unfoldable pub selects : Recipient → List String → ListEntry → Bool
selects r patterns e =
    (is_null e.organization_id || equals e.organization_id (some r.organization_id))
    && (not (is_ip e.kind)
        && (any (str_eq (lower e.pattern)) patterns
            && ((is_null e.organization_id
                  || (is_null e.domain_id || equals e.domain_id r.domain_id))
                && (is_null e.user_id || equals e.user_id r.user_id))))

-- the second CASE of the ORDER BY clause
scope_rank : Recipient → ListEntry → ℕ
scope_rank r e =
    if not (is_null e.user_id)
    then 0
    else if equals e.domain_id r.domain_id
    then 1
    else if not (is_null e.organization_id)
    then 2
    else if not (is_null e.domain_id)
    then 3
    else 4

-- compares by one key, and by the next where it is equal
abbrev by_key : ℕ → ℕ → Bool → Bool
by_key a b next = if ltb a b then true else if ltb b a then false else next

action_rank : ListAction → ℕ
action_rank block = 0
action_rank allow = 1

-- whether `e` comes before `f` in the ORDER BY clause
unfoldable pub comes_before : Recipient → List String → ListEntry → ListEntry → Bool
unfolding scope_rank action_rank position_from
comes_before r patterns e f = by_key (action_rank e.action) (action_rank f.action) (
    by_key (scope_rank r e) (scope_rank r f) (
      by_key (position_from 1 patterns (lower e.pattern))
        (position_from 1 patterns (lower f.pattern)) (ltb f.created_at e.created_at)))

-- ORDER BY … LIMIT 1 over the rows that the WHERE clause selects
unfoldable pub first_row : Recipient → List String → List ListEntry → Option ListEntry
first_row r patterns [] = none
first_row r patterns (e ∷ es) = elim (first_row r patterns es) [
  | none ↦ if selects r patterns e then some e else none
  | some f ↦ if selects r patterns e && not (comes_before r patterns f e) then some e else some f
]

unfoldable pub matched_scope : ListEntry → String
matched_scope e =
    if not (is_null e.user_id)
    then "user"
    else if not (is_null e.domain_id)
    then "domain"
    else if is_null e.organization_id
    then "system"
    else "org"

-- the rows of a table that answers, for the patterns of one address
unfoldable pub lookup_sender_list_address : Recipient → List ListEntry → List String → Lookup
unfolding first_row selects comes_before
lookup_sender_list_address r entries [] = found "" ""
lookup_sender_list_address r entries (p ∷ patterns) = elim (first_row r (p ∷ patterns) entries) [
  | none ↦ found "" ""
  | some e ↦ found (action_text e.action) (matched_scope e)
]

-- an entry that the WHERE clause selects and that blocks
unfoldable pub selects_block : Recipient → List String → ListEntry → Bool
selects_block r patterns e = selects r patterns e && is_block e.action

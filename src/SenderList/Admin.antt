-- ===== src/SenderList/Admin.antt =====
-- internal/senderlists/senderlists.go, `create` and `del`: who may write a rule, and what the answer
-- reads back. The users table is a list of ids with organizations; database errors are left out.
use sentinel_mail_gateway.Prelude.{
  ℕ, String, Bool, false, not, ◌&&◌, ◌||◌, Option, none, some, List, [], ◌∷◌, any, keep, ◌==◌,
  str_eq, if◌then◌else◌, ◌⊎◌, inl, inr,
}
use sentinel_mail_gateway.Strings.{lower, trim_space}
use sentinel_mail_gateway.Tenant.{Scope, can_admin}
use sentinel_mail_gateway.SenderList.Query.{ListAction, ListKind}
use sentinel_mail_gateway.SenderList.Rules.{
  Rule, Directory, same_id, has_key, kind_of, action_of, is_missing, upsert_decision,
}

-- the signed-in user, with the scope of the identity
pub record Caller : Type 0 where
  pub user_id : ℕ
  pub organization_id : ℕ
  pub role : String
  pub tenant : Scope

-- writeReq, without the note
pub record WriteRequest : Type 0 where
  pub organization_id : Option ℕ
  pub domain_id : Option ℕ
  pub user_id : Option ℕ
  pub scope : String
  pub action : String
  pub kind : String
  pub sender : String
  pub sender_domain : String

-- an id with its organization: a domain, or an active user
pub record Owned : Type 0 where
  pub id : ℕ
  pub organization_id : ℕ

pub record Tables : Type 0 where
  pub domains : List Owned
  pub active_users : List Owned
  pub rules : List Rule

unfoldable pub owner : ℕ → List Owned → Option ℕ
owner id [] = none
owner id (o ∷ os) = let rest = owner id os in if o.id == id then some o.organization_id else rest

-- the ids that the rule is for
pub record Target : Type 0 where
  pub organization_id : Option ℕ
  pub domain_id : Option ℕ
  pub user_id : Option ℕ

-- a status, and the table after the request
pub record Answer : Type 0 where
  pub status : ℕ
  pub rules : List Rule

unfoldable pub or_default : Option ℕ → ℕ → Option ℕ
or_default none d = some d
or_default (some a) d = some a

unfoldable pub or_text : String → String → String
or_text s d = if str_eq s "" then d else s

-- `domainID` and `userID` of the scope, with the status where there is none
unfoldable pub domain_target : Tables → Option ℕ → Option ℕ → ℕ ⊎ Target
unfolding owner
domain_target t none user = inl 400
domain_target t (some dom) user = elim (owner dom t.domains) [
  | none ↦ inl 404
  | some org ↦ inr (record { organization_id = some org; domain_id = some dom; user_id = user })
]

unfoldable pub user_target : Tables → ℕ → ℕ ⊎ Target
unfolding owner
user_target t user = elim (owner user t.active_users) [
  | none ↦ inl 404
  | some org ↦ inr (record { organization_id = some org; domain_id = none; user_id = some user })
]

unfoldable pub value_or : Option ℕ → ℕ → ℕ
value_or none d = d
value_or (some a) d = a

unfoldable pub target : Caller → Tables → WriteRequest → String → ℕ ⊎ Target
unfolding or_default domain_target user_target value_or
target c t req scope =
    let org = or_default req.organization_id c.organization_id in
    if str_eq scope "system"
    then (if str_eq c.role "super_admin"
        then inr (record { organization_id = none; domain_id = none; user_id = req.user_id })
        else inl 403)
    else if str_eq scope "domain"
    then domain_target t req.domain_id req.user_id
    else if str_eq scope "user"
    then user_target t (value_or req.user_id c.user_id)
    else inr (record { organization_id = org; domain_id = none; user_id = req.user_id })

-- `orgID != nil && !selfUserRule && !scope.CanAdmin(…)`
unfoldable pub is_forbidden : Caller → String → Target → Bool
unfolding same_id can_admin
is_forbidden c scope g = elim g.organization_id [
  | none ↦ false
  | some org ↦
      not (str_eq scope "user" && same_id g.user_id (some c.user_id))
      && not (can_admin c.tenant c.role org)
]

-- the row that the answer reads back: the ids are those of the request's target
unfoldable pub reads_back :
    Target → String → Option ListKind → Option ListAction → String → List Rule → Bool
unfolding has_key
reads_back g scope (some kind) (some action) pattern rules =
    any
      (λ r.
        has_key
          (record {
            organization_id = g.organization_id;
            domain_id = g.domain_id;
            user_id = g.user_id;
            scope = scope;
            kind = kind;
          })
          pattern r)
      rules
reads_back g scope _ _ pattern rules = false

module _ (dir : Directory) (id now : ℕ) (c : Caller) (t : Tables) where
  unfoldable pub answer_create :
      Target → String → String → String → String ⊎ (String × List Rule) → Answer
  unfolding reads_back kind_of action_of
  answer_create g scope kind action (inl error) = record { status = 400; rules = t.rules }
  answer_create g scope kind action (inr (pattern, stored)) = record {
    status =
        if reads_back g scope (kind_of kind) (action_of action) pattern stored then 201 else 500;
    rules = stored;
  }

  unfoldable pub create_for : WriteRequest → String → ℕ ⊎ Target → Answer
  unfolding is_forbidden answer_create upsert_decision or_text
  create_for req scope (inl status) = record { status = status; rules = t.rules }
  create_for req scope (inr g) =
      let kind = or_text req.kind "domain" in
      let action = lower (trim_space req.action) in
      let sender = if str_eq (trim_space req.sender) "" then req.sender_domain else req.sender in
      if is_forbidden c scope g
      then record { status = 403; rules = t.rules }
      else answer_create g scope kind action (
          upsert_decision dir id now g.organization_id g.domain_id g.user_id scope kind sender
            action t.rules)

  -- `create`, for a body that decodes
  unfoldable pub create : WriteRequest → Answer
  unfolding create_for target or_text lower trim_space
  create req =
      let scope = or_text (lower (trim_space req.scope)) "org" in
      create_for req scope (target c t req scope)

  unfoldable pub find_rule : ℕ → List Rule → Option Rule
  find_rule id' [] = none
  find_rule id' (r ∷ rs) = let rest = find_rule id' rs in if r.id == id' then some r else rest

  -- the two tests of `del`
  unfoldable pub may_delete : Rule → Bool
  unfolding same_id can_admin is_missing
  may_delete r = elim r.entry.organization_id [
    | none ↦
        (is_missing r.entry.user_id || same_id r.entry.user_id (some c.user_id))
        && str_eq c.role "super_admin"
    | some org ↦ same_id r.entry.user_id (some c.user_id) || can_admin c.tenant c.role org
  ]

  -- `del`
  unfoldable pub delete : ℕ → Answer
  unfolding find_rule may_delete
  delete id' = elim (find_rule id' t.rules) [
    | none ↦ record { status = 404; rules = t.rules }
    | some r ↦
        if may_delete r
        then record { status = 204; rules = keep (λ q. not (q.id == id')) t.rules }
        else record { status = 403; rules = t.rules }
  ]

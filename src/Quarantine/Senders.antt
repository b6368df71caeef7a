-- ===== src/Quarantine/Senders.antt =====
-- The endpoints that block or allow an entry's sender.
use Prim.Native.String.{◌++◌}
use sentinel_mail_gateway.Prelude.{
  ℕ, String, Bool, not, ◌||◌, Option, none, some, str_eq, if◌then◌else◌, ◌⊎◌, inl, inr,
}
use sentinel_mail_gateway.Strings.{lower, trim_space, trim_prefix}
use sentinel_mail_gateway.Tenant.{can_admin}
use sentinel_mail_gateway.SenderList.Query.{email}
use sentinel_mail_gateway.SenderList.Rules.{
  Account, Key, normalize_sender_domain_for_pattern, upsert_decision,
}
use sentinel_mail_gateway.Quarantine.{Entry, Store, Caller, Answer, find_entry, can_end_user_act}
use sentinel_mail_gateway.Quarantine.Delivery.{World, find_account}
use sentinel_mail_gateway.Quarantine.Verdicts.{
  normalize_quarantine_verdict, valid_quarantine_verdict, current_entry_verdict,
  finish_sender_block, normalized_sender_address,
}
use sentinel_mail_gateway.Quarantine.Handlers.{
  answer, domain_part, is_bad_domain, root_sender_domain, own_scope, with_rules, decide_domain,
  or_status, with_entry, mark_not_spam,
}
use sentinel_mail_gateway.Quarantine.Bulk.{insert_block_entry, match_domain}

-- `blockSenderReq`
pub record Request : Type 0 where
  pub match : String
  pub scope : String
  pub pattern : String
  pub verdict : String

unfoldable pub match_or : String → String → String
match_or default match = let m = lower (trim_space match) in if str_eq m "" then default else m

unfoldable pub is_domain_match : String → Bool
is_domain_match match = str_eq match "domain" || str_eq match "root_domain"

unfoldable pub named_verdict : Entry → String → String
unfolding normalize_quarantine_verdict current_entry_verdict
named_verdict e verdict =
    let v = normalize_quarantine_verdict verdict in
    if str_eq v "" then current_entry_verdict e else v

unfoldable pub star_domain : String ⊎ String → String ⊎ String
star_domain (inl error) = inl error
star_domain (inr name) = inr ("*@" ++ name)

unfoldable pub resolve_found : Option Account → String ⊎ (String × Option ℕ)
resolve_found none = inl "recipient user was not found"
resolve_found (some u) = inr ("user", some u.id)

-- the row that the endpoint's insertBlockEntry looks for, and inserts
unfoldable pub sender_key : Entry → String → Option ℕ → Key
sender_key e scope user = record {
  organization_id = some e.organization_id;
  domain_id = none;
  user_id = user;
  scope = scope;
  kind = email;
}

module _ (w : World) (c : Caller) where
  unfoldable pub resolve_user : Entry → String ⊎ (String × Option ℕ)
  unfolding can_end_user_act can_admin resolve_found find_account
  resolve_user e =
      if str_eq c.role "org_user"
      then (if can_end_user_act c e then inr ("user", some c.user_id) else inl "forbidden")
      else if can_admin c.scope c.role e.organization_id
      then resolve_found (find_account e.organization_id (trim_space e.to_addr) w.accounts)
      else inl "forbidden"

  unfoldable pub resolve_requested : Entry → String → String ⊎ (String × Option ℕ)
  unfolding resolve_user can_admin
  resolve_requested e requested =
      if str_eq requested "org"
      then (if can_admin c.scope c.role e.organization_id
          then inr ("org", none)
          else inl "forbidden")
      else if str_eq requested "user"
      then resolve_user e
      else inl "scope must be org or user"

  -- `resolveBlockScope`
  unfoldable pub resolve_block_scope : Entry → String → String ⊎ (String × Option ℕ)
  unfolding resolve_requested own_scope
  resolve_block_scope e requested =
      resolve_requested e (if str_eq requested "" then own_scope c else requested)

  unfoldable pub named_domain : String → String → String → String ⊎ String
  unfolding is_bad_domain domain_part normalize_sender_domain_for_pattern root_sender_domain
  named_domain match pattern sender =
      let d = domain_part sender in
      if is_bad_domain d
      then inl "sender domain is invalid"
      else if not (str_eq (trim_space pattern) "")
      then normalize_sender_domain_for_pattern w.directory pattern
      else if str_eq match "root_domain"
      then root_sender_domain w d
      else inr d

  unfoldable pub block_pattern : String → String → String → String ⊎ String
  unfolding is_domain_match star_domain named_domain
  block_pattern match pattern sender =
      if is_domain_match match then star_domain (named_domain match pattern sender) else inr sender

  -- from finishSenderBlock on
  unfoldable pub block_stored : ℕ → Entry → String → String → Store → String ⊎ Store → Answer
  unfolding answer or_status finish_sender_block
  block_stored bad e sender verdict db (inl error) = answer bad db
  block_stored bad e sender verdict db (inr m) =
      or_status 500 200 m (finish_sender_block c e sender verdict m)

  unfoldable pub block_scoped :
      Entry → String → String → String → String → Store → String ⊎ (String × Option ℕ) → Answer
  unfolding answer is_domain_match block_stored with_rules upsert_decision insert_block_entry
      sender_key
  block_scoped e sender match verdict pattern db (inl error) = answer 403 db
  block_scoped e sender match verdict pattern db (inr (scope, user)) =
      if is_domain_match match
      then block_stored 409 e sender verdict db (
          with_rules db (
            upsert_decision w.directory w.rule_id w.now
              (if str_eq scope "system" then none else some e.organization_id) none user scope
              "domain" (trim_prefix pattern "*@") "block" db.rules))
      else block_stored 500 e sender verdict db
          (inr (insert_block_entry w (sender_key e scope user) pattern db))

  unfoldable pub block_named :
      Entry → String → String → String → String → Store → String ⊎ String → Answer
  unfolding answer block_scoped resolve_block_scope
  block_named e sender match verdict scope db (inl error) = answer 409 db
  block_named e sender match verdict scope db (inr pattern) =
      block_scoped e sender match verdict pattern db
        (resolve_block_scope e (lower (trim_space scope)))

  unfoldable pub block_from : Entry → Request → String → String → Store → String ⊎ String → Answer
  unfolding answer block_named block_pattern
  block_from e body match verdict db (inl error) = answer 409 db
  block_from e body match verdict db (inr sender) =
      block_named e sender match verdict body.scope db (block_pattern match body.pattern sender)

  unfoldable pub block_entry : Option Request → Entry → Store → Answer
  unfolding answer match_or is_domain_match named_verdict valid_quarantine_verdict block_from
      normalized_sender_address
  block_entry none e db = answer 400 db
  block_entry (some body) e db =
      let match = match_or "sender" body.match in
      let v = named_verdict e body.verdict in
      if not (str_eq match "sender" || is_domain_match match)
      then answer 400 db
      else if not (valid_quarantine_verdict v) || str_eq v "not_spam"
      then answer 400 db
      else block_from e body match v db
          (normalized_sender_address w.directory.platform.parse_address e.from_addr)

  -- `blockSender`, for a body that decodes or not
  unfoldable pub block_sender : Option Request → ℕ → Store → Answer
  unfolding with_entry block_entry find_entry
  block_sender body id db = with_entry w c (block_entry body) db (find_entry id db.entries)

  unfoldable pub allow_domain : Entry → String → Store → String ⊎ String → Answer
  unfolding answer mark_not_spam decide_domain
  allow_domain e sender db (inl error) = answer 409 db
  allow_domain e sender db (inr d) =
      mark_not_spam w c 409 e sender db (decide_domain w c e e.domain_id d "allow" db)

  unfoldable pub allow_from : String → Entry → Store → String ⊎ String → Answer
  unfolding answer allow_domain match_domain
  allow_from match e db (inl error) = answer 409 db
  allow_from match e db (inr sender) = allow_domain e sender db (match_domain w match sender)

  unfoldable pub allow_entry : Option Request → Entry → Store → Answer
  unfolding answer match_or is_domain_match allow_from normalized_sender_address
  allow_entry none e db = answer 400 db
  allow_entry (some body) e db =
      let match = match_or "domain" body.match in
      if is_domain_match match
      then allow_from match e db
          (normalized_sender_address w.directory.platform.parse_address e.from_addr)
      else answer 400 db

  -- `allowSender`, for a body that decodes or not
  unfoldable pub allow_sender : Option Request → ℕ → Store → Answer
  unfolding with_entry allow_entry find_entry
  allow_sender body id db = with_entry w c (allow_entry body) db (find_entry id db.entries)

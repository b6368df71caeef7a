-- ===== src/SenderList/Rules.antt =====
-- internal/senderlists/senderlists.go: how a rule is written. The table list_entries is a list of
-- rows; database errors are left out.
pub mod Effects
pub mod Blocks
pub mod Tests
use Prim.Native.String.{◌++◌}
use sentinel_mail_gateway.Prelude.{
  ℕ, String, Bool, true, false, not, ◌&&◌, ◌||◌, Option, none, some, List, [], ◌∷◌, any, keep, ◌==◌,
  str_eq, if◌then◌else◌, ◌⊎◌, inl, inr,
}
use sentinel_mail_gateway.Strings.{lower, trim_space, trim_prefix, contains, contains_any}
use sentinel_mail_gateway.Platform.{Platform}
use sentinel_mail_gateway.SenderList.{domain_part, is_sender_domain}
use sentinel_mail_gateway.SenderList.Query.{
  ListEntry, ListAction, allow, block, ListKind, email, domain, ip, is_block,
}

-- a row with what the lookup does not read
pub record Rule : Type 0 where
  pub id : ℕ
  pub scope : String
  pub entry : ListEntry

-- the columns that a decision is for
pub record Key : Type 0 where
  pub organization_id : Option ℕ
  pub domain_id : Option ℕ
  pub user_id : Option ℕ
  pub scope : String
  pub kind : ListKind

-- IS NOT DISTINCT FROM
unfoldable pub same_id : Option ℕ → Option ℕ → Bool
same_id none none = true
same_id (some a) (some b) = a == b
same_id none (some b) = false
same_id (some a) none = false

unfoldable pub same_kind : ListKind → ListKind → Bool
same_kind email email = true
same_kind domain domain = true
same_kind ip ip = true
same_kind _ _ = false

-- the WHERE clause of the DELETE
unfoldable pub has_key : Key → String → Rule → Bool
unfolding same_id same_kind
has_key k pattern r =
    same_id r.entry.organization_id k.organization_id
    && (same_id r.entry.domain_id k.domain_id
        && (same_id r.entry.user_id k.user_id
            && (str_eq r.scope k.scope
                && (same_kind r.entry.kind k.kind
                    && str_eq (lower r.entry.pattern) (lower pattern)))))

-- the row that INSERT adds, with the id and the time that the database gives
unfoldable pub rule_of : ℕ → ℕ → Key → ListAction → String → Rule
rule_of id now k action pattern = record {
  id = id;
  scope = k.scope;
  entry = record {
    organization_id = k.organization_id;
    domain_id = k.domain_id;
    user_id = k.user_id;
    action = action;
    kind = k.kind;
    pattern = pattern;
    created_at = now;
  };
}

-- DELETE, then INSERT
unfoldable pub replace_rule : ℕ → ℕ → Key → ListAction → String → List Rule → List Rule
unfolding has_key rule_of
replace_rule id now k action pattern rules =
    rule_of id now k action pattern ∷ keep (λ r. not (has_key k pattern r)) rules

unfoldable pub action_of : String → Option ListAction
action_of s = if str_eq s "allow" then some allow else if str_eq s "block" then some block else none

unfoldable pub kind_of : String → Option ListKind
kind_of s =
    if str_eq s "email"
    then some email
    else if str_eq s "domain"
    then some domain
    else if str_eq s "ip"
    then some ip
    else none

-- what the functions read besides their arguments: the parsers, the normal form of an address or
-- a CIDR prefix (`netip`), and the names of the domains table
pub record Directory : Type 0 where
  pub platform : Platform
  pub masked_prefix : String → Option String
  pub domain_names : List String

-- the address of ParseAddress, where there is one
unfoldable pub parsed_or : Option String → String → String
parsed_or none value = value
parsed_or (some addr) value = if str_eq addr "" then value else domain_part addr

unfoldable pub strip_pattern : String → String
strip_pattern value = trim_prefix (trim_prefix (lower (trim_space value)) "*@") "@"

-- `NormalizeSenderDomain`
unfoldable pub normalize_sender_domain : Directory → String → String ⊎ String
unfolding strip_pattern parsed_or is_sender_domain
normalize_sender_domain dir value =
    let stripped = strip_pattern value in
    let name = parsed_or (dir.platform.parse_address stripped) stripped in
    if contains name "://" || contains_any name ("/" ∷ "\\" ∷ [])
    then inl "sender domain must be a domain name, not a URL or path"
    else if not (is_sender_domain name)
    then inl "sender domain is invalid"
    else inr name

-- `NormalizeSenderDomainForPattern`
unfoldable pub normalize_sender_domain_for_pattern : Directory → String → String ⊎ String
unfolding normalize_sender_domain strip_pattern
normalize_sender_domain_for_pattern dir value =
    if contains (strip_pattern value) "@"
    then inl "sender domain pattern must be a domain or *@domain"
    else normalize_sender_domain dir (strip_pattern value)

unfoldable pub with_star : String ⊎ String → String ⊎ String
with_star (inl error) = inl error
with_star (inr name) = inr ("*@" ++ name)

unfoldable pub email_pattern : Option String → String ⊎ String
email_pattern none = inl "sender email is invalid"
email_pattern (some addr) =
    if str_eq addr "" || not (contains addr "@")
    then inl "sender email is invalid"
    else inr (lower addr)

unfoldable pub ip_pattern : Option String → String ⊎ String
ip_pattern none = inl "source IP or CIDR is invalid"
ip_pattern (some prefix) = inr prefix

-- `NormalizeRule`, for a kind that is known
unfoldable pub normalize_rule : Directory → ListKind → String → String ⊎ String
unfolding normalize_sender_domain_for_pattern with_star email_pattern ip_pattern
normalize_rule dir domain value = with_star (normalize_sender_domain_for_pattern dir value)
normalize_rule dir email value = email_pattern (dir.platform.parse_address (trim_space value))
normalize_rule dir ip value = ip_pattern (dir.masked_prefix (trim_space value))

-- `isConfiguredProtectedDomain`
unfoldable pub is_configured_protected_domain : Directory → String → Bool
is_configured_protected_domain dir sender_domain =
    let name = lower (trim_space sender_domain) in
    not (str_eq name "") && any (λ d. str_eq (lower d) name) dir.domain_names

-- the ids that a scope keeps
unfoldable pub key_of : String → ListKind → Option ℕ → Option ℕ → Option ℕ → Key
key_of scope kind org dom user = record {
  organization_id = if str_eq scope "system" then none else org;
  domain_id = if str_eq scope "domain" then dom else none;
  user_id = if str_eq scope "user" then user else none;
  scope = scope;
  kind = kind;
}

unfoldable pub is_missing : Option ℕ → Bool
is_missing none = true
is_missing (some _) = false

unfoldable pub is_ip : ListKind → Bool
is_ip ip = true
is_ip _ = false

unfoldable pub is_domain : ListKind → Bool
is_domain domain = true
is_domain _ = false

-- the tests of UpsertDecision behind those of its words, in order: an error or none
unfoldable pub check_ids :
    String → ListKind → ListAction → Option ℕ → Option ℕ → Option ℕ → Option String
unfolding is_missing is_ip
check_ids scope kind action org dom user =
    if is_ip kind && not (is_block action)
    then some "IP rules are block-only"
    else if not (str_eq scope "system") && is_missing org
    then some "organization_id is required"
    else if str_eq scope "domain" && is_missing dom
    then some "domain_id is required for domain scope"
    else if str_eq scope "user" && is_missing user
    then some "user_id is required for user scope"
    else none

unfoldable pub is_scope : String → Bool
is_scope scope = any (str_eq scope) ("system" ∷ "org" ∷ "domain" ∷ "user" ∷ [])

module _ (dir : Directory) (id now : ℕ) where
  -- from the test of protected domains on, for the pattern of NormalizeRule
  unfoldable pub store_pattern :
      Key → ListAction → String ⊎ String → List Rule → String ⊎ (String × List Rule)
  unfolding replace_rule is_configured_protected_domain is_domain
  store_pattern k action (inl error) rules = inl error
  store_pattern k action (inr pattern) rules =
      if (is_block action && is_domain k.kind)
        && is_configured_protected_domain dir (trim_prefix pattern "*@")
      then inl "cannot block configured protected domain"
      else inr (pattern, replace_rule id now k action pattern rules)

  unfoldable pub decide_checked :
      Option String → Key → ListAction → String → List Rule → String ⊎ (String × List Rule)
  unfolding store_pattern normalize_rule
  decide_checked (some error) k action value rules = inl error
  decide_checked none k action value rules =
      store_pattern k action (normalize_rule dir k.kind value) rules

  unfoldable pub decide_words :
      Option ℕ
      → Option ℕ
      → Option ℕ
      → String
      → Option ListKind
      → Option ListAction
      → String
      → List Rule
      → String ⊎ (String × List Rule)
  unfolding decide_checked check_ids key_of
  decide_words org dom user scope none action value rules = inl "kind must be email, domain, or ip"
  decide_words org dom user scope (some kind) none value rules = inl "action must be allow or block"
  decide_words org dom user scope (some kind) (some action) value rules =
      decide_checked (check_ids scope kind action org dom user) (key_of scope kind org dom user)
        action value rules

  -- `UpsertDecision`: the error, or the pattern and the table
  unfoldable pub upsert_decision :
      Option ℕ
      → Option ℕ
      → Option ℕ
      → String
      → String
      → String
      → String
      → List Rule
      → String ⊎ (String × List Rule)
  unfolding decide_words is_scope kind_of action_of
  upsert_decision org dom user scope kind value action rules =
      let scope' = lower (trim_space scope) in
      if not (is_scope scope')
      then inl "scope must be system, org, domain, or user"
      else decide_words org dom user scope' (kind_of (lower (trim_space kind)))
          (action_of (lower (trim_space action))) value rules

-- `UpsertUserDecision`, for the id of an active user of the organization with the recipient's
-- address, if there is one that the caller has named; `action` is allow or block
unfoldable pub user_key : ℕ → Option ℕ → ℕ → Key
user_key org dom user = record {
  organization_id = some org;
  domain_id = dom;
  user_id = some user;
  scope = "user";
  kind = email;
}

-- a row of users, as the sender lists read it
pub record Account : Type 0 where
  pub id : ℕ
  pub organization_id : ℕ
  pub email : String
  pub is_active : Bool

unfoldable pub is_recipient : ℕ → ℕ → String → Account → Bool
is_recipient user org recipient u =
    u.id == user && (u.organization_id == org && (u.is_active && str_eq (lower u.email) recipient))

unfoldable pub upsert_user_decision :
    (String → String)
    → List Account
    → ℕ
    → ℕ
    → ℕ
    → Option ℕ
    → ℕ
    → String
    → String
    → ListAction
    → List Rule
    → String ⊎ List Rule
unfolding user_key is_recipient replace_rule
upsert_user_decision normalize accounts id now org dom user recipient from_addr action rules =
    let recipient' = lower (trim_space recipient) in
    let from = normalize from_addr in
    if str_eq recipient' "" || str_eq from ""
    then inl "recipient and sender are required"
    else if not (any (is_recipient user org recipient') accounts)
    then inl "recipient user was not found"
    else inr (replace_rule id now (user_key org dom user) action from rules)

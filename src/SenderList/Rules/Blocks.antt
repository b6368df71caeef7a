-- ===== src/SenderList/Rules/Blocks.antt =====
-- What is looked up after a decision.
use sentinel_mail_gateway.Prelude.{
  ℕ, String, true, false, ◌&&◌, Option, some, List, ◌∷◌, any, map, ◌≡◌, refl, ap, ◌∙◌, subst, arith,
  str_eq, ◌⊎◌, inl, inr, Bool-cases,
}
use sentinel_mail_gateway.Strings.{lower, trim_space, trim_prefix}
use sentinel_mail_gateway.SenderList.Query.{
  Recipient, ListEntry, ListAction, block, domain, is_block, selects, selects_block,
  lookup_sender_list_address,
}
use sentinel_mail_gateway.SenderList.Laws.{blocks, lookup_sender_list_address-blocks}
use sentinel_mail_gateway.SenderList.Rules.{
  Rule, Key, Directory, rule_of, replace_rule, normalize_rule, is_configured_protected_domain,
  is_domain, key_of, check_ids, store_pattern, decide_checked, decide_words, upsert_decision,
}

-- the columns that the lookup reads
abbrev pub entries : List Rule → List ListEntry
entries rules = map (λ (r : Rule). r.entry) rules

-- an organization's decision on a domain, behind the tests
module _ (dir : Directory) (id now : ℕ) (org : ℕ) (dom user : Option ℕ) (rules : List Rule) where
  abbrev pub org_key : Key
  org_key = key_of "org" domain (some org) dom user

  abbrev Stores : ListAction → String ⊎ (String × List Rule) → Type 0
  Stores action (inl error) = Unit
  Stores action (inr (pattern, stored)) =
      (stored ≡ replace_rule id now org_key action pattern rules)
      × ((is_block action && is_configured_protected_domain dir (trim_prefix pattern "*@")) ≡ false)

  store_pattern-Stores :
      (action : ListAction) (normal : String ⊎ String)
      → Stores action (store_pattern dir id now org_key action normal rules)
  unfolding store_pattern key_of is_domain
  store_pattern-Stores action (inl error) = tt
  store_pattern-Stores action (inr pattern) =
      elim (Bool-cases (
        (is_block action && true)
        && is_configured_protected_domain dir (trim_prefix pattern "*@"))) [
          | inl e ↦ rw e tt
          | inr e ↦ rw e (refl, ground (arith, e))
        ]

  decision-Stores :
      (value : String)
      → Stores block
          (upsert_decision dir id now (some org) dom user "org" "domain" value "block" rules)
  unfolding upsert_decision decide_words decide_checked check_ids lower trim_space
  decision-Stores value = store_pattern-Stores block (normalize_rule dir domain value)

  -- An organization's decision to block a domain is never accepted for a domain that the gateway
  -- itself serves.
  pub upsert_decision-not_protected :
      (value pattern : String) (stored : List Rule)
      → upsert_decision dir id now (some org) dom user "org" "domain" value "block" rules
        ≡ inr (pattern, stored)
      → is_configured_protected_domain dir (trim_prefix pattern "*@") ≡ false
  upsert_decision-not_protected value pattern stored e =
      (subst (Stores block) e (decision-Stores value)).1

  selects_block-org :
      (r : Recipient) (patterns : List String) (pattern : String)
      → r.organization_id ≡ org
      → any (str_eq (lower pattern)) patterns ≡ true
      → selects_block r patterns (rule_of id now org_key block pattern).entry ≡ true
  unfolding selects_block selects rule_of key_of
  selects_block-org r patterns pattern e h = ground (arith, h)

  -- After an organization's decision to block a domain, an address of the organization's mail that
  -- has the stored pattern among its own is blocked, whatever the table held before.
  pub upsert_decision-blocks :
      (r : Recipient) (p : String) (patterns : List String) (value pattern : String)
      (stored : List Rule)
      → upsert_decision dir id now (some org) dom user "org" "domain" value "block" rules
        ≡ inr (pattern, stored)
      → r.organization_id ≡ org
      → any (str_eq (lower pattern)) (p ∷ patterns) ≡ true
      → blocks (lookup_sender_list_address r (entries stored) (p ∷ patterns)) ≡ true
  unfolding replace_rule
  upsert_decision-blocks r p patterns value pattern stored e own h =
      let same_rules = (subst (Stores block) e (decision-Stores value)).0 in
      lookup_sender_list_address-blocks r (entries stored) p patterns
      ∙ ap (λ rs. any (selects_block r (p ∷ patterns)) (entries rs)) same_rules
      ∙ rw (selects_block-org r (p ∷ patterns) pattern own h) refl

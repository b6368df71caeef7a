-- ===== src/SenderList/Rules/Effects.antt =====
-- What a decision leaves in the table of rules.
use sentinel_mail_gateway.Prelude.{
  ℕ, ◌≤◌, String, Bool, true, false, not, ◌&&◌, Option, none, some, List, [], ◌∷◌, keep, length,
  ==_iff, ◌≡◌, refl, sym, ap, ◌∙◌, subst, arith, str_eq_iff, ◌⊎◌, inl, inr, Bool-cases,
}
use sentinel_mail_gateway.Strings.{lower, trim_space, trim_prefix}
use sentinel_mail_gateway.SenderList.Query.{ListAction, ListKind, email, domain, ip, is_block}
use sentinel_mail_gateway.SenderList.Rules.{
  Rule, Key, Directory, same_id, same_kind, has_key, rule_of, replace_rule, kind_of, action_of,
  normalize_rule, is_configured_protected_domain, is_domain, key_of, check_ids, is_scope,
  store_pattern, decide_checked, decide_words, upsert_decision,
}

-- no two rows are for the same columns and, up to case, the same pattern
abbrev pub IsUnique : List Rule → Type 0
IsUnique rules = (k : Key) (pattern : String) → length (keep (has_key k pattern) rules) ≤ 1

same_id-eq : (a b : Option ℕ) → same_id a b ≡ true → a ≡ b
unfolding same_id
same_id-eq none none h = refl
same_id-eq (some a) (some b) h = ap some ((==_iff a b).0 h)
same_id-eq none (some b) h = absurd (ground (arith, h))
same_id-eq (some a) none h = absurd (ground (arith, h))

same_kind-eq : (a b : ListKind) → same_kind a b ≡ true → a ≡ b
unfolding same_kind
same_kind-eq email email h = refl
same_kind-eq domain domain h = refl
same_kind-eq ip ip h = refl
same_kind-eq email domain h = absurd (ground (arith, h))
same_kind-eq email ip h = absurd (ground (arith, h))
same_kind-eq domain email h = absurd (ground (arith, h))
same_kind-eq domain ip h = absurd (ground (arith, h))
same_kind-eq ip email h = absurd (ground (arith, h))
same_kind-eq ip domain h = absurd (ground (arith, h))

-- a key that the new row has is the row's own
has_key-rule_of :
    (id now : ℕ) (k l : Key) (action : ListAction) (p q : String) (r : Rule)
    → has_key l q (rule_of id now k action p) ≡ true
    → has_key l q r ≡ has_key k p r
unfolding has_key rule_of
has_key-rule_of id now k l action p q r h =
    let org = same_id-eq k.organization_id l.organization_id (ground (arith, h)) in
    let dom = same_id-eq k.domain_id l.domain_id (ground (arith, h)) in
    let user = same_id-eq k.user_id l.user_id (ground (arith, h)) in
    let scope = (str_eq_iff k.scope l.scope).0 (ground (arith, h)) in
    let kind = same_kind-eq k.kind l.kind (ground (arith, h)) in
    let pattern = (str_eq_iff (lower p) (lower q)).0 (ground (arith, h)) in
    rw (org, dom, user, scope, kind, pattern) refl

module _ (f g : Rule → Bool) where
  length-keep-keep : (rules : List Rule) → length (keep f (keep g rules)) ≤ length (keep f rules)
  length-keep-keep [] = omega arith
  length-keep-keep (r ∷ rs) = ground (arith, length-keep-keep rs)

  keep-nothing :
      ((r : Rule) → f r ≡ true → g r ≡ false) → (rules : List Rule) → keep f (keep g rules) ≡ []
  keep-nothing h [] = refl
  keep-nothing h (r ∷ rs) = ground (arith, h r, keep-nothing h rs)

replace_rule-IsUnique :
    (id now : ℕ) (k : Key) (action : ListAction) (pattern : String) (rules : List Rule)
    → IsUnique rules
    → IsUnique (replace_rule id now k action pattern rules)
unfolding replace_rule
replace_rule-IsUnique id now k action pattern rules unique l q =
    let new = rule_of id now k action pattern in
    let other : Rule → Bool = λ r. not (has_key k pattern r) in
    elim (Bool-cases (has_key l q new)) [
      | inl e ↦
          let gone =
            keep-nothing (has_key l q) other
              (λ r h. ap not (sym (has_key-rule_of id now k l action pattern q r e) ∙ h)) rules in
          rw e (rw gone (omega arith))
      | inr e ↦ rw e (omega (arith, unique l q, length-keep-keep (has_key l q) other rules))
    ]

-- what a decision that was accepted has stored
abbrev IsStored : Directory → ℕ → ℕ → List Rule → String ⊎ (String × List Rule) → Type 0
IsStored dir id now rules (inl error) = Unit
IsStored dir id now rules (inr (pattern, stored)) =
    (k : Key) × (action : ListAction) × (stored ≡ replace_rule id now k action pattern rules)
    × ((is_block action && is_domain k.kind)
          && is_configured_protected_domain dir (trim_prefix pattern "*@")
        ≡ false)

module _ (dir : Directory) (id now : ℕ) (rules : List Rule) where
  store_pattern-IsStored :
      (k : Key) (action : ListAction) (normal : String ⊎ String)
      → IsStored dir id now rules (store_pattern dir id now k action normal rules)
  unfolding store_pattern
  store_pattern-IsStored k action (inl error) = tt
  store_pattern-IsStored k action (inr pattern) =
      elim (Bool-cases (
        (is_block action && is_domain k.kind)
        && is_configured_protected_domain dir (trim_prefix pattern "*@"))) [
          | inl e ↦ rw e tt
          | inr e ↦ rw e (k, action, refl, e)
        ]

  decide_checked-IsStored :
      (error : Option String) (k : Key) (action : ListAction) (value : String)
      → IsStored dir id now rules (decide_checked dir id now error k action value rules)
  unfolding decide_checked
  decide_checked-IsStored (some error) k action value = tt
  decide_checked-IsStored none k action value =
      store_pattern-IsStored k action (normalize_rule dir k.kind value)

  decide_words-IsStored :
      (org dom user : Option ℕ) (scope : String) (kind : Option ListKind)
      (action : Option ListAction) (value : String)
      → IsStored dir id now rules
          (decide_words dir id now org dom user scope kind action value rules)
  unfolding decide_words
  decide_words-IsStored org dom user scope none action value = tt
  decide_words-IsStored org dom user scope (some kind) none value = tt
  decide_words-IsStored org dom user scope (some kind) (some action) value =
      decide_checked-IsStored (check_ids scope kind action org dom user)
        (key_of scope kind org dom user) action value

  upsert_decision-IsStored :
      (org dom user : Option ℕ) (scope kind value action : String)
      → IsStored dir id now rules
          (upsert_decision dir id now org dom user scope kind value action rules)
  unfolding upsert_decision
  upsert_decision-IsStored org dom user scope kind value action =
      elim (Bool-cases (is_scope (lower (trim_space scope)))) [
        | inr e ↦ rw e tt
        | inl e ↦ rw e (
            decide_words-IsStored org dom user (lower (trim_space scope))
              (kind_of (lower (trim_space kind))) (action_of (lower (trim_space action))) value)
      ]

  -- A decision that is accepted keeps the table without two rules for the same organization,
  -- domain, user, scope and kind and, up to case, the same pattern.
  pub upsert_decision-IsUnique :
      (org dom user : Option ℕ) (scope kind value action pattern : String) (stored : List Rule)
      → upsert_decision dir id now org dom user scope kind value action rules
        ≡ inr (pattern, stored)
      → IsUnique rules
      → IsUnique stored
  upsert_decision-IsUnique org dom user scope kind value action pattern stored e unique =
      let (k, a, same_rules, _) =
        subst (IsStored dir id now rules) e
          (upsert_decision-IsStored org dom user scope kind value action) in
      subst IsUnique (sym same_rules) (replace_rule-IsUnique id now k a pattern rules unique)

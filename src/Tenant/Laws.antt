-- ===== src/Tenant/Laws.antt =====
-- A caller's reach and the tree of organizations.
use mathlib.Core.List.{Memᴰ}
use sentinel_mail_gateway.Prelude.{
  ℕ, zero, suc, Bool, true, false, ◌||◌, ◌≡◌, inl, inr, refl, sym, subst, arith, some, List, [],
  ◌∷◌, any, ◌==◌, ==_iff, str_eq, All, All-append, All-imp, Bool-cases, Option-cases, if◌then◌else◌,
}
use sentinel_mail_gateway.Policy.Resolve.{Organization}
use sentinel_mail_gateway.Tenant.{Identity, allows, can_admin, children, tree, scope_for_identity}

-- The organizations at or below `root`: each but the first has a row with its parent.
pub data IsBelow (orgs : List Organization) (root : ℕ) : ℕ → Type 0 where
  same : IsBelow orgs root root
  child :
      (o : Organization) (parent : ℕ)
      → Memᴰ o orgs
      → o.parent_id ≡ some parent
      → IsBelow orgs root parent
      → IsBelow orgs root o.id

module _ (orgs : List Organization) (root : ℕ) where
  member-IsBelow :
      (level : List ℕ) (n : ℕ)
      → All (IsBelow orgs root) level
      → any (λ l. l == n) level ≡ true
      → IsBelow orgs root n
  member-IsBelow [] n h m = absurd (ground arith)
  member-IsBelow (l ∷ level) n (h, hs) m = elim (Bool-cases (l == n)) [
    | inl e ↦ subst (IsBelow orgs root) ((==_iff l n).0 e) h
    | inr e ↦ member-IsBelow level n hs (ground arith)
  ]

  -- `some_orgs` is a part of the table
  children-IsBelow :
      (level : List ℕ) (some_orgs : List Organization)
      → All (IsBelow orgs root) level
      → All (λ (o : Organization). Memᴰ o orgs) some_orgs
      → All (IsBelow orgs root) (children level some_orgs)
  unfolding children
  children-IsBelow level [] h m = tt
  children-IsBelow level (o ∷ os) h (m, ms) = elim (Option-cases o.parent_id) [
    | inl e ↦ rw (e, children) (children-IsBelow level os h ms)
    | inr (parent, e) ↦ elim (Bool-cases (any (λ l. l == parent) level)) [
      | inl b ↦
          rw (e, children, b)
            (child o parent m e (member-IsBelow level parent h b), children-IsBelow level os h ms)
      | inr b ↦ rw (e, children, b) (children-IsBelow level os h ms)
    ]
  ]

  tree-IsBelow :
      (depth : ℕ) (level : List ℕ)
      → All (IsBelow orgs root) level
      → All (λ (o : Organization). Memᴰ o orgs) orgs
      → All (IsBelow orgs root) (tree depth orgs level)
  unfolding tree
  tree-IsBelow zero level h m = tt
  tree-IsBelow (suc depth) level h m =
      All-append (IsBelow orgs root) level (tree depth orgs (children level orgs)) h
        (tree-IsBelow depth (children level orgs) (children-IsBelow level orgs h m) m)

All-Mem : (orgs : List Organization) → All (λ (o : Organization). Memᴰ o orgs) orgs
All-Mem [] = tt
All-Mem (o ∷ orgs) = (
  Memᴰ.head refl,
  All-imp (λ p. Memᴰ p orgs) (λ p. Memᴰ p (o ∷ orgs)) (λ p m. Memᴰ.tail m) orgs (All-Mem orgs),
)

root-IsBelow :
    (orgs : List Organization) (root : ℕ) (found : Bool)
    → All (IsBelow orgs root) (if found then root ∷ [] else [])
root-IsBelow orgs root true = (same, tt)
root-IsBelow orgs root false = tt

no_super :
    (depth : ℕ) (orgs : List Organization) (ident : Identity)
    → str_eq ident.role "super_admin" ≡ false
    → (scope_for_identity depth orgs ident).is_super_admin ≡ false
unfolding scope_for_identity
no_super depth orgs ident role = ground arith

-- A caller who is no super administrator is allowed only organizations in the tree below the
-- caller's own, however deep the query goes.
pub allows-IsBelow :
    (depth : ℕ) (orgs : List Organization) (ident : Identity) (id : ℕ)
    → str_eq ident.role "super_admin" ≡ false
    → allows (scope_for_identity depth orgs ident) id ≡ true
    → IsBelow orgs ident.organization_id id
unfolding allows scope_for_identity
allows-IsBelow depth orgs ident id role a =
    let root = ident.organization_id in
    let found = any (λ (o : Organization). o.id == root) orgs in
    let start = if found then root ∷ [] else [] in
    let below = tree-IsBelow orgs root depth start (root-IsBelow orgs root found) (All-Mem orgs) in
    elim (Bool-cases (any (λ v. v == id) (tree depth orgs start))) [
      | inl m ↦ member-IsBelow orgs root (tree depth orgs start) id below m
      | inr m ↦
          let own : id ≡ root = (==_iff id root).0 (ground arith) in
          subst (IsBelow orgs root) (sym own) same
    ]

-- A caller who is no super administrator administers only organizations in the tree below the
-- caller's own, and only as msp_admin or org_admin.
pub can_admin-IsBelow :
    (depth : ℕ) (orgs : List Organization) (ident : Identity) (id : ℕ)
    → str_eq ident.role "super_admin" ≡ false
    → can_admin (scope_for_identity depth orgs ident) ident.role id ≡ true
    → ((str_eq ident.role "msp_admin" || str_eq ident.role "org_admin") ≡ true)
      × IsBelow orgs ident.organization_id id
unfolding can_admin
can_admin-IsBelow depth orgs ident id role a = (
  ground (arith, no_super depth orgs ident role),
  allows-IsBelow depth orgs ident id role (ground (arith, no_super depth orgs ident role)),
)

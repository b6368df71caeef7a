-- ===== src/Tenant/Reach.antt =====
-- Which organizations below the caller's are in reach.
use mathlib.Core.List.{Memᴰ}
use sentinel_mail_gateway.Prelude.{
  ℕ, zero, suc, Bool, true, ◌≡◌, refl, sym, arith, some, List, [], ◌∷◌, any, any-append, ◌==◌,
  ==_iff,
}
use sentinel_mail_gateway.Policy.Resolve.{Organization}
use sentinel_mail_gateway.Tenant.{children, tree}
use sentinel_mail_gateway.Tenant.Laws.{IsBelow}

abbrev pub has : ℕ → List ℕ → Bool
has id ids = any (λ v. v == id) ids

module _ (orgs : List Organization) where
  has-children :
      (o : Organization) (parent : ℕ) (level : List ℕ) (some_orgs : List Organization)
      → Memᴰ o some_orgs
      → o.parent_id ≡ some parent
      → has parent level ≡ true
      → has o.id (children level some_orgs) ≡ true
  unfolding children
  has-children o parent level [] m up h = elim m [ ]
  has-children o parent level (p ∷ os) (Memᴰ.head e) up h =
      rw (sym e, up, children) (ground (arith, (==_iff o.id o.id).1 refl))
  has-children o parent level (p ∷ os) (Memᴰ.tail m) up h =
      ground (arith, has-children o parent level os m up h)

  has-tree :
      (o : Organization) (parent depth : ℕ) (level : List ℕ)
      → Memᴰ o orgs
      → o.parent_id ≡ some parent
      → has parent (tree depth orgs level) ≡ true
      → has o.id (tree (suc depth) orgs level) ≡ true
  unfolding tree
  has-tree o parent zero level m up h = absurd (ground arith)
  has-tree o parent (suc depth) level m up h =
      let below = children level orgs in
      let here = any-append (λ v. v == parent) level (tree depth orgs below) in
      let there = any-append (λ v. v == o.id) level (tree (suc depth) orgs below) in
      let next = any-append (λ v. v == o.id) below (tree depth orgs (children below orgs)) in
      ground (
        arith,
        here,
        there,
        next,
        has-children o parent level orgs m up,
        has-tree o parent depth below m up,
      )

  -- Every organization in the tree below a root is visible from it, if the query goes deep enough.
  pub IsBelow-visible :
      {root id : ℕ}
      → IsBelow orgs root id
      → (depth : ℕ) × (has id (tree depth orgs (root ∷ [])) ≡ true)
  unfolding tree
  IsBelow-visible {root} IsBelow.same = (1, ground (arith, (==_iff root root).1 refl))
  IsBelow-visible {root} (IsBelow.child o parent m up b) =
      let (depth, h) = IsBelow-visible b in (suc depth, has-tree o parent depth (root ∷ []) m up h)

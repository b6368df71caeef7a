-- ===== src/Tenant.antt =====
-- internal/tenant/scope.go: which organizations a caller may read and administer. The recursive
-- query goes down the tree level by level; a database error is not modelled.
pub mod Laws
pub mod Reach
pub mod Tests
use sentinel_mail_gateway.Prelude.{
  ℕ, zero, suc, String, Bool, true, false, not, ◌&&◌, ◌||◌, Option, none, some, List, [], ◌∷◌, ◌++◌,
  any, ◌==◌, str_eq, if◌then◌else◌,
}
use sentinel_mail_gateway.Policy.Resolve.{Organization}

-- what the scope reads of auth.Identity
pub record Identity : Type 0 where
  pub organization_id : ℕ
  pub role : String

pub record Scope : Type 0 where
  pub is_super_admin : Bool
  pub org_id : ℕ
  pub visible_org_ids : List ℕ

unfoldable pub allows : Scope → ℕ → Bool
allows s id = s.is_super_admin || (any (λ v. v == id) s.visible_org_ids || id == s.org_id)

unfoldable pub can_admin : Scope → String → ℕ → Bool
unfolding allows
can_admin s role id =
    if s.is_super_admin
    then true
    else if not (allows s id)
    then false
    else str_eq role "super_admin" || (str_eq role "msp_admin" || str_eq role "org_admin")

abbrev is_child : List ℕ → Option ℕ → Bool
is_child level none = false
is_child level (some parent) = any (λ l. l == parent) level

-- the ids of the organizations whose parent is on a level
unfoldable pub children : List ℕ → List Organization → List ℕ
children level [] = []
children level (o ∷ os) =
    let rest = children level os in if is_child level o.parent_id then o.id ∷ rest else rest

-- the recursive query `tree`, down to a depth
unfoldable pub tree : ℕ → List Organization → List ℕ → List ℕ
unfolding children
tree zero orgs level = []
tree (suc n) orgs level = level ++ tree n orgs (children level orgs)

unfoldable pub scope_for_identity : ℕ → List Organization → Identity → Scope
unfolding tree
scope_for_identity depth orgs ident =
    let root =
      if any (λ (o : Organization). o.id == ident.organization_id) orgs
      then ident.organization_id ∷ []
      else [] in
    if str_eq ident.role "super_admin"
    then record { is_super_admin = true; org_id = ident.organization_id; visible_org_ids = [] }
    else record {
      is_super_admin = false;
      org_id = ident.organization_id;
      visible_org_ids = tree depth orgs root;
    }

-- ===== src/Policy/Resolve/Tests.antt =====
-- A domain in a small tree of organizations.
use sentinel_mail_gateway.Prelude.{ℕ, ◌<◌, ◌≡◌, refl, arith, none, some, List, [], ◌∷◌}
use sentinel_mail_gateway.Samples.{common_policy}
use sentinel_mail_gateway.Policy.{Policy}
use sentinel_mail_gateway.Policy.Resolve.{
  Organization, of_organization, row_for, ancestors, resolve,
}
use sentinel_mail_gateway.Policy.Resolve.Laws.{IsNewest, resolve-of_organization}

-- 1 is above 2, and 2 above 3
abbrev organizations : List Organization
organizations =
    record { id = 1; parent_id = none }
    ∷ record { id = 2; parent_id = some 1 }
    ∷ record { id = 3; parent_id = some 2 }
    ∷ []

abbrev strict_policy : Policy
strict_policy = record common_policy { id = 2; domain_id = some 7; updated_at = 5 }

-- the policies of organization 1 and of domain 7
abbrev policies : List Policy
policies = common_policy ∷ strict_policy ∷ []

test_ancestors : ancestors 3 organizations 3 ≡ 3 ∷ 2 ∷ 1 ∷ []
unfolding ancestors
test_ancestors = refl

resolve-of_organization_example :
    IsNewest (of_organization 1) policies (resolve 3 organizations policies (some 8) (some 3))
resolve-of_organization_example =
    resolve-of_organization 3 organizations policies 8 3 (3 ∷ 2 ∷ []) 1 [] refl test_ancestors
      (refl, (refl, tt)) refl

-- parents were created before their children
abbrev created : ℕ → ℕ
created id = id

test_created :
    (id parent : ℕ) (o : Organization)
    → row_for id organizations ≡ some o
    → o.parent_id ≡ some parent
    → created parent < created id
unfolding row_for
test_created id parent o e e' = ground arith

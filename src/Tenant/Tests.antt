-- ===== src/Tenant/Tests.antt =====
-- A reseller with two customers.
use mathlib.Core.List.{Memᴰ}
use sentinel_mail_gateway.Prelude.{true, false, ◌||◌, ◌≡◌, refl, none, some, List, [], ◌∷◌, str_eq}
use sentinel_mail_gateway.Policy.Resolve.{Organization}
use sentinel_mail_gateway.Tenant.{Identity, allows, can_admin, scope_for_identity}
use sentinel_mail_gateway.Tenant.Laws.{IsBelow, can_admin-IsBelow}

abbrev root_row : Organization
root_row = record { id = 1; parent_id = none }

abbrev customer_row : Organization
customer_row = record { id = 2; parent_id = some 1 }

abbrev other_row : Organization
other_row = record { id = 3; parent_id = none }

abbrev rows : List Organization
rows = root_row ∷ customer_row ∷ other_row ∷ []

abbrev reseller : Identity
reseller = record { organization_id = 1; role = "msp_admin" }

test_allowed : allows (scope_for_identity 3 rows reseller) 2 ≡ true
unfolding allows scope_for_identity
test_allowed = refl

test_not_allowed : allows (scope_for_identity 3 rows reseller) 3 ≡ false
unfolding allows scope_for_identity
test_not_allowed = refl

test_can_admin : can_admin (scope_for_identity 3 rows reseller) reseller.role 2 ≡ true
unfolding can_admin scope_for_identity
test_can_admin = refl

can_admin-IsBelow_example :
    ((str_eq "msp_admin" "msp_admin" || str_eq "msp_admin" "org_admin") ≡ true) × IsBelow rows 1 2
can_admin-IsBelow_example = can_admin-IsBelow 3 rows reseller 2 refl test_can_admin

customer_below : IsBelow rows 1 2
customer_below = IsBelow.child customer_row 1 (Memᴰ.tail (Memᴰ.head refl)) refl IsBelow.same

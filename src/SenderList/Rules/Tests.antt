-- ===== src/SenderList/Rules/Tests.antt =====
-- Decisions on a small table.
use sentinel_mail_gateway.Prelude.{
  ℕ, true, false, ◌≡◌, refl, arith, Option, none, some, [], ◌∷◌, inl, inr,
}
use sentinel_mail_gateway.Strings.{lower, trim_space, trim_prefix, contains_any, contains}
use sentinel_mail_gateway.Samples.{small_platform}
use sentinel_mail_gateway.SenderList.Query.{
  Recipient, allow, block, email, domain, lookup_sender_list_address,
}
use sentinel_mail_gateway.SenderList.Laws.{blocks}
use sentinel_mail_gateway.SenderList.Rules.{
  Rule, Directory, normalize_rule, is_configured_protected_domain, upsert_decision,
}
use sentinel_mail_gateway.SenderList.Rules.Effects.{IsUnique, upsert_decision-IsUnique}
use sentinel_mail_gateway.SenderList.Rules.Blocks.{
  entries, upsert_decision-not_protected, upsert_decision-blocks,
}
use sentinel_mail_gateway.SenderList.Admin.{Caller, WriteRequest, Tables, create}

abbrev directory : Directory
directory = record {
  platform = small_platform;
  masked_prefix = λ s. some s;
  domain_names = "Shop.example" ∷ [];
}

abbrev old_rule : Rule
old_rule = record {
  id = 1;
  scope = "org";
  entry = record {
    organization_id = some 7;
    domain_id = none;
    user_id = none;
    action = allow;
    kind = domain;
    pattern = "*@Bad.example";
    created_at = 5;
  };
}

abbrev new_rule : Rule
new_rule = record {
  id = 2;
  scope = "org";
  entry = record {
    organization_id = some 7;
    domain_id = none;
    user_id = none;
    action = block;
    kind = domain;
    pattern = "*@bad.example";
    created_at = 9;
  };
}

test_replaced :
    upsert_decision directory 2 9
      (some 7)
      none
      none
      "org"
      "domain"
      " @Bad.example"
      "block"
      (old_rule ∷ [])
    ≡ inr ("*@bad.example", new_rule ∷ [])
unfolding upsert_decision lower trim_space contains trim_prefix contains_any
test_replaced = refl

test_protected :
    upsert_decision directory 2 9 (some 7) none none "org" "domain" "shop.example" "block" []
    ≡ inl "cannot block configured protected domain"
unfolding upsert_decision lower trim_space contains trim_prefix contains_any
test_protected = refl

test_url :
    normalize_rule directory domain "https://bad.example/x"
    ≡ inl "sender domain must be a domain name, not a URL or path"
unfolding normalize_rule contains trim_prefix lower trim_space
test_url = refl

test_email : normalize_rule directory email " Ann@Bad.example" ≡ inr "ann@bad.example"
unfolding normalize_rule contains trim_space lower
test_email = refl

test-IsUnique : IsUnique (old_rule ∷ [])
test-IsUnique k p = ground arith

upsert_decision-IsUnique_example : IsUnique (new_rule ∷ [])
upsert_decision-IsUnique_example =
    upsert_decision-IsUnique directory 2 9 (old_rule ∷ []) (some 7) none none "org" "domain"
      " @Bad.example" "block" "*@bad.example" (new_rule ∷ []) test_replaced test-IsUnique

upsert_decision-not_protected_example :
    is_configured_protected_domain directory (trim_prefix "*@bad.example" "*@") ≡ false
upsert_decision-not_protected_example =
    upsert_decision-not_protected directory 2 9 7 none none (old_rule ∷ []) " @Bad.example"
      "*@bad.example" (new_rule ∷ []) test_replaced

abbrev recipient : Recipient
recipient = record { organization_id = 7; domain_id = some 3; user_id = none }

upsert_decision-blocks_example :
    blocks (
      lookup_sender_list_address recipient
        (entries (new_rule ∷ []))
        ("eve@bad.example" ∷ "*@bad.example" ∷ []))
    ≡ true
unfolding lower
upsert_decision-blocks_example =
    upsert_decision-blocks directory 2 9 7 none none (old_rule ∷ []) recipient "eve@bad.example"
      ("*@bad.example" ∷ []) " @Bad.example" "*@bad.example" (new_rule ∷ []) test_replaced refl refl

abbrev root : Caller
root = record {
  user_id = 1;
  organization_id = 7;
  role = "super_admin";
  tenant = record { is_super_admin = true; org_id = 7; visible_org_ids = [] };
}

abbrev tables : Tables
tables = record { domains = []; active_users = []; rules = [] }

abbrev block_request : Option ℕ → WriteRequest
block_request user = record {
  organization_id = some 7;
  domain_id = none;
  user_id = user;
  scope = "org";
  action = "block";
  kind = "domain";
  sender = "bad.example";
  sender_domain = "";
}

test_created :
    create directory 2 9 root tables (block_request none)
    ≡ record { status = 201; rules = new_rule ∷ [] }
unfolding create contains trim_prefix contains_any
test_created = refl

-- the rule of an organization is stored, but the answer looks for it under the user's id
test_not_read_back :
    create directory 2 9 root tables (block_request (some 4))
    ≡ record { status = 500; rules = new_rule ∷ [] }
unfolding create contains trim_prefix contains_any
test_not_read_back = refl

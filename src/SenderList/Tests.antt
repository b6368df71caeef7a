-- ===== src/SenderList/Tests.antt =====
-- Inputs at which the theorems on the sender lists apply.
use sentinel_mail_gateway.Prelude.{
  String, false, not, ◌&&◌, ◌||◌, ◌≡◌, refl, none, some, List, [], ◌∷◌, any, str_eq, if◌then◌else◌,
}
use sentinel_mail_gateway.Strings.{trim_space, lower, contains}
use sentinel_mail_gateway.Samples.{small_platform}
use sentinel_mail_gateway.SenderList.{
  Lookup, found, sender_list_lookup_addresses, lookup_sender_list_with_ip,
}
use sentinel_mail_gateway.SenderList.Query.{
  ListEntry, allow, block, email, domain, Recipient, lookup_sender_list_address, selects_block,
  matched_scope, action_text,
}
use sentinel_mail_gateway.SenderList.Laws.{
  blocks, fails, lookup_sender_list_with_ip-blocks, lookup_sender_list_address-blocks,
}

abbrev no_ip : String → Lookup
no_ip s = found "" ""

-- one address is allowed, every other one is blocked
abbrev by_address : String → Lookup
by_address s = if str_eq s "ann@shop.example" then found "allow" "user" else found "block" "org"

abbrev addresses : List String
addresses = "ann@shop.example" ∷ "spam@bad.example" ∷ []

test_up :
    any (λ a. fails (by_address a)) (sender_list_lookup_addresses small_platform addresses) ≡ false
unfolding sender_list_lookup_addresses fails trim_space contains lower
test_up = refl

test_ip_up : fails (no_ip "192.0.2.7") ≡ false
unfolding fails
test_ip_up = refl

lookup_sender_list_with_ip-blocks_example :
    blocks (lookup_sender_list_with_ip small_platform no_ip by_address "192.0.2.7" addresses) ≡ (
      (not (str_eq (trim_space "192.0.2.7") "") && blocks (no_ip "192.0.2.7"))
      || any (λ a. blocks (by_address a)) (sender_list_lookup_addresses small_platform addresses))
lookup_sender_list_with_ip-blocks_example =
    lookup_sender_list_with_ip-blocks small_platform no_ip by_address "192.0.2.7" addresses
      test_ip_up test_up

abbrev bob : Recipient
bob = record { organization_id = 1; domain_id = some 4; user_id = some 7 }

-- the user allows the address; the organization blocks the domain
abbrev entries : List ListEntry
entries =
    record {
      organization_id = some 1;
      domain_id = none;
      user_id = some 7;
      action = allow;
      kind = email;
      pattern = "ann@shop.example";
      created_at = 9;
    }
    ∷ record {
      organization_id = some 1;
      domain_id = none;
      user_id = none;
      action = block;
      kind = domain;
      pattern = "shop.example";
      created_at = 3;
    }
    ∷ []

test_block_wins :
    lookup_sender_list_address bob entries ("ann@shop.example" ∷ "shop.example" ∷ [])
    ≡ found "block" "org"
unfolding lookup_sender_list_address lower action_text matched_scope
test_block_wins = refl

lookup_sender_list_address-blocks_example :
    blocks (lookup_sender_list_address bob entries ("ann@shop.example" ∷ "shop.example" ∷ []))
    ≡ any (selects_block bob ("ann@shop.example" ∷ "shop.example" ∷ [])) entries
lookup_sender_list_address-blocks_example =
    lookup_sender_list_address-blocks bob entries "ann@shop.example" ("shop.example" ∷ [])

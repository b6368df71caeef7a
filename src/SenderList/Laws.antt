-- ===== src/SenderList/Laws.antt =====
-- Who wins in the sender lists.
use sentinel_mail_gateway.Prelude.{
  String, Bool, true, false, not, ◌&&◌, ◌||◌, ◌≡◌, ◌⊎◌, inl, inr, refl, arith, Option, none, some,
  List, [], ◌∷◌, any, Option-cases, str_eq, if◌then◌else◌,
}
use sentinel_mail_gateway.Strings.{trim_space}
use sentinel_mail_gateway.Platform.{Platform}
use sentinel_mail_gateway.SenderList.Query.{
  Recipient, ListEntry, ListAction, allow, block, is_block, comes_before, first_row, selects_block,
  lookup_sender_list_address, action_text,
}
use sentinel_mail_gateway.SenderList.{
  Lookup, failed, found, lookup_addresses, sender_list_lookup_addresses, lookup_sender_list_with_ip,
}

-- the address is blocked; the query failed
unfoldable pub blocks : Lookup → Bool
blocks failed = false
blocks (found action scope) = str_eq action "block"

unfoldable pub fails : Lookup → Bool
fails failed = true
fails (found action scope) = false

Lookup-cases :
    (l : Lookup)
    → (l ≡ failed) ⊎ ((action : String) × ((scope : String) × (l ≡ found action scope)))
Lookup-cases failed = inl refl
Lookup-cases (found action scope) = inr (action, (scope, refl))

module _ (lookup_address : String → Lookup) where
  -- where no query fails, an address on a block list blocks, whatever the others are
  lookup_addresses-blocks :
      (scope : String) (addrs : List String)
      → any (λ a. fails (lookup_address a)) addrs ≡ false
      → blocks (lookup_addresses lookup_address scope addrs)
        ≡ any (λ a. blocks (lookup_address a)) addrs
  unfolding lookup_addresses blocks fails
  lookup_addresses-blocks scope [] h = ground arith
  lookup_addresses-blocks scope (a ∷ rest) h = elim (Lookup-cases (lookup_address a)) [
    | inl e ↦ absurd (ground arith)
    | inr (action, (matched, e)) ↦
        let scope' = if str_eq action "allow" && str_eq scope "" then matched else scope in
        ground (arith, lookup_addresses-blocks scope' rest)
  ]

-- If no query fails, a sender is blocked exactly when its IP address is on a block list or one of
-- the mail addresses is: no allow entry of another address overrides a block.
pub lookup_sender_list_with_ip-blocks :
    (platform : Platform) (lookup_ip lookup_address : String → Lookup) (client_ip : String)
    (values : List String)
    → fails (lookup_ip client_ip) ≡ false
    → any (λ a. fails (lookup_address a)) (sender_list_lookup_addresses platform values) ≡ false
    → blocks (lookup_sender_list_with_ip platform lookup_ip lookup_address client_ip values) ≡ (
        (not (str_eq (trim_space client_ip) "") && blocks (lookup_ip client_ip))
        || any (λ a. blocks (lookup_address a)) (sender_list_lookup_addresses platform values))
unfolding lookup_sender_list_with_ip
lookup_sender_list_with_ip-blocks platform lookup_ip lookup_address client_ip values up up' =
    let addrs = sender_list_lookup_addresses platform values in
    let by_address = lookup_addresses-blocks lookup_address "" addrs up' in
    elim (Lookup-cases (lookup_ip client_ip)) [
      | inl e ↦ absurd (unfold fails in ground arith)
      | inr (action, (scope, e)) ↦ unfold blocks in ground (arith, by_address)
    ]

comes_before_of_block :
    (r : Recipient) (patterns : List String) (e f : ListEntry)
    → is_block e.action ≡ true
    → is_block f.action ≡ false
    → (comes_before r patterns e f ≡ true) × (comes_before r patterns f e ≡ false)
unfolding comes_before
comes_before_of_block r patterns e f b n = ground arith

row_blocks : Option ListEntry → Bool
row_blocks none = false
row_blocks (some e) = is_block e.action

first_row-blocks :
    (r : Recipient) (patterns : List String) (entries : List ListEntry)
    → row_blocks (first_row r patterns entries) ≡ any (selects_block r patterns) entries
unfolding first_row row_blocks selects_block
first_row-blocks r patterns [] = refl
first_row-blocks r patterns (e ∷ entries) = elim (Option-cases (first_row r patterns entries)) [
  | inl none_yet ↦ ground (arith, first_row-blocks r patterns entries)
  | inr (f, first) ↦ ground (
    arith,
    first_row-blocks r patterns entries,
    comes_before_of_block r patterns e f,
    comes_before_of_block r patterns f e,
  )
]

is_block-action_text : (a : ListAction) → str_eq (action_text a) "block" ≡ is_block a
unfolding action_text
is_block-action_text allow = refl
is_block-action_text block = refl

-- An address with patterns is blocked exactly when some entry that applies to the recipient blocks
-- it: no allow entry overrides a block, however narrow its scope or recent its date.
pub lookup_sender_list_address-blocks :
    (r : Recipient) (entries : List ListEntry) (p : String) (patterns : List String)
    → blocks (lookup_sender_list_address r entries (p ∷ patterns))
      ≡ any (selects_block r (p ∷ patterns)) entries
unfolding lookup_sender_list_address blocks
lookup_sender_list_address-blocks r entries p patterns =
    let rows = first_row-blocks r (p ∷ patterns) entries in
    elim (Option-cases (first_row r (p ∷ patterns) entries)) [
      | inl e ↦ unfold row_blocks in ground (arith, rows)
      | inr (f, e) ↦ unfold row_blocks in ground (arith, rows, is_block-action_text f.action)
    ]

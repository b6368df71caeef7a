-- ===== src/Event/Order.antt =====
-- The symbol tests and the order in which the runtime visits the map.
use mathlib.Core.List.{Permᴰ}
use sentinel_mail_gateway.Prelude.{String, ◌≡◌, List, any-permᴰ, refl, ◌∷◌, []}
use sentinel_mail_gateway.Event.{Symbols, has_symbol, has_any_symbol, has_symbol_containing}

module _ {xs ys : Symbols} (p : Permᴰ xs ys) where
  pub has_symbol-perm : (name : String) → has_symbol xs name ≡ has_symbol ys name
  unfolding has_symbol
  has_symbol-perm name = any-permᴰ _ p

  pub has_any_symbol-perm :
      (names : List String) → has_any_symbol xs names ≡ has_any_symbol ys names
  unfolding has_any_symbol
  has_any_symbol-perm [] = refl
  has_any_symbol-perm (n ∷ ns) = cc (has_symbol-perm n, has_any_symbol-perm ns)

  pub has_symbol_containing-perm :
      (required : String) (alts : List String)
      → has_symbol_containing xs required alts ≡ has_symbol_containing ys required alts
  unfolding has_symbol_containing
  has_symbol_containing-perm required alts = any-permᴰ _ p

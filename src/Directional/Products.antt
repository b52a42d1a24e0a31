-- ===== src/Directional/Products.antt =====
-- The products of symbols, as directional_stress90_planner.py reads them. The case mapping
-- `str.upper` is a parameter.
use afuture.Prelude.{String, List, [], ◌∷◌, or_else, keep, Result, ok, raise_if, ◌>>◌}
use afuture.Prelude.Int.{ℤ}
use afuture.Prelude.Text.{str_eq}
use afuture.Dict.{Dict, string_eq, lookup, insert}
use afuture.Models.{Error, missing_product}
use afuture.Directional.{Lots}

module _ (upper : String → String) where
  -- `products[symbol]`, once `_products` has returned.
  abbrev pub product_of : Dict String String → String → String
  product_of symbol_products symbol = upper (or_else (lookup symbol symbol_products) "")

  -- `_products` raises where a symbol has no product.
  unfoldable pub check_products : Dict String String → List String → Result Error (Unit {0})
  check_products symbol_products [] = ok tt
  check_products symbol_products (symbol ∷ symbols) =
      raise_if (str_eq (product_of symbol_products symbol) "") missing_product
      >> check_products symbol_products symbols

  -- `{str(product).upper(): value for product, value in raw.items()}`
  unfoldable pub upper_keys : {V : Type 0} → Dict String V → Dict String V → Dict String V
  upper_keys [] d = d
  upper_keys ((product, value) ∷ raw) d = upper_keys raw (insert (upper product) value d)

  -- `{symbol: volume for symbol, volume in rows.items() if products[symbol] == product}`
  abbrev pub rows_of : Dict String String → String → Lots → Lots
  rows_of symbol_products product rows =
      keep (λ (row : String × ℤ). str_eq (product_of symbol_products row.0) product) rows

-- ===== src/Directional/Frozen.antt =====
-- `freeze_new_risk_target` of directional_stress90_planner.py: the loop over the products.
use afuture.Prelude.{
  String, Bool, true, not, ◌++◌, Option, none, some, List, [], ◌∷◌, if◌then◌else◌, any, all, map,
  Result, ok, ◌>>=◌, ◌>>◌, raise_if,
}
use afuture.Prelude.Sets.{member, sorted_set}
use afuture.Dict.{string_eq, lookup, keys}
use afuture.Float.{FloatOps}
use afuture.Models.{Error, bad_transition}
use afuture.Directional.{Lots, nonzero_lots, symbols_of}
use afuture.Directional.Products.{product_of, check_products, upper_keys, rows_of}
use afuture.Directional.Freeze.{FreezeInput, authorized_target, update, freeze_blocked, bad_budget}

module _ (upper : String → String) where
  -- The set of blocked products; every product is blocked where none is named.
  abbrev pub is_blocked : Option (List String) → String → Bool
  is_blocked none product = true
  is_blocked (some products) product = member product (map upper products)

module _ {F : Type 0} ⦃fl : FloatOps F⦄ (upper : String → String) where
  -- The products whose transition is authorized.
  abbrev pub authorized_products : FreezeInput F → List String
  authorized_products input =
      map upper input.authorized_transition_products
      ++ keys (upper_keys upper input.authorized_transition_kinds [])

  -- One round of the loop over the products.
  abbrev pub freeze_product : FreezeInput F → Lots → Lots → String → Lots → Result Error Lots
  freeze_product input current target product result =
      let target_rows = rows_of upper input.symbol_products product target in
      let current_rows = rows_of upper input.symbol_products product current in
      if is_blocked upper input.blocked_products product
      then freeze_blocked input.lot_notionals (member product (authorized_products input))
          (lookup product (upper_keys upper input.replacement_notionals [])) current_rows
          target_rows result
      else ok (update target_rows result)

  unfoldable pub freeze_products :
      List String → FreezeInput F → Lots → Lots → Lots → Result Error Lots
  unfolding freeze_blocked update upper_keys
  freeze_products [] input current target result = ok result
  freeze_products (product ∷ products) input current target result =
      freeze_product input current target product result
      >>= freeze_products products input current target

  -- What follows the products check when the freeze is triggered.
  unfoldable pub freeze_triggered : FreezeInput F → Lots → Lots → Result Error Lots
  unfolding freeze_products upper_keys nonzero_lots
  freeze_triggered input current target =
      let budgets = upper_keys upper input.replacement_notionals [] in
      let products =
        sorted_set (map (product_of upper input.symbol_products) (symbols_of current target)) in
      raise_if (any bad_budget budgets) bad_transition
      >> (raise_if
            (not (all (λ product. member product (authorized_products input)) (keys budgets)))
            bad_transition
          >> (freeze_products products input current target [] >>= λ result.
              ok (nonzero_lots result)))

  -- `freeze_new_risk_target`
  unfoldable pub freeze_new_risk_target : FreezeInput F → Result Error Lots
  unfolding freeze_triggered check_products nonzero_lots
  freeze_new_risk_target input =
      let current = nonzero_lots input.current_lots in
      let target = authorized_target input.persisted_authorized (nonzero_lots input.target_lots) in
      check_products upper input.symbol_products (symbols_of current target)
      >> (if input.triggered then freeze_triggered input current target else ok target)

-- ===== src/Directional/Rounds.antt =====
-- About the rounds of `freeze_new_risk_target`.
use mathlib.Core.Path.{subst}
use afuture.Prelude.{
  String, false, not, ◌≡◌, inl, inr, Bool-cases, List, [], ◌∷◌, map, any, all, All, All-keep, ok,
  ◌>>=◌, ◌>>◌, raise_if, >>=-eq-ok, >>-eq-ok, ok_inj,
}
use afuture.Prelude.Int.{ℤ, pos, eqb_ℤ}
use afuture.Prelude.Sets.{member, sorted_set}
use afuture.Dict.{string_eq, keys}
use afuture.Float.{FloatOps}
use afuture.Models.{bad_transition}
use afuture.Directional.{Lots, nonzero_lots, symbols_of}
use afuture.Directional.Products.{product_of, upper_keys, rows_of}
use afuture.Directional.Freeze.{FreezeInput, bad_budget}
use afuture.Directional.Frozen.{
  is_blocked, authorized_products, freeze_product, freeze_products, freeze_triggered,
}
use afuture.Directional.Blocked.{freeze_blocked-All}
use afuture.Directional.Carried.{Carried, NonZero, update-All}

pub nonzero_lots-All :
    (P : String × ℤ → Type 0) (rows : Lots) → All P rows → All P (nonzero_lots rows)
unfolding nonzero_lots
nonzero_lots-All P [] h = tt
nonzero_lots-All P ((s, v) ∷ rows) h = elim (Bool-cases (eqb_ℤ v (pos 0))) [
  | inl zero ↦ rw zero (nonzero_lots-All P rows h.1)
  | inr lots ↦ rw lots (h.0, nonzero_lots-All P rows h.1)
]

module _ {F : Type 0} ⦃fl : FloatOps F⦄ (upper : String → String) (P : String × ℤ → Type 0)
    (input : FreezeInput F) (current target : Lots) (current_nonzero : NonZero current) where
  -- What the rounds need of each product: its rows have the property, and so has what they carry.
  abbrev pub Rows : String → Type 0
  Rows product =
      let rows = rows_of upper input.symbol_products product target in
      All P rows × ((entry : String × ℤ) → Carried rows entry → P entry)

  pub freeze_product-All :
      (product : String) (result after : Lots)
      → Rows product
      → All P result
      → freeze_product upper input current target product result ≡ ok after
      → All P after
  freeze_product-All product result after rows h e =
      let target_rows = rows_of upper input.symbol_products product target in
      let current_rows = rows_of upper input.symbol_products product current in
      elim (Bool-cases (is_blocked upper input.blocked_products product)) [
        | inl blocked ↦
            freeze_blocked-All P target_rows rows.1 rows.0 input.lot_notionals _ _ current_rows
              result after
              (All-keep (λ (row : String × ℤ). eqb_ℤ row.1 (pos 0) ≡ false)
                (λ (row : String × ℤ). eqb_ℤ row.1 (pos 0) ≡ false) _ current (λ row t n. n)
                current_nonzero)
              h (rw blocked at (e))
        | inr free ↦
            subst (All P) (ok_inj _ after (rw free at (e)))
              (update-All P target_rows result rows.0 h)
      ]

-- A property of entries that every round keeps holds of what the freeze returns.
module _ {F : Type 0} ⦃fl : FloatOps F⦄ (upper : String → String) (P : String × ℤ → Type 0)
    (input : FreezeInput F) (current target : Lots)
    (round : (product : String) (result after : Lots)
      → All P result
      → freeze_product upper input current target product result ≡ ok after
      → All P after) where
  freeze_products-All :
      (products : List String) (result after : Lots)
      → All P result
      → freeze_products upper products input current target result ≡ ok after
      → All P after
  unfolding freeze_products
  freeze_products-All [] result after h e = subst (All P) (ok_inj result after e) h
  freeze_products-All (product ∷ products) result after h e =
      let found =
        >>=-eq-ok (freeze_product upper input current target product result)
          (freeze_products upper products input current target) e in
      freeze_products-All products found.0 after (round product result found.0 h found.1) found.2

  pub freeze_triggered-All :
      (after : Lots) → freeze_triggered upper input current target ≡ ok after → All P after
  unfolding freeze_triggered
  freeze_triggered-All after e =
      let budgets = upper_keys upper input.replacement_notionals [] in
      let products =
        sorted_set (map (product_of upper input.symbol_products) (symbols_of current target)) in
      let rounds = freeze_products upper products input current target [] >>= λ result.
      ok (nonzero_lots result) in
      let unauthorized =
        raise_if
          (not (all (λ product. member product (authorized_products upper input)) (keys budgets)))
          bad_transition in
      let first =
        >>-eq-ok (raise_if (any bad_budget budgets) bad_transition) (unauthorized >> rounds) e in
      let second = >>-eq-ok unauthorized rounds first.1 in
      let found =
        >>=-eq-ok (freeze_products upper products input current target [])
          (λ result. ok (nonzero_lots result)) second.1 in
      subst (All P) (ok_inj _ after found.2)
        (nonzero_lots-All P found.0 (freeze_products-All products [] found.0 tt found.1))

-- ===== src/Directional/Entries.antt =====
-- About `freeze_new_risk_target`: entries into blocked products.
use mathlib.Core.Path.{subst}
use afuture.Prelude.{
  String, Bool, true, false, ◌≡◌, refl, inl, inr, Bool-cases, arith, [], ◌∷◌, keep, any, All,
  All-Some, All-keep, ok, ok_inj,
}
use afuture.Prelude.Int.{ℤ}
use afuture.Prelude.Text.{str_eq, str_eq_iff}
use afuture.Prelude.Sets.{member}
use afuture.Dict.{string_eq}
use afuture.Float.{FloatOps}
use afuture.Directional.{Lots, nonzero_lots}
use afuture.Directional.Budget.{is_nil}
use afuture.Directional.Fitted.{Within}
use afuture.Directional.Products.{product_of, rows_of}
use afuture.Directional.Freeze.{FreezeInput, freeze_blocked}
use afuture.Directional.Frozen.{
  is_blocked, authorized_products, freeze_product, freeze_new_risk_target,
}
use afuture.Directional.Carried.{Carried, nonzero_lots-NonZero}
use afuture.Directional.Rounds.{freeze_product-All, freeze_triggered-All}
use afuture.Directional.Freezes.{held_rows, wanted_rows, freeze_returns}

str_ne_trans : (a b c : String) → str_eq a b ≡ true → str_eq b c ≡ false → str_eq a c ≡ false
str_ne_trans a b c h k = ground (arith, str_eq_iff a b, str_eq_iff b c, str_eq_iff a c)

keep_nothing : (t : String × ℤ → Bool) (rows : Lots) → any t rows ≡ false → keep t rows ≡ []
keep_nothing t [] h = refl
keep_nothing t (row ∷ rows) h = elim (Bool-cases (t row)) [
  | inl kept ↦ cc (rw kept at (h))
  | inr dropped ↦ rw dropped (keep_nothing t rows (rw dropped at (h)))
]

All-units : (rows : Lots) → All (λ (row : String × ℤ). Unit {0}) rows
All-units [] = tt
All-units (row ∷ rows) = (tt, All-units rows)

module _ {F : Type 0} ⦃fl : FloatOps F⦄ (upper : String → String) (input : FreezeInput F)
    (q : String) where
  -- The product is not held.
  abbrev pub NotHeld : Type 0
  NotHeld =
      any (λ (row : String × ℤ). str_eq (product_of upper input.symbol_products row.0) q)
        (nonzero_lots input.current_lots)
      ≡ false

  -- An entry of another product.
  abbrev pub Elsewhere : String × ℤ → Type 0
  Elsewhere entry = str_eq (product_of upper input.symbol_products entry.0) q ≡ false

  rows-Elsewhere :
      (product : String) (target : Lots)
      → str_eq product q ≡ false
      → All Elsewhere (rows_of upper input.symbol_products product target)
  rows-Elsewhere product target other =
      All-keep (λ (row : String × ℤ). Unit) Elsewhere
        (λ (row : String × ℤ). str_eq (product_of upper input.symbol_products row.0) product) target
        (λ row kept u.
          str_ne_trans (product_of upper input.symbol_products row.0) product q kept other)
        (All-units target)

  Carried-Elsewhere :
      (rows : Lots) (entry : String × ℤ) → All Elsewhere rows → Carried rows entry → Elsewhere entry
  Carried-Elsewhere rows entry h c =
      All-Some Elsewhere (λ (row : String × ℤ). (row.0 ≡ entry.0) × Within row.1 entry.1)
        (Elsewhere entry) rows
        (λ row e k. subst (λ s. str_eq (product_of upper input.symbol_products s) q ≡ false) k.0 e)
        h c

  idle_round :
      (current target result after : Lots)
      → any (λ (row : String × ℤ). str_eq (product_of upper input.symbol_products row.0) q) current
        ≡ false
      → is_blocked upper input.blocked_products q ≡ true
      → member q (authorized_products upper input) ≡ false
      → freeze_product upper input current target q result ≡ ok after
      → result ≡ after
  unfolding freeze_blocked
  idle_round current target result after not_held blocked denied e =
      elim (Bool-cases (is_nil (rows_of upper input.symbol_products q target))) [
        | inl no_target ↦ ok_inj result after (rw (blocked, no_target) at (e))
        | inr wanted ↦ ok_inj result after (
            rw
              (
                blocked,
                wanted,
                keep_nothing
                    (λ (row : String × ℤ). str_eq (product_of upper input.symbol_products row.0) q)
                    current not_held,
                denied,
              )
              at (e))
      ]

  -- A triggered freeze enters no blocked product: where the product is blocked, holds no lots now and
  -- has no authorized transition, no entry of the result belongs to it.
  pub freeze_new_risk_target-Elsewhere :
      (after : Lots)
      → input.triggered ≡ true
      → is_blocked upper input.blocked_products q ≡ true
      → member q (authorized_products upper input) ≡ false
      → NotHeld
      → freeze_new_risk_target upper input ≡ ok after
      → All Elsewhere after
  freeze_new_risk_target-Elsewhere after triggered blocked denied not_held e =
      elim (freeze_returns upper input after e) [
        | inl returned ↦
            freeze_triggered-All upper Elsewhere input (held_rows upper input)
              (wanted_rows upper input)
              (λ product result next k r. elim (Bool-cases (str_eq product q)) [
                | inl same ↦
                    subst (All Elsewhere)
                      (idle_round (held_rows upper input) (wanted_rows upper input) result next
                        not_held blocked denied
                        (subst
                          (λ p.
                            freeze_product upper input (held_rows upper input)
                              (wanted_rows upper input) p result
                            ≡ ok next)
                          ((str_eq_iff product q).0 same) r))
                      k
                | inr other ↦
                    let rows = rows-Elsewhere product (wanted_rows upper input) other in
                    freeze_product-All upper Elsewhere input (held_rows upper input)
                      (wanted_rows upper input) (nonzero_lots-NonZero input.current_lots) product
                      result next (rows, λ entry c. Carried-Elsewhere _ entry rows c) k r
              ])
              after returned
        | inr idle ↦ cc (idle.0, triggered)
      ]

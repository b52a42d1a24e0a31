-- ===== src/Directional/Freezes.antt =====
-- About `freeze_new_risk_target`: its result against the target and the authorization.
use mathlib.Core.Path.{subst}
use afuture.Prelude.{
  String, Bool, true, false, ◌≡◌, refl, ◌⊎◌, inl, inr, Option, none, some, All, All-weaken,
  All-keep, Result, ok, >>-eq-ok, ok_inj, if◌then◌else◌,
}
use afuture.Prelude.Int.{ℤ}
use afuture.Prelude.Text.{str_eq}
use afuture.Dict.{string_eq, some_eq}
use afuture.Float.{FloatOps}
use afuture.Models.{Error}
use afuture.Directional.{Lots, nonzero_lots, symbols_of}
use afuture.Directional.Products.{product_of, check_products}
use afuture.Directional.Freeze.{FreezeInput, cap_target, authorized_target}
use afuture.Directional.Frozen.{freeze_triggered, freeze_new_risk_target}
use afuture.Directional.Carried.{Carried, Carried-trans, nonzero_lots-Carried, nonzero_lots-NonZero}
use afuture.Directional.Capped.{cap_target-Carried, cap_target-Authorized}
use afuture.Directional.Rounds.{freeze_product-All, freeze_triggered-All}

if_ok :
    (b : Bool) (x y : Result Error Lots) {after : Lots}
    → (if b then x else y) ≡ ok after
    → (x ≡ ok after) ⊎ ((b ≡ false) × (y ≡ ok after))
if_ok true x y e = inl e
if_ok false x y e = inr (refl, e)

module _ {F : Type 0} ⦃fl : FloatOps F⦄ (upper : String → String) (input : FreezeInput F) where
  abbrev pub held_rows : Lots
  held_rows = nonzero_lots input.current_lots

  abbrev pub wanted_rows : Lots
  wanted_rows = authorized_target input.persisted_authorized (nonzero_lots input.target_lots)

  -- The two ways in which the freeze returns.
  pub freeze_returns :
      (after : Lots)
      → freeze_new_risk_target upper input ≡ ok after
      → (freeze_triggered upper input held_rows wanted_rows ≡ ok after)
        ⊎ ((input.triggered ≡ false) × (wanted_rows ≡ after))
  unfolding freeze_new_risk_target
  freeze_returns after e =
      let rest =
        (>>-eq-ok (check_products upper input.symbol_products (symbols_of held_rows wanted_rows))
          (if input.triggered
            then freeze_triggered upper input held_rows wanted_rows
            else ok wanted_rows)
          e).1 in
      elim (if_ok input.triggered _ _ rest) [
        | inl triggered ↦ inl triggered
        | inr idle ↦ inr (idle.0, ok_inj wanted_rows after idle.1)
      ]

  -- Rows that a dict carries stay carried through the freeze.
  freeze-keeps_Carried :
      (x after : Lots)
      → All (Carried x) wanted_rows
      → freeze_new_risk_target upper input ≡ ok after
      → All (Carried x) after
  freeze-keeps_Carried x after h e = elim (freeze_returns after e) [
    | inl triggered ↦
        freeze_triggered-All upper (Carried x) input held_rows wanted_rows
          (λ product result next k r.
            let rows =
              All-keep (Carried x) (Carried x)
                (λ (row : String × ℤ).
                  str_eq (product_of upper input.symbol_products row.0) product)
                wanted_rows (λ row t c. c) h in
            freeze_product-All upper (Carried x) input held_rows wanted_rows
              (nonzero_lots-NonZero input.current_lots) product result next
              (rows, λ entry c. Carried-trans x _ entry rows c) k r)
          after triggered
    | inr idle ↦ subst (All (Carried x)) idle.1 h
  ]

  target-Carried :
      (persisted : Option Lots)
      → All
          (Carried input.target_lots)
          (authorized_target persisted (nonzero_lots input.target_lots))
  target-Carried none = nonzero_lots-Carried input.target_lots
  target-Carried (some p) =
      cap_target-Carried input.target_lots (nonzero_lots p) (nonzero_lots input.target_lots)
        (nonzero_lots-NonZero p) (nonzero_lots-Carried input.target_lots)

  -- A freeze adds no risk to a target: where it returns, every entry of the result has the symbol of
  -- an entry of the target, and lots of that entry's side, at least one and at most as many; so it is
  -- for every trigger, block, authorization, budget and notional.
  pub freeze_new_risk_target-Carried :
      (after : Lots)
      → freeze_new_risk_target upper input ≡ ok after
      → All (Carried input.target_lots) after
  freeze_new_risk_target-Carried after e =
      freeze-keeps_Carried input.target_lots after (target-Carried input.persisted_authorized) e

  authorized-Carried :
      (persisted : Option Lots) (p : Lots)
      → persisted ≡ some p
      → All (Carried p) (authorized_target persisted (nonzero_lots input.target_lots))
  authorized-Carried none p same = cc
  authorized-Carried (some q) p same =
      subst (λ r. All (Carried r) (cap_target (nonzero_lots q) (nonzero_lots input.target_lots)))
        (some_eq q p same)
        (All-weaken (Carried (nonzero_lots q)) (Carried q)
          (cap_target (nonzero_lots q) (nonzero_lots input.target_lots))
          (λ entry c. Carried-trans q (nonzero_lots q) entry (nonzero_lots-Carried q) c)
          (cap_target-Authorized (nonzero_lots q) (nonzero_lots input.target_lots)
            (nonzero_lots-NonZero q) (nonzero_lots-NonZero input.target_lots)))

  -- With a persisted authorization, whether or not the freeze is triggered, nothing is returned that
  -- the authorization does not carry.
  pub freeze_new_risk_target-Authorized :
      (p after : Lots)
      → input.persisted_authorized ≡ some p
      → freeze_new_risk_target upper input ≡ ok after
      → All (Carried p) after
  freeze_new_risk_target-Authorized p after same e =
      freeze-keeps_Carried p after (authorized-Carried input.persisted_authorized p same) e

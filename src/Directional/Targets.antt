-- ===== src/Directional/Targets.antt =====
-- `build_target_lots` of directional.py: product weights to integer lots.
use mathlib.Core.Path.{subst}
use afuture.Prelude.{
  String, Bool, true, false, ◌||◌, ◌≡◌, refl, sym, ◌⊎◌, inl, inr, Bool-cases, arith, Option, none,
  some, [], ◌∷◌, if◌then◌else◌, All, Some, Result, ok, ◌>>=◌, ◌>>◌, raise_if, >>-eq-ok, >>=-eq-ok,
  ok_inj,
}
use afuture.Prelude.Int.{ℤ, pos, ltb_ℤ, min_ℤ, neg_ℤ, -ℤ_parts, min_ℤ_bounds}
use afuture.Dict.{Dict, string_eq, lookup, insert, All-insert}
use afuture.Float.{FloatOps, fzero, fabs, slack}
use afuture.Models.{Error, bad_limit, ContractSpec, Tick}
use afuture.Economics.{mid_price}
use afuture.Directional.{Lots}
use afuture.Directional.Budget.{floor_of}
use afuture.Directional.Fitted.{Within}

module _ {F : Type 0} ⦃fl : FloatOps F⦄ where
  -- `MAX_GROSS_LEVERAGE`
  abbrev pub max_leverage : F
  max_leverage = fl.of_int (pos 2)

  -- The literal 1e-15.
  abbrev pub dust : F
  dust = fl.div (fl.of_int (pos 1)) (fl.of_int (pos 1_000_000_000_000_000))

  -- `sum(abs(float(value)) for value in weights)`
  abbrev pub gross_of : Dict String F → F → F
  gross_of [] gross = gross
  gross_of ((product, weight) ∷ weights) gross = gross_of weights (fl.add gross (fabs weight))

  -- The lots of a product, where it has a quote and a contract, and is worth something.
  abbrev pub sized_lots : F → ℤ → F → Tick F → Option (ContractSpec F) → Result Error ℤ
  sized_lots equity max_contract_volume weight tick none = ok (pos 0)
  sized_lots equity max_contract_volume weight tick (some spec) =
      let price = mid_price tick in
      let notional = fl.mul price spec.multiplier in
      if fl.le price fzero || fl.le notional fzero
      then ok (pos 0)
      else floor_of (fl.div (fl.mul equity (fabs weight)) notional) >>= λ lots.
          ok (min_ℤ max_contract_volume lots)

  abbrev pub set_target : F → String → ℤ → Lots → Lots
  set_target weight symbol lots targets =
      if ltb_ℤ (pos 0) lots
      then insert symbol (if fl.lt fzero weight then lots else neg_ℤ lots) targets
      else targets

  abbrev pub target_product :
      F → ℤ → Dict String (ContractSpec F) → F → Option (Tick F) → Lots → Result Error Lots
  target_product equity max_contract_volume specs weight none targets = ok targets
  target_product equity max_contract_volume specs weight (some tick) targets =
      sized_lots equity max_contract_volume weight tick (lookup tick.symbol specs) >>= λ lots.
      ok (set_target weight tick.symbol lots targets)

  -- The loop of `build_target_lots`.
  unfoldable pub target_all :
      F
      → ℤ
      → Dict String (Tick F)
      → Dict String (ContractSpec F)
      → Dict String F
      → Lots
      → Result Error Lots
  target_all equity cap ticks specs [] targets = ok targets
  target_all equity cap ticks specs ((product, weight) ∷ weights) targets =
      let skipped = target_all equity cap ticks specs weights targets in
      let taken = target_product equity cap specs weight (lookup product ticks) targets >>= λ more.
      target_all equity cap ticks specs weights more in
      if fl.le (fabs weight) dust then skipped else taken

  -- `build_target_lots`, of the account's equity.
  unfoldable pub build_target_lots :
      F
      → Dict String F
      → Dict String (Tick F)
      → Dict String (ContractSpec F)
      → ℤ
      → Result Error Lots
  unfolding target_all
  build_target_lots equity product_weights product_ticks specs max_contract_volume =
      raise_if (fl.lt (fl.add max_leverage slack) (gross_of product_weights fzero)) bad_limit
      >> target_all equity max_contract_volume product_ticks specs product_weights []

signed_cap :
    (cap lots : ℤ) (long : Bool)
    → ltb_ℤ (pos 0) (min_ℤ cap lots) ≡ true
    → Within
        (if long then cap else neg_ℤ cap)
        (if long then min_ℤ cap lots else neg_ℤ (min_ℤ cap lots))
signed_cap cap lots true h = ground (arith, min_ℤ_bounds cap lots)
signed_cap cap lots false h =
    ground (arith, min_ℤ_bounds cap lots, -ℤ_parts (pos 0) cap, -ℤ_parts (pos 0) (min_ℤ cap lots))

module _ {F : Type 0} ⦃fl : FloatOps F⦄ (equity : F) (cap : ℤ) (ticks : Dict String (Tick F))
    (specs : Dict String (ContractSpec F)) where
  -- A weight that the lots of the row come from: its product is quoted in the row's symbol, and the
  -- lots are on the side of the weight and at most the cap.
  abbrev pub Backs : String × ℤ → String × F → Type 0
  Backs row entry =
      (tick : Tick F) × (lookup entry.0 ticks ≡ some tick)
      × (tick.symbol ≡ row.0)
      × Within (if fl.lt fzero entry.1 then cap else neg_ℤ cap) row.1

  abbrev pub Backed : Dict String F → String × ℤ → Type 0
  Backed weights row = Some (Backs row) weights

  sized_lots_cap :
      (weight : F) (tick : Tick F) (spec : Option (ContractSpec F)) (lots : ℤ)
      → sized_lots equity cap weight tick spec ≡ ok lots
      → (lots ≡ pos 0) ⊎ ((floored : ℤ) × (lots ≡ min_ℤ cap floored))
  sized_lots_cap weight tick none lots e = inl (sym (ok_inj (pos 0) lots e))
  sized_lots_cap weight tick (some spec) lots e =
      let price = mid_price tick in
      let notional = fl.mul price spec.multiplier in
      elim (Bool-cases (fl.le price fzero || fl.le notional fzero)) [
        | inl worthless ↦ inl (sym (ok_inj (pos 0) lots (rw worthless at (e))))
        | inr priced ↦
            let found =
              >>=-eq-ok (floor_of (fl.div (fl.mul equity (fabs weight)) notional))
                (λ l. ok (min_ℤ cap l)) (rw priced at (e)) in
            inr (found.0, sym (ok_inj (min_ℤ cap found.0) lots found.2))
      ]

  set_target-Backed :
      (weights : Dict String F) (weight : F) (tick : Tick F) (lots : ℤ) (targets : Lots)
      → ((row : String × ℤ)
          → (tick.symbol ≡ row.0)
          → Within (if fl.lt fzero weight then cap else neg_ℤ cap) row.1
          → Backed weights row)
      → (lots ≡ pos 0) ⊎ ((floored : ℤ) × (lots ≡ min_ℤ cap floored))
      → All (Backed weights) targets
      → All (Backed weights) (set_target weight tick.symbol lots targets)
  set_target-Backed weights weight tick lots targets into (inl zero) h =
      subst (λ l. All (Backed weights) (set_target weight tick.symbol l targets)) (sym zero) h
  set_target-Backed weights weight tick lots targets into (inr capped) h =
      subst (λ l. All (Backed weights) (set_target weight tick.symbol l targets)) (sym capped.1)
        (elim (Bool-cases (ltb_ℤ (pos 0) (min_ℤ cap capped.0))) [
          | inl some_lots ↦ rw some_lots (
              All-insert (Backed weights) tick.symbol _ targets
                (into
                  (
                    tick.symbol,
                    if fl.lt fzero weight then min_ℤ cap capped.0 else neg_ℤ (min_ℤ cap capped.0),
                  )
                  refl (signed_cap cap capped.0 (fl.lt fzero weight) some_lots))
                h)
          | inr nothing ↦ rw nothing h
        ])

  target_product-Backed :
      (weights : Dict String F) (product : String) (weight : F) (found : Option (Tick F))
      (before after : Lots)
      → lookup product ticks ≡ found
      → ((row : String × ℤ) → Backs row (product, weight) → Backed weights row)
      → All (Backed weights) before
      → target_product equity cap specs weight found before ≡ ok after
      → All (Backed weights) after
  target_product-Backed weights product weight none before after seen into h e =
      subst (All (Backed weights)) (ok_inj before after e) h
  target_product-Backed weights product weight (some tick) before after seen into h e =
      let sized = sized_lots equity cap weight tick (lookup tick.symbol specs) in
      let found = >>=-eq-ok sized (λ lots. ok (set_target weight tick.symbol lots before)) e in
      subst (All (Backed weights)) (ok_inj _ after found.2) (
        set_target-Backed weights weight tick found.0 before
          (λ row same w. into row (tick, seen, same, w))
          (sized_lots_cap weight tick (lookup tick.symbol specs) found.0 found.1) h)

  target_all-Backed :
      (weights rest : Dict String F) (before after : Lots)
      → ((row : String × ℤ) → Backed rest row → Backed weights row)
      → All (Backed weights) before
      → target_all equity cap ticks specs rest before ≡ ok after
      → All (Backed weights) after
  unfolding target_all
  target_all-Backed weights [] before after into h e =
      subst (All (Backed weights)) (ok_inj before after e) h
  target_all-Backed weights ((product, weight) ∷ rest) before after into h e =
      elim (Bool-cases (fl.le (fabs weight) dust)) [
        | inl tiny ↦
            target_all-Backed weights rest before after (λ row b. into row (inr b)) h
              (rw tiny at (e))
        | inr counted ↦
            let found =
              >>=-eq-ok (target_product equity cap specs weight (lookup product ticks) before)
                (target_all equity cap ticks specs rest) (rw counted at (e)) in
            target_all-Backed weights rest found.0 after (λ row b. into row (inr b))
              (target_product-Backed weights product weight (lookup product ticks) before found.0
                refl (λ row b. into row (inl b)) h found.1)
              found.2
      ]

  -- Every target that `build_target_lots` returns comes from a weight: the symbol is the one quoted
  -- for the weight's product, the lots are not zero, long exactly where the weight is above zero, and
  -- at most the cap of a contract.
  pub build_target_lots-Backed :
      (weights : Dict String F) (lots : Lots)
      → build_target_lots equity weights ticks specs cap ≡ ok lots
      → All (Backed weights) lots
  unfolding build_target_lots
  build_target_lots-Backed weights lots e =
      target_all-Backed weights weights [] lots (λ row b. b) tt
        (>>-eq-ok (raise_if (fl.lt (fl.add max_leverage slack) (gross_of weights fzero)) bad_limit)
          (target_all equity cap ticks specs weights []) e).1

-- ===== src/Directional/Chain.antt =====
-- About `build_stress90_rebalance_stages`: the stages one after the other.
use mathlib.Core.Path.{subst}
use afuture.Prelude.{
  String, false, ◌≡◌, sym, arith, Option, none, some, [], map, known, All, All-weaken, All-keep, ok,
  ◌>>=◌, raise_if, >>=-eq-ok, >>-eq-ok, raise_if-eq-ok, ok_inj,
}
use afuture.Prelude.Int.{ℤ, pos, ◌<ℤ◌}
use afuture.Prelude.Sets.{sorted_set}
use afuture.Dict.{Dict}
use afuture.Float.{FloatOps}
use afuture.Models.{bad_limit}
use afuture.Directional.{Lots, nonzero_lots, symbols_of, lots_at}
use afuture.Directional.Symbols.{PlanOf, rebalance_from_lots-PlanOf}
use afuture.Directional.Budget.{fit_target_lots_to_margin_budget}
use afuture.Directional.Fitted.{fit_target_lots-EachWithin}
use afuture.Directional.Targets.{build_target_lots, Backed, build_target_lots-Backed}
use afuture.Directional.Products.{check_products}
use afuture.Directional.Categories.{action_categories}
use afuture.Directional.Freeze.{update}
use afuture.Directional.Frozen.{freeze_new_risk_target}
use afuture.Directional.Carried.{Carried, nonzero_lots-NonZero, update-All}
use afuture.Directional.Rounds.{nonzero_lots-All}
use afuture.Directional.Freezes.{freeze_new_risk_target-Carried}
use afuture.Directional.Unavailable.{available_rows, candidate_signs}
use afuture.Directional.Scaling.{scale_stress90_product_weights}
use afuture.Directional.Stages.{
  StagesInput, Stress90LotStages, no_evidence, evidence_of, gross_budget, known_ticks, freeze_input,
  bad_gross_limit, bad_cap, some_named, stage_limits,
}
use afuture.Directional.Staging.{
  fitted_lots, retained_lots, gross_fit, frozen, stages_after, stages_from,
  build_stress90_rebalance_stages,
}
use afuture.Directional.Caps.{
  Capped, Carried-Capped, fitted_Capped, cap_rows-Capped, retain_products-Capped,
  margin_aware-Capped,
}

-- What the stages promise: where the raw and the scaled lots come from, the caps, what each freeze
-- carries, and the plan from the held to the final lots.
pub record StagesOk (max_lots : ℤ) (current_lots : Lots) (Raw Scaled : String × ℤ → Type 0)
    (stages : Stress90LotStages) : Type 0 where
  pub raw_from : All Raw stages.raw_integer_lots
  pub scaled_from : All Scaled stages.scaled_integer_lots
  pub margin_capped : All (Capped max_lots) stages.margin_fitted_lots
  pub drawdown_carried : All (Carried stages.margin_fitted_lots) stages.drawdown_frozen_lots
  pub hhi_carried : All (Carried stages.drawdown_frozen_lots) stages.hhi_frozen_lots
  pub final_carried : All (Carried stages.hhi_frozen_lots) stages.final_frozen_lots
  pub final_capped : All (Capped max_lots) stages.final_frozen_lots
  pub plan_of :
      PlanOf
        (λ s. lots_at s (nonzero_lots current_lots))
        (λ s. lots_at s (nonzero_lots stages.final_frozen_lots))
        stages.plan

positive_cap : (max_lots : ℤ) → bad_cap max_lots ≡ false → pos 0 <ℤ max_lots
positive_cap max_lots h = ground arith

Carried-keeps_Capped :
    (max_lots : ℤ) (rows lots : Lots)
    → All (Capped max_lots) rows
    → All (Carried rows) lots
    → All (Capped max_lots) lots
Carried-keeps_Capped max_lots rows lots h c =
    All-weaken (Carried rows) (Capped max_lots) lots
      (λ entry k. Carried-Capped max_lots rows entry h k) c

module _ {F : Type 0} ⦃fl : FloatOps F⦄ (upper : String → String) (deviation : F → F → F)
    (input : StagesInput F) (positive : pos 0 <ℤ input.limits.max_contract_volume) where
  abbrev max_lots : ℤ
  max_lots = input.limits.max_contract_volume

  abbrev current : Lots
  current = nonzero_lots input.current_lots

  fitted_lots-Capped :
      (weights : Dict String F) (persisted : Option Lots) (lots : Lots)
      → fitted_lots upper deviation input weights persisted ≡ ok lots
      → All (Capped max_lots) lots
  fitted_lots-Capped weights (some p) lots e =
      subst (All (Capped max_lots)) (ok_inj _ lots e)
        (cap_rows-Capped max_lots (nonzero_lots p) positive (nonzero_lots-NonZero p))
  fitted_lots-Capped weights none lots e =
      margin_aware-Capped deviation input.equity weights input.product_ticks input.specs
        (stage_limits input.limits) input.current_lots lots positive e

  gross_fit-Capped :
      (margin_target lots : Lots)
      → All (Capped max_lots) margin_target
      → gross_fit upper deviation input current margin_target ≡ ok lots
      → All (Capped max_lots) lots
  unfolding gross_fit
  gross_fit-Capped margin_target lots h e =
      let retained = retained_lots upper deviation input current margin_target in
      let target =
        available_rows upper input.symbol_products (map upper input.unavailable_products)
          margin_target in
      let evidence =
        >>=-eq-ok
          (evidence_of target retained (known_ticks input) input.specs (update retained target)
            no_evidence)
          _ e in
      let fitted =
        >>=-eq-ok
          (fit_target_lots_to_margin_budget target evidence.0.notionals
            (gross_budget input.equity input.max_gross_leverage evidence.0))
          _ evidence.2 in
      subst (All (Capped max_lots)) (ok_inj _ lots fitted.2) (
        update-All (Capped max_lots) retained fitted.0
          (retain_products-Capped upper input.symbol_products max_lots
            (known input.persisted_margin_fitted_lots)
            (candidate_signs upper input.product_weights []) current margin_target
            (sorted_set (map upper input.unavailable_products)) [] positive
            (nonzero_lots-NonZero input.current_lots) tt)
          (fitted_Capped max_lots target fitted.0
            (All-keep (Capped max_lots) (Capped max_lots) _ margin_target (λ row t c. c) h)
            (fit_target_lots-EachWithin target evidence.0.notionals _ fitted.0 fitted.1)))

  stages_after-Ok :
      (Raw Scaled : String × ℤ → Type 0) (raw scaled margin_target drawdown hhi final : Lots)
      (stages : Stress90LotStages)
      → All Raw raw
      → All Scaled scaled
      → All (Capped max_lots) margin_target
      → All (Carried margin_target) drawdown
      → All (Carried drawdown) hhi
      → All (Carried hhi) final
      → stages_after upper deviation input raw scaled margin_target (drawdown, hhi, final)
        ≡ ok stages
      → StagesOk max_lots current Raw Scaled stages
  stages_after-Ok Raw Scaled raw scaled margin_target drawdown hhi final stages from_raw from_scaled
        h d k f e =
      let found =
        >>=-eq-ok
          (action_categories upper current final input.symbol_products
            input.authorized_transition_products input.authorized_transition_kinds)
          _ e in
      subst (StagesOk max_lots current Raw Scaled) (ok_inj _ stages found.2) (record {
        raw_from = nonzero_lots-All Raw raw from_raw;
        scaled_from = nonzero_lots-All Scaled scaled from_scaled;
        margin_capped = h;
        drawdown_carried = d;
        hhi_carried = k;
        final_carried = f;
        final_capped =
            Carried-keeps_Capped max_lots hhi final
              (Carried-keeps_Capped max_lots drawdown hhi
                (Carried-keeps_Capped max_lots margin_target drawdown h d) k)
              f;
        plan_of = rebalance_from_lots-PlanOf current final;
      })

  frozen_stages-Ok :
      (Raw Scaled : String × ℤ → Type 0) (raw scaled margin_target : Lots)
      (stages : Stress90LotStages)
      → All Raw raw
      → All Scaled scaled
      → All (Capped max_lots) margin_target
      → (frozen upper deviation input current margin_target
          >>= stages_after upper deviation input raw scaled margin_target)
        ≡ ok stages
      → StagesOk max_lots current Raw Scaled stages
  unfolding frozen
  frozen_stages-Ok Raw Scaled raw scaled margin_target stages from_raw from_scaled h e =
      let blocked = map upper input.entry_blocked_products in
      let found =
        >>=-eq-ok (frozen upper deviation input current margin_target)
          (stages_after upper deviation input raw scaled margin_target) e in
      let drawdown =
        >>=-eq-ok
          (freeze_new_risk_target upper
            (freeze_input input current margin_target input.drawdown_reserve_freeze none))
          _ found.1 in
      let hhi =
        >>=-eq-ok
          (freeze_new_risk_target upper
            (freeze_input input current drawdown.0 input.concentration_freeze none))
          _ drawdown.2 in
      let final =
        >>=-eq-ok
          (freeze_new_risk_target upper
            (freeze_input input current hhi.0 (some_named blocked) (some blocked)))
          _ hhi.2 in
      stages_after-Ok Raw Scaled raw scaled margin_target drawdown.0 hhi.0 final.0 stages from_raw
        from_scaled h
        (freeze_new_risk_target-Carried upper
          (freeze_input input current margin_target input.drawdown_reserve_freeze none) drawdown.0
          drawdown.1)
        (freeze_new_risk_target-Carried upper
          (freeze_input input current drawdown.0 input.concentration_freeze none) hhi.0 hhi.1)
        (freeze_new_risk_target-Carried upper
          (freeze_input input current hhi.0 (some_named blocked) (some blocked)) final.0 final.1)
        (subst (λ t. stages_after upper deviation input raw scaled margin_target t ≡ ok stages)
          (sym (ok_inj _ found.0 final.2)) found.2)

  stages_from-Ok :
      (Raw Scaled : String × ℤ → Type 0) (raw scaled : Lots) (weights : Dict String F)
      (stages : Stress90LotStages)
      → All Raw raw
      → All Scaled scaled
      → stages_from upper deviation input raw scaled weights ≡ ok stages
      → StagesOk max_lots current Raw Scaled stages
  unfolding stages_from
  stages_from-Ok Raw Scaled raw scaled weights stages from_raw from_scaled e =
      let fitted =
        >>=-eq-ok (fitted_lots upper deviation input weights input.persisted_margin_fitted_lots) _
          e in
      let checked =
        >>-eq-ok
          (check_products upper input.symbol_products (symbols_of current (nonzero_lots fitted.0)))
          _ fitted.2 in
      let margin =
        >>=-eq-ok (gross_fit upper deviation input current (nonzero_lots fitted.0)) _ checked.1 in
      frozen_stages-Ok Raw Scaled raw scaled margin.0 stages from_raw from_scaled
        (gross_fit-Capped (nonzero_lots fitted.0) margin.0
          (nonzero_lots-All (Capped max_lots) fitted.0
            (fitted_lots-Capped weights input.persisted_margin_fitted_lots fitted.0 fitted.1))
          margin.1)
        margin.2

module _ {F : Type 0} ⦃fl : FloatOps F⦄ (upper : String → String) (deviation : F → F → F)
    (input : StagesInput F) where
  -- The rows that some weight backs: its product is quoted in the row's symbol, and the lots are on the
  -- side of the weight and at most the cap.
  abbrev pub BackedBy : Dict String F → String × ℤ → Type 0
  BackedBy weights =
      Backed input.equity input.limits.max_contract_volume input.product_ticks input.specs weights

  -- Wherever `build_stress90_rebalance_stages` returns: every raw row is backed by a product weight and
  -- every scaled row by a scaled weight, on its side and at most the cap of a contract; the
  -- margin-fitted rows, the retained incumbents among them, are at most the cap; each of the three
  -- freezes carries only what its input has, the first of them the margin-fitted rows, on the same side
  -- and with no more lots; the final rows are at most the cap; and the plan reduces and opens what lies
  -- between the held and the final lots. Nothing is stated of the margin or gross fit between the
  -- scaled and the margin-fitted rows.
  pub build_stages-Ok :
      (stages : Stress90LotStages)
      → build_stress90_rebalance_stages upper deviation input ≡ ok stages
      → (weights : Dict String F) × (scale_stress90_product_weights upper input.product_weights
            input.live_risk_scale
          ≡ ok weights)
        × StagesOk input.limits.max_contract_volume
            (nonzero_lots input.current_lots)
            (BackedBy input.product_weights)
            (BackedBy weights)
            stages
  unfolding build_stress90_rebalance_stages
  build_stages-Ok stages e =
      let max_lots = input.limits.max_contract_volume in
      let gross = >>-eq-ok (raise_if (bad_gross_limit input.max_gross_leverage) bad_limit) _ e in
      let capped = >>-eq-ok (raise_if (bad_cap max_lots) bad_limit) _ gross.1 in
      let weights =
        >>=-eq-ok (scale_stress90_product_weights upper input.product_weights input.live_risk_scale)
          _ capped.1 in
      let raw =
        >>=-eq-ok
          (build_target_lots input.equity input.product_weights input.product_ticks input.specs
            max_lots)
          _ weights.2 in
      let scaled =
        >>=-eq-ok
          (build_target_lots input.equity weights.0 input.product_ticks input.specs max_lots) _
          raw.2 in
      let ticks = input.product_ticks in
      (
        weights.0,
        weights.1,
        stages_from-Ok upper deviation input
            (positive_cap max_lots (raise_if-eq-ok (bad_cap max_lots) bad_limit capped.0))
            (BackedBy input.product_weights) (BackedBy weights.0) raw.0 scaled.0 weights.0 stages
            (build_target_lots-Backed input.equity max_lots ticks input.specs input.product_weights
              raw.0 raw.1)
            (build_target_lots-Backed input.equity max_lots ticks input.specs weights.0 scaled.0
              scaled.1)
            scaled.2,
      )

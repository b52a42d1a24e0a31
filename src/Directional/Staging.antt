-- ===== src/Directional/Staging.antt =====
-- `build_stress90_rebalance_stages` of directional_stress90_planner.py, in the order of the
-- code: the fit, the three freezes, the plan and its categories.
use afuture.Prelude.{String, Option, none, some, [], known, map, Result, ok, ◌>>=◌, ◌>>◌, raise_if}
use afuture.Prelude.Sets.{sorted_set}
use afuture.Dict.{Dict, string_eq}
use afuture.Float.{FloatOps}
use afuture.Models.{Error, bad_limit}
use afuture.Directional.{Lots, nonzero_lots, symbols_of, rebalance_from_lots}
use afuture.Directional.Budget.{fit_target_lots_to_margin_budget}
use afuture.Directional.Targets.{build_target_lots}
use afuture.Directional.Products.{check_products}
use afuture.Directional.Categories.{action_categories}
use afuture.Directional.Freeze.{update}
use afuture.Directional.Frozen.{freeze_new_risk_target}
use afuture.Directional.Margin.{by_symbol, build_margin_aware_target_lots}
use afuture.Directional.Scaling.{scale_stress90_product_weights}
use afuture.Directional.Unavailable.{retain_products, available_rows, candidate_signs}
use afuture.Directional.Stages.{
  StagesInput, Stress90LotStages, cap_rows, no_evidence, evidence_of, gross_budget, update_ticks,
  freeze_notionals, known_ticks, freeze_input, bad_gross_limit, bad_cap, some_named, stage_limits,
}

module _ {F : Type 0} ⦃fl : FloatOps F⦄ (upper : String → String) (deviation : F → F → F) where
  -- The lots that fit the margin, or those that an earlier pass persisted.
  abbrev pub fitted_lots : StagesInput F → Dict String F → Option Lots → Result Error Lots
  fitted_lots input scaled_weights (some persisted) =
      ok (cap_rows input.limits.max_contract_volume (nonzero_lots persisted))
  fitted_lots input scaled_weights none =
      build_margin_aware_target_lots deviation input.equity scaled_weights input.product_ticks
        input.specs (stage_limits input.limits) input.current_lots

  -- The incumbent lots of products without complete mechanics.
  abbrev pub retained_lots : StagesInput F → Lots → Lots → Lots
  retained_lots input current margin_target =
      retain_products upper input.symbol_products input.limits.max_contract_volume
        (known input.persisted_margin_fitted_lots) (candidate_signs upper input.product_weights [])
        current margin_target (sorted_set (map upper input.unavailable_products)) []

  -- The margin target inside the gross limit, with the retained lots.
  unfoldable pub gross_fit : StagesInput F → Lots → Lots → Result Error Lots
  unfolding evidence_of retain_products candidate_signs update update_ticks by_symbol
  gross_fit input current margin_target =
      let retained = retained_lots input current margin_target in
      let target =
        available_rows upper input.symbol_products (map upper input.unavailable_products)
          margin_target in
      evidence_of target retained (known_ticks input) input.specs (update retained target)
        no_evidence
      >>= λ evidence.
          fit_target_lots_to_margin_budget target evidence.notionals
            (gross_budget input.equity input.max_gross_leverage evidence)
          >>= λ fitted. ok (update retained fitted)

  -- The three freezes, one after the other.
  unfoldable pub frozen : StagesInput F → Lots → Lots → Result Error (Lots × Lots × Lots)
  unfolding freeze_notionals update_ticks by_symbol freeze_new_risk_target
  frozen input current margin_target =
      let blocked = map upper input.entry_blocked_products in
      freeze_new_risk_target upper
        (freeze_input input current margin_target input.drawdown_reserve_freeze none)
      >>= λ drawdown.
          freeze_new_risk_target upper
            (freeze_input input current drawdown input.concentration_freeze none)
          >>= λ hhi.
              freeze_new_risk_target upper
                (freeze_input input current hhi (some_named blocked) (some blocked))
              >>= λ final. ok (drawdown, hhi, final)

  abbrev pub stages_after :
      StagesInput F → Lots → Lots → Lots → Lots × Lots × Lots → Result Error Stress90LotStages
  stages_after input raw scaled margin_target (drawdown, hhi, final) =
      let current = nonzero_lots input.current_lots in
      action_categories upper current final input.symbol_products
        input.authorized_transition_products input.authorized_transition_kinds
      >>= λ categories. ok (record {
        raw_integer_lots = nonzero_lots raw;
        scaled_integer_lots = nonzero_lots scaled;
        margin_fitted_lots = margin_target;
        drawdown_frozen_lots = drawdown;
        hhi_frozen_lots = hhi;
        final_frozen_lots = final;
        plan = rebalance_from_lots current final;
        categories = categories;
      })

  -- What follows the two integer targets.
  unfoldable pub stages_from :
      StagesInput F → Lots → Lots → Dict String F → Result Error Stress90LotStages
  unfolding cap_rows build_margin_aware_target_lots gross_fit frozen check_products
      action_categories rebalance_from_lots nonzero_lots
  stages_from input raw scaled scaled_weights =
      let current = nonzero_lots input.current_lots in
      fitted_lots input scaled_weights input.persisted_margin_fitted_lots >>= λ fitted.
      check_products upper input.symbol_products (symbols_of current (nonzero_lots fitted))
      >> (gross_fit input current (nonzero_lots fitted) >>= λ margin_target.
          frozen input current margin_target >>= stages_after input raw scaled margin_target)

  -- `build_stress90_rebalance_stages`
  unfoldable pub build_stress90_rebalance_stages : StagesInput F → Result Error Stress90LotStages
  unfolding scale_stress90_product_weights build_target_lots stages_from
  build_stress90_rebalance_stages input =
      let max_lots = input.limits.max_contract_volume in
      raise_if (bad_gross_limit input.max_gross_leverage) bad_limit
      >> (raise_if (bad_cap max_lots) bad_limit
          >> (scale_stress90_product_weights upper input.product_weights input.live_risk_scale
              >>= λ scaled_weights.
                  build_target_lots input.equity input.product_weights input.product_ticks
                    input.specs max_lots
                  >>= λ raw.
                      build_target_lots input.equity scaled_weights input.product_ticks input.specs
                        max_lots
                      >>= λ scaled. stages_from input raw scaled scaled_weights))

-- ===== src/Tests/Directionals.antt =====
-- Targets, freezes and plans of the directional policies on concrete lots.
use afuture.Prelude.{String, true, false, ◌≡◌, refl, arith, none, some, [], ◌∷◌, All, ok, Result}
use afuture.Prelude.Int.{ℤ, pos, negsuc, ◌+ℤ◌, ◌-ℤ◌, ◌*ℤ◌}
use afuture.Dict.{Dict, string_eq, lookup, insert}
use afuture.Models.{Error}
use afuture.Directional.{
  Lots, lots_at, nonzero_lots, net_lots, build_rebalance_plan, rebalance_from_lots, rebalance_all,
}
use afuture.Prelude.Sets.{sorted_set, place}
use afuture.Directional.Passes.{
  Steps, build_rebalance_plan-Steps, Filled, rebalance_from_lots_twice,
}
use afuture.Directional.Agree.{SamePlan, build_rebalance_plan-eq-rebalance_from_lots}
use afuture.Directional.Budget.{
  demand_of, fit_all, sort_candidates, place_candidate, grow_all, signed_lots, fit_scaled,
  fit_demand, fit_target_lots_to_margin_budget,
}
use afuture.Directional.Fitted.{EachWithin, fit_target_lots-EachWithin}
use afuture.Directional.Targets.{build_target_lots, target_all, Backed, build_target_lots-Backed}
use afuture.Directional.Products.{check_products, upper_keys}
use afuture.Directional.Freeze.{FreezeInput, freeze_blocked, update, cap_target, per_lot_of}
use afuture.Directional.Frozen.{freeze_products, freeze_triggered, freeze_new_risk_target}
use afuture.Directional.Carried.{Carried}
use afuture.Directional.Freezes.{freeze_new_risk_target-Carried, freeze_new_risk_target-Authorized}
use afuture.Directional.Entries.{Elsewhere, freeze_new_risk_target-Elsewhere}
use afuture.Directional.Puts.{put_all}
use afuture.Directional.Categories.{
  Classified, facts_of, action_categories, action_categories-Classified,
}
use afuture.Directional.Margin.{by_symbol}
use afuture.Directional.Scaling.{scale_all, scale_stress90_product_weights}
use afuture.Directional.Unavailable.{retain_products, candidate_signs}
use afuture.Directional.Stages.{
  StagesInput, Stress90LotStages, cap_rows, evidence_of, update_ticks, freeze_notionals,
}
use afuture.Directional.Staging.{gross_fit, frozen, stages_from, build_stress90_rebalance_stages}
use afuture.Directional.Chain.{StagesOk, BackedBy, build_stages-Ok}
use afuture.Tests.Numbers.{whole}
use afuture.Tests.Positions.{held}
use afuture.Tests.Sims.{rebar, quote}

-- Long three of rebar, short two of copper; the target reverses copper, adds to rebar and enters zinc.
abbrev current_lots : Lots
current_lots = ("rb2501", pos 3) ∷ ("cu2501", negsuc 1) ∷ []

abbrev target_lots : Lots
target_lots = ("rb2501", pos 5) ∷ ("cu2501", pos 1) ∷ ("zn2501", negsuc 0) ∷ []

build_rebalance_plan-Steps_example :
    Steps
      (lots_at "rb2501" (net_lots (held ∷ []) []))
      (pos 5)
      (build_rebalance_plan (held ∷ []) target_lots)
      "rb2501"
unfolding lookup
build_rebalance_plan-Steps_example = build_rebalance_plan-Steps (held ∷ []) target_lots "rb2501"

build_rebalance_plan-eq-rebalance_from_lots_example :
    SamePlan
      (build_rebalance_plan (held ∷ []) target_lots)
      (rebalance_from_lots (net_lots (held ∷ []) []) target_lots)
unfolding lookup
build_rebalance_plan-eq-rebalance_from_lots_example =
    build_rebalance_plan-eq-rebalance_from_lots (held ∷ []) target_lots (refl, (refl, (refl, tt)))

-- A reversal takes two passes: the long three are closed, then the short two are opened.
first-Filled :
    Filled
      (rebalance_from_lots (("rb2501", pos 3) ∷ []) (("rb2501", negsuc 1) ∷ []))
      (("rb2501", pos 3) ∷ [])
      []
unfolding rebalance_from_lots rebalance_all nonzero_lots sorted_set place lookup insert ◌+ℤ◌ ◌-ℤ◌
first-Filled s = ground arith

second-Filled :
    Filled (rebalance_from_lots [] (("rb2501", negsuc 1) ∷ [])) [] (("rb2501", negsuc 1) ∷ [])
unfolding rebalance_from_lots rebalance_all nonzero_lots sorted_set place lookup insert ◌+ℤ◌ ◌-ℤ◌
second-Filled s = ground arith

rebalance_from_lots_twice_example :
    lots_at "rb2501" (nonzero_lots (("rb2501", negsuc 1) ∷ []))
    ≡ lots_at "rb2501" (nonzero_lots (("rb2501", negsuc 1) ∷ []))
rebalance_from_lots_twice_example =
    rebalance_from_lots_twice (("rb2501", pos 3) ∷ []) [] (("rb2501", negsuc 1) ∷ [])
      (("rb2501", negsuc 1) ∷ []) first-Filled second-Filled "rb2501"

-- A budget of 300 for lots of 100 and 200: one lot of rebar is left of five.
abbrev lot_costs : Dict String ℤ
lot_costs = ("rb2501", pos 100) ∷ ("cu2501", pos 200) ∷ ("zn2501", pos 150) ∷ []

fitted_run :
    fit_target_lots_to_margin_budget (("rb2501", pos 5) ∷ []) lot_costs (pos 300)
    ≡ ok (("rb2501", pos 1) ∷ [])
unfolding fit_target_lots_to_margin_budget demand_of fit_demand fit_scaled fit_all sort_candidates
    place_candidate grow_all signed_lots sorted_set place lookup insert ◌+ℤ◌ ◌-ℤ◌ ◌*ℤ◌
fitted_run = refl

fit_target_lots-EachWithin_example : EachWithin (("rb2501", pos 5) ∷ []) (("rb2501", pos 1) ∷ [])
fit_target_lots-EachWithin_example =
    fit_target_lots-EachWithin (("rb2501", pos 5) ∷ []) lot_costs (pos 300) (("rb2501", pos 1) ∷ [])
      fitted_run

-- An equity of 3000 in rebar at ten points a tick: thirty lots, and the cap leaves two of them.
targets_run :
    build_target_lots
      (pos 30000)
      (("RB", pos 1) ∷ [])
      (("RB", quote) ∷ [])
      (("rb2501", rebar) ∷ [])
      (pos 2)
    ≡ ok (("rb2501", pos 2) ∷ [])
unfolding build_target_lots target_all lookup insert ◌+ℤ◌ ◌-ℤ◌ ◌*ℤ◌
targets_run = refl

build_target_lots-Backed_example :
    All
      (Backed
        (pos 30000)
        (pos 2)
        (("RB", quote) ∷ [])
        (("rb2501", rebar) ∷ [])
        (("RB", pos 1) ∷ []))
      (("rb2501", pos 2) ∷ [])
build_target_lots-Backed_example =
    build_target_lots-Backed (pos 30000) (pos 2) (("RB", quote) ∷ []) (("rb2501", rebar) ∷ [])
      (("RB", pos 1) ∷ []) (("rb2501", pos 2) ∷ []) targets_run

-- Long three of rebar, with a target that adds to rebar and enters zinc; both are blocked.
abbrev products : Dict String String
products = ("rb2501", "RB") ∷ ("zn2501", "ZN") ∷ []

abbrev frozen_input : FreezeInput ℤ
frozen_input = record {
  current_lots = ("rb2501", pos 3) ∷ [];
  target_lots = ("rb2501", pos 5) ∷ ("zn2501", negsuc 0) ∷ [];
  symbol_products = products;
  triggered = true;
  blocked_products = none;
  authorized_transition_products = [];
  authorized_transition_kinds = [];
  replacement_notionals = [];
  lot_notionals = lot_costs;
  persisted_authorized = some (("rb2501", pos 4) ∷ ("zn2501", negsuc 0) ∷ []);
}

frozen_run : freeze_new_risk_target (λ s. s) frozen_input ≡ ok (("rb2501", pos 1) ∷ [])
unfolding freeze_new_risk_target freeze_triggered freeze_products freeze_blocked check_products
    upper_keys update cap_target nonzero_lots per_lot_of fit_target_lots_to_margin_budget demand_of
    fit_demand fit_scaled fit_all sort_candidates place_candidate grow_all signed_lots sorted_set
    place lookup insert ◌+ℤ◌ ◌-ℤ◌ ◌*ℤ◌
frozen_run = refl

freeze_new_risk_target-Carried_example :
    All (Carried (("rb2501", pos 5) ∷ ("zn2501", negsuc 0) ∷ [])) (("rb2501", pos 1) ∷ [])
freeze_new_risk_target-Carried_example =
    freeze_new_risk_target-Carried (λ s. s) frozen_input (("rb2501", pos 1) ∷ []) frozen_run

freeze_new_risk_target-Authorized_example :
    All (Carried (("rb2501", pos 4) ∷ ("zn2501", negsuc 0) ∷ [])) (("rb2501", pos 1) ∷ [])
freeze_new_risk_target-Authorized_example =
    freeze_new_risk_target-Authorized (λ s. s) frozen_input
      (("rb2501", pos 4) ∷ ("zn2501", negsuc 0) ∷ []) (("rb2501", pos 1) ∷ []) refl frozen_run

freeze_new_risk_target-Elsewhere_example :
    All (Elsewhere (λ s. s) frozen_input "ZN") (("rb2501", pos 1) ∷ [])
unfolding upper_keys nonzero_lots lookup
freeze_new_risk_target-Elsewhere_example =
    freeze_new_risk_target-Elsewhere (λ s. s) frozen_input "ZN" (("rb2501", pos 1) ∷ []) refl refl
      refl refl frozen_run

-- Rebar is reduced, copper is left, and zinc is entered.
abbrev three_products : Dict String String
three_products = ("cu2501", "CU") ∷ products

abbrev held_two : Lots
held_two = ("rb2501", pos 3) ∷ ("cu2501", negsuc 1) ∷ []

abbrev wanted_two : Lots
wanted_two = ("rb2501", pos 1) ∷ ("zn2501", pos 2) ∷ []

abbrev named : Dict String String
named = ("cu2501", "exit") ∷ ("rb2501", "reduction") ∷ ("zn2501", "entry") ∷ []

categories_run : action_categories (λ s. s) held_two wanted_two three_products [] [] ≡ ok named
unfolding action_categories check_products upper_keys put_all nonzero_lots sorted_set place lookup
    insert ◌+ℤ◌ ◌-ℤ◌
categories_run = refl

action_categories-Classified_example :
    Classified
      (facts_of
        (λ s. s)
        three_products
        []
        []
        (nonzero_lots held_two)
        (nonzero_lots wanted_two)
        "cu2501")
      (lots_at "cu2501" (nonzero_lots held_two))
      (lots_at "cu2501" (nonzero_lots wanted_two))
      (rebalance_from_lots held_two wanted_two)
      "cu2501"
      (lookup "cu2501" named)
action_categories-Classified_example =
    action_categories-Classified (λ s. s) held_two wanted_two three_products [] [] named "cu2501"
      categories_run

-- A pass that holds three lots of rebar, persisted five, and may hold at most four of a contract.
abbrev pass : StagesInput ℤ
pass = record {
  equity = pos 30000;
  product_weights = ("RB", pos 1) ∷ [];
  product_ticks = ("RB", quote) ∷ [];
  live_risk_scale = pos 1;
  specs = ("rb2501", rebar) ∷ [];
  incumbent_ticks = [];
  current_lots = ("rb2501", pos 3) ∷ [];
  symbol_products = products;
  max_gross_leverage = pos 2;
  limits = record {
    max_contract_volume = pos 4;
    max_margin_ratio = pos 1;
    min_available_ratio = pos 0;
    max_daily_loss_ratio = pos 1;
    margin_estimate_buffer = pos 1;
    completed_returns = [];
  };
  drawdown_reserve_freeze = true;
  concentration_freeze = false;
  unavailable_products = [];
  entry_blocked_products = "RB" ∷ [];
  authorized_transition_products = [];
  authorized_transition_kinds = [];
  replacement_notionals = [];
  persisted_margin_fitted_lots = some (("rb2501", pos 5) ∷ []);
  persisted_freeze_authorized_lots = none;
}

abbrev rebar_lots : ℤ → Lots
rebar_lots n = ("rb2501", n) ∷ []

abbrev stages : Stress90LotStages
stages = record {
  raw_integer_lots = rebar_lots (pos 4);
  scaled_integer_lots = rebar_lots (pos 4);
  margin_fitted_lots = rebar_lots (pos 4);
  drawdown_frozen_lots = rebar_lots (pos 1);
  hhi_frozen_lots = rebar_lots (pos 1);
  final_frozen_lots = rebar_lots (pos 1);
  plan = record { reductions = rebar_lots (negsuc 1); openings = [] };
  categories = ("rb2501", "reduction") ∷ [];
}

abbrev staged : Result Error Stress90LotStages
staged = build_stress90_rebalance_stages (λ s. s) (λ a b. a -ℤ b) pass

staged_run : staged ≡ ok stages
unfolding build_stress90_rebalance_stages scale_stress90_product_weights scale_all stages_from
    cap_rows gross_fit evidence_of retain_products candidate_signs update_ticks by_symbol frozen
    freeze_notionals action_categories put_all rebalance_from_lots rebalance_all build_target_lots
    target_all freeze_new_risk_target freeze_triggered freeze_products freeze_blocked check_products
    upper_keys update cap_target nonzero_lots per_lot_of fit_target_lots_to_margin_budget demand_of
    fit_demand fit_scaled fit_all sort_candidates place_candidate grow_all signed_lots sorted_set
    place lookup insert ◌+ℤ◌ ◌-ℤ◌ ◌*ℤ◌
staged_run = refl

build_stages-Ok_example :
    (weights : Dict String ℤ) × (scale_stress90_product_weights
        (λ s. s)
        pass.product_weights
        pass.live_risk_scale
      ≡ ok weights)
    × StagesOk
        (pos 4)
        (nonzero_lots (rebar_lots (pos 3)))
        (BackedBy (λ s. s) (λ a b. a -ℤ b) pass pass.product_weights)
        (BackedBy (λ s. s) (λ a b. a -ℤ b) pass weights)
        stages
build_stages-Ok_example = build_stages-Ok (λ s. s) (λ a b. a -ℤ b) pass stages staged_run

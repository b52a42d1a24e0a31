-- ===== src/Directional/Stages.antt =====
-- `build_stress90_rebalance_stages` of directional_stress90_planner.py: from product weights to the
-- frozen lots, the plan and its categories.
use afuture.Prelude.{
  String, Bool, true, false, not, ◌&&◌, Option, none, some, List, [], ◌∷◌, if◌then◌else◌, known,
  Result, ok, err, ◌>>=◌,
}
use afuture.Prelude.Int.{ℤ, pos, ltb_ℤ, leb_ℤ, abs_ℤ}
use afuture.Dict.{Dict, string_eq, lookup, insert}
use afuture.Float.{FloatOps, fzero, fmax}
use afuture.Models.{Error, missing_evidence, unpriced_position, ContractSpec, Tick}
use afuture.Economics.{mid_price}
use afuture.Directional.{Lots, RebalancePlan}
use afuture.Directional.Freeze.{FreezeInput}
use afuture.Directional.Margin.{MarginLimits, by_symbol}
use afuture.Directional.Unavailable.{capped_lots}

-- The keyword arguments of `build_stress90_rebalance_stages`; `limits` has the daily loss ratio that
-- the call of `build_margin_aware_target_lots` passes on.
pub record StagesInput (F : Type 0) : Type 0 where
  pub equity : F
  pub product_weights : Dict String F
  pub product_ticks : Dict String (Tick F)
  pub live_risk_scale : F
  pub specs : Dict String (ContractSpec F)
  pub incumbent_ticks : Dict String (Tick F)
  pub current_lots : Lots
  pub symbol_products : Dict String String
  pub max_gross_leverage : F
  pub limits : MarginLimits F
  pub drawdown_reserve_freeze : Bool
  pub concentration_freeze : Bool
  pub unavailable_products : List String
  pub entry_blocked_products : List String
  pub authorized_transition_products : List String
  pub authorized_transition_kinds : Dict String String
  pub replacement_notionals : Dict String F
  pub persisted_margin_fitted_lots : Option Lots
  pub persisted_freeze_authorized_lots : Option Lots

pub record Stress90LotStages : Type 0 where
  pub raw_integer_lots : Lots
  pub scaled_integer_lots : Lots
  pub margin_fitted_lots : Lots
  pub drawdown_frozen_lots : Lots
  pub hhi_frozen_lots : Lots
  pub final_frozen_lots : Lots
  pub plan : RebalancePlan
  pub categories : Dict String String

-- `{symbol: capped volume for symbol, volume in _lots(persisted).items()}`
unfoldable pub cap_rows : ℤ → Lots → Lots
cap_rows cap [] = []
cap_rows cap ((symbol, volume) ∷ rows) = (symbol, capped_lots cap volume) ∷ cap_rows cap rows

-- The gross evidence of the target: notionals per lot, and the gross that is retained, if known.
pub record GrossEvidence (F : Type 0) : Type 0 where
  pub notionals : Dict String F
  pub retained_gross : F
  pub retained_unknown : Bool

-- What the code refuses of the cap of a contract.
abbrev pub bad_cap : ℤ → Bool
bad_cap max_lots = not (ltb_ℤ (pos 0) max_lots && leb_ℤ max_lots (pos 35))

-- `bool(blocked)`
abbrev pub some_named : List String → Bool
some_named [] = false
some_named (_ ∷ _) = true

module _ {F : Type 0} ⦃fl : FloatOps F⦄ where
  abbrev pub no_evidence : GrossEvidence F
  no_evidence = record { notionals = []; retained_gross = fzero; retained_unknown = false }

  abbrev pub evidence_priced :
      Lots → String → ℤ → F → GrossEvidence F → Result Error (GrossEvidence F)
  evidence_priced target symbol volume notional evidence =
      if fl.le notional fzero
      then err unpriced_position
      else if known (lookup symbol target)
      then ok (record evidence { notionals = insert symbol notional evidence.notionals })
      else ok (record evidence {
        retained_gross =
            fl.add evidence.retained_gross (fl.mul (fl.of_int (abs_ℤ volume)) notional);
      })

  abbrev pub evidence_missing : Lots → String → GrossEvidence F → Result Error (GrossEvidence F)
  evidence_missing retained symbol evidence =
      if known (lookup symbol retained)
      then ok (record evidence { retained_unknown = true })
      else err missing_evidence

  abbrev pub evidence_row :
      Lots
      → Lots
      → String
      → ℤ
      → Option (Tick F)
      → Option (ContractSpec F)
      → GrossEvidence F
      → Result Error (GrossEvidence F)
  evidence_row target retained symbol volume none spec evidence =
      evidence_missing retained symbol evidence
  evidence_row target retained symbol volume (some tick) none evidence =
      evidence_missing retained symbol evidence
  evidence_row target retained symbol volume (some tick) (some spec) evidence =
      evidence_priced target symbol volume (fl.mul (mid_price tick) spec.multiplier) evidence

  unfoldable pub evidence_of :
      Lots
      → Lots
      → Dict String (Tick F)
      → Dict String (ContractSpec F)
      → Lots
      → GrossEvidence F
      → Result Error (GrossEvidence F)
  evidence_of target retained ticks specs [] evidence = ok evidence
  evidence_of target retained ticks specs ((symbol, volume) ∷ rows) evidence =
      evidence_row target retained symbol volume (lookup symbol ticks) (lookup symbol specs)
        evidence
      >>= evidence_of target retained ticks specs rows

  -- The gross that is left for the target.
  abbrev pub gross_budget : F → F → GrossEvidence F → F
  gross_budget equity gross_limit evidence =
      if evidence.retained_unknown
      then fzero
      else fmax fzero (fl.sub (fl.mul (fmax fzero equity) gross_limit) evidence.retained_gross)

  -- `ticks.update(more)`
  unfoldable pub update_ticks : Dict String (Tick F) → Dict String (Tick F) → Dict String (Tick F)
  update_ticks [] ticks = ticks
  update_ticks ((symbol, tick) ∷ more) ticks = update_ticks more (insert symbol tick ticks)

  abbrev freeze_row : String → Tick F → Option (ContractSpec F) → Dict String F → Dict String F
  freeze_row symbol tick none rest = rest
  freeze_row symbol tick (some spec) rest = (symbol, fl.mul (mid_price tick) spec.multiplier) ∷ rest

  -- `freeze_lot_notionals`
  unfoldable pub freeze_notionals :
      Dict String (ContractSpec F) → Dict String (Tick F) → Dict String F
  freeze_notionals specs [] = []
  freeze_notionals specs ((symbol, tick) ∷ ticks) =
      freeze_row symbol tick (lookup symbol specs) (freeze_notionals specs ticks)

  -- The ticks of the target products and of the incumbent symbols.
  abbrev pub known_ticks : StagesInput F → Dict String (Tick F)
  known_ticks input = update_ticks input.incumbent_ticks (by_symbol input.product_ticks [])

  -- The arguments of one of the three freezes.
  abbrev pub freeze_input :
      StagesInput F → Lots → Lots → Bool → Option (List String) → FreezeInput F
  freeze_input input current target triggered blocked = record {
    current_lots = current;
    target_lots = target;
    symbol_products = input.symbol_products;
    triggered = triggered;
    blocked_products = blocked;
    authorized_transition_products = input.authorized_transition_products;
    authorized_transition_kinds = input.authorized_transition_kinds;
    replacement_notionals = input.replacement_notionals;
    lot_notionals = freeze_notionals input.specs (known_ticks input);
    persisted_authorized = input.persisted_freeze_authorized_lots;
  }

  -- What the code refuses of the gross limit.
  abbrev pub bad_gross_limit : F → Bool
  bad_gross_limit limit = not (fl.lt fzero limit && fl.le limit (fl.of_int (pos 2)))

  -- `max(float(max_daily_loss_ratio), STRESS90_POLICY.daily_loss_ratio)`
  abbrev pub stage_limits : MarginLimits F → MarginLimits F
  stage_limits limits = record limits {
    max_daily_loss_ratio =
        fmax limits.max_daily_loss_ratio (fl.div (fl.of_int (pos 5)) (fl.of_int (pos 100)));
  }

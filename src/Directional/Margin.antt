-- ===== src/Directional/Margin.antt =====
-- `build_margin_aware_target_lots` and `adaptive_margin_sizing_share` of directional.py,
-- `stabilize_one_lot_increases` of directional_efficiency.py. The sample deviation of the statistics
-- library is a parameter.
use afuture.Prelude.{
  String, Bool, false, not, ◌&&◌, ◌||◌, ◌==◌, ◌+◌, Option, none, some, List, [], ◌∷◌, if◌then◌else◌,
  or_else, known, all, Result, ok, err, ◌>>=◌, ◌>>◌, raise_if,
}
use afuture.Prelude.Int.{ℤ, pos, eqb_ℤ, ltb_ℤ, abs_ℤ, magnitude}
use afuture.Dict.{Dict, string_eq, lookup, insert, keys}
use afuture.Float.{FloatOps, fzero, fmin, fmax, fabs, slack}
use afuture.Models.{Error, bad_limit, missing_evidence, unpriced_position, ContractSpec, Tick}
use afuture.Economics.{mid_price}
use afuture.Directional.{Lots, lots_at, nonzero_lots, opposed}
use afuture.Directional.Budget.{is_nil, fit_target_lots_to_margin_budget}
use afuture.Directional.Targets.{max_leverage, build_target_lots}

-- One round of the last loop of `stabilize_one_lot_increases`.
abbrev pub steady_lots : ℤ → ℤ → ℤ
steady_lots current target =
    if eqb_ℤ current (pos 0) || eqb_ℤ target (pos 0) || opposed current target
    then target
    else if magnitude target == (magnitude current + 1)
    then current
    else target

unfoldable pub steady_rows : Lots → Lots → Lots
steady_rows current [] = []
steady_rows current ((symbol, target) ∷ rows) =
    (symbol, steady_lots (lots_at symbol current) target) ∷ steady_rows current rows

-- The keyword arguments of `build_margin_aware_target_lots` that limit it.
pub record MarginLimits (F : Type 0) : Type 0 where
  pub max_contract_volume : ℤ
  pub max_margin_ratio : F
  pub min_available_ratio : F
  pub max_daily_loss_ratio : F
  pub margin_estimate_buffer : F
  pub completed_returns : List F

module _ {F : Type 0} where
  -- The last value, and the one before it.
  abbrev pub last_two : List F → Option (F × Option F)
  last_two [] = none
  last_two (x ∷ []) = some (x, none)
  last_two (x ∷ y ∷ []) = some (y, some x)
  last_two (x ∷ y ∷ z ∷ rest) = last_two (y ∷ z ∷ rest)

  -- `set(d).issubset(other)`
  abbrev pub covers : Dict String F → Lots → Bool
  covers other rows = all (λ symbol. known (lookup symbol other)) (keys rows)

module _ {F : Type 0} ⦃fl : FloatOps F⦄ where
  abbrev pub one : F
  one = fl.of_int (pos 1)

  -- `0 < x < 1`
  abbrev pub is_share : F → Bool
  is_share x = fl.lt fzero x && fl.lt x one

  abbrev pub shocked : F → F → F → F → F → F → F
  shocked hard_share conservative daily_loss_ratio trigger last_value sample_vol =
      let first_shock = fmax (fmax trigger (fabs last_value)) sample_vol in
      let shock = fmin (fmax first_shock trigger) daily_loss_ratio in
      let excess_shock = fmax fzero (fl.sub shock trigger) in
      let adaptive = fl.mul conservative (fl.sub one excess_shock) in
      fmin hard_share (fmax fzero (fmin conservative adaptive))

  abbrev pub share_after : (F → F → F) → F → F → F → F → Option (F × Option F) → F
  share_after deviation hard_share conservative daily_loss_ratio trigger none =
      fmin hard_share conservative
  share_after deviation hard_share conservative daily_loss_ratio trigger (some (last_value, none)) =
      shocked hard_share conservative daily_loss_ratio trigger last_value fzero
  share_after deviation hard_share conservative daily_loss_ratio trigger
        (some (last_value, some earlier)) =
      shocked hard_share conservative daily_loss_ratio trigger last_value
        (deviation earlier last_value)

  -- `adaptive_margin_sizing_share`
  unfoldable pub adaptive_margin_sizing_share :
      (F → F → F) → F → F → F → List F → F → Result Error F
  adaptive_margin_sizing_share deviation margin_ratio available_ratio daily_loss_ratio returns
        trigger =
      let hard_share = fmin margin_ratio (fl.sub one available_ratio) in
      let conservative = fmax fzero (fl.sub hard_share daily_loss_ratio) in
      raise_if (not (is_share margin_ratio)) bad_limit
      >> (raise_if (not (fl.le fzero available_ratio && fl.lt available_ratio one)) bad_limit
          >> (raise_if (not (is_share daily_loss_ratio)) bad_limit
              >> (raise_if (fl.le trigger fzero) bad_limit
                  >> ok (
                      share_after deviation hard_share conservative daily_loss_ratio trigger
                        (last_two returns)))))

  -- The margin and the gross of the incumbent lots; none where a row has no evidence.
  abbrev pub incumbent_row : F → F → ℤ → F × F → Option (F × F)
  incumbent_row margin notional volume (current_margin, current_gross) =
      if fl.le margin fzero || fl.le notional fzero
      then none
      else some (
        fl.add current_margin (fl.mul (fl.of_int (abs_ℤ volume)) margin),
        fl.add current_gross (fl.mul (fl.of_int (abs_ℤ volume)) notional),
      )

  abbrev pub incumbent_next : Option (F × F) → (F × F → Option (F × F)) → Option (F × F)
  incumbent_next none next = none
  incumbent_next (some totals) next = next totals

  unfoldable pub incumbent_totals : Lots → Dict String F → Dict String F → F × F → Option (F × F)
  incumbent_totals [] notionals margins totals = some totals
  incumbent_totals ((symbol, volume) ∷ rows) notionals margins totals =
      let skipped = incumbent_totals rows notionals margins totals in
      if eqb_ℤ volume (pos 0)
      then skipped
      else incumbent_next
          (incumbent_row (or_else (lookup symbol margins) fzero)
            (or_else (lookup symbol notionals) fzero) volume totals)
          (incumbent_totals rows notionals margins)

  abbrev pub inside_envelope : F → F → F → Option (F × F) → Bool
  inside_envelope equity soft_margin_share max_gross_ratio none = false
  inside_envelope equity soft_margin_share max_gross_ratio (some (margin, gross)) =
      not (fl.lt (fl.add (fl.mul equity soft_margin_share) slack) margin)
      && not (fl.lt (fl.add (fl.mul equity max_gross_ratio) slack) gross)

  -- `stabilize_one_lot_increases`
  unfoldable pub stabilize_one_lot_increases :
      Lots → Lots → Dict String F → Dict String F → F → F → F → Lots
  unfolding incumbent_totals steady_rows nonzero_lots
  stabilize_one_lot_increases current target notionals margins equity share ratio =
      let result = nonzero_lots target in
      if fl.le equity fzero
        || not (fl.le fzero share && fl.le share one)
        || fl.le ratio fzero
        || not (
            inside_envelope equity share ratio
              (incumbent_totals current notionals margins (fzero, fzero)))
      then result
      else nonzero_lots (steady_rows current result)

  -- `{tick.symbol: tick for tick in ticks.values()}`
  unfoldable pub by_symbol : Dict String (Tick F) → Dict String (Tick F) → Dict String (Tick F)
  by_symbol [] d = d
  by_symbol ((product, tick) ∷ ticks) d = by_symbol ticks (insert tick.symbol tick d)

  abbrev pub unit_margin : F → ℤ → Tick F → ContractSpec F → F
  unit_margin buffer volume tick spec =
      let rate = if ltb_ℤ (pos 0) volume then spec.margin_rate_long else spec.margin_rate_short in
      fl.mul (fl.mul (fl.mul (mid_price tick) spec.multiplier) rate) buffer

  abbrev pub margin_row : F → ℤ → Option (Tick F) → Option (ContractSpec F) → Result Error F
  margin_row buffer volume none spec = err missing_evidence
  margin_row buffer volume (some tick) none = err missing_evidence
  margin_row buffer volume (some tick) (some spec) =
      let margin = unit_margin buffer volume tick spec in
      if fl.le margin fzero then err unpriced_position else ok margin

  -- The loop that prices the margin of a lot of each requested symbol.
  unfoldable pub margins_of :
      F
      → Dict String (Tick F)
      → Dict String (ContractSpec F)
      → Lots
      → Dict String F
      → Result Error (Dict String F)
  margins_of buffer ticks specs [] margins = ok margins
  margins_of buffer ticks specs ((symbol, volume) ∷ rows) margins =
      margin_row buffer volume (lookup symbol ticks) (lookup symbol specs) >>= λ margin.
      margins_of buffer ticks specs rows (insert symbol margin margins)

  abbrev pub notional_row :
      String → Option (Tick F) → Option (ContractSpec F) → Dict String F → Dict String F
  notional_row symbol none spec rest = rest
  notional_row symbol (some tick) none rest = rest
  notional_row symbol (some tick) (some spec) rest =
      (symbol, fl.mul (mid_price tick) spec.multiplier) ∷ rest

  -- `lot_notionals`, of the symbols with a quote and a contract.
  unfoldable pub notionals_of :
      Dict String (Tick F) → Dict String (ContractSpec F) → Lots → Dict String F
  notionals_of ticks specs [] = []
  notionals_of ticks specs ((symbol, volume) ∷ rows) =
      notional_row symbol (lookup symbol ticks) (lookup symbol specs)
        (notionals_of ticks specs rows)

  -- The literal 0.03, the default volatility trigger.
  abbrev pub default_trigger : F
  default_trigger = fl.div (fl.of_int (pos 3)) (fl.of_int (pos 100))

  -- What follows the fit to the margin budget.
  abbrev pub stabilized : F → F → Lots → Dict String F → Dict String F → Lots → Lots
  stabilized equity share current notionals margins fitted =
      if is_nil current || not (covers notionals current) || not (covers margins current)
      then fitted
      else stabilize_one_lot_increases current fitted notionals margins equity share max_leverage

  abbrev pub margin_fit :
      (F → F → F)
      → F
      → Lots
      → Dict String (Tick F)
      → Dict String (ContractSpec F)
      → MarginLimits F
      → Lots
      → Result Error Lots
  margin_fit deviation equity requested ticks specs limits current =
      margins_of limits.margin_estimate_buffer ticks specs requested [] >>= λ margins.
      adaptive_margin_sizing_share deviation limits.max_margin_ratio limits.min_available_ratio
        limits.max_daily_loss_ratio limits.completed_returns default_trigger
      >>= λ share.
          fit_target_lots_to_margin_budget requested margins (fl.mul equity share) >>= λ fitted.
          ok (stabilized equity share current (notionals_of ticks specs requested) margins fitted)

  abbrev pub margin_aware :
      (F → F → F)
      → F
      → Dict String (Tick F)
      → Dict String (ContractSpec F)
      → MarginLimits F
      → Lots
      → Lots
      → Result Error Lots
  margin_aware deviation equity ticks specs limits current requested =
      if is_nil requested || fl.le equity fzero
      then ok []
      else if fl.lt limits.margin_estimate_buffer one
      then err bad_limit
      else margin_fit deviation equity requested (by_symbol ticks []) specs limits current

  -- `build_margin_aware_target_lots`
  unfoldable pub build_margin_aware_target_lots :
      (F → F → F)
      → F
      → Dict String F
      → Dict String (Tick F)
      → Dict String (ContractSpec F)
      → MarginLimits F
      → Lots
      → Result Error Lots
  unfolding margins_of notionals_of by_symbol stabilize_one_lot_increases
      adaptive_margin_sizing_share nonzero_lots
  build_margin_aware_target_lots deviation equity weights ticks specs limits current_lots =
      build_target_lots equity weights ticks specs limits.max_contract_volume
      >>= margin_aware deviation equity ticks specs limits (nonzero_lots current_lots)

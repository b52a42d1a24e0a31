-- ===== src/Directional/Budget.antt =====
-- `fit_target_lots_to_margin_budget` of directional.py.
use afuture.Prelude.{
  String, Bool, true, false, ◌||◌, List, [], ◌∷◌, ◌++◌, if◌then◌else◌, or_else, Result, ok, err,
  ◌>>=◌, ◌>>◌, raise_if,
}
use afuture.Prelude.Int.{ℤ, pos, ◌+ℤ◌, eqb_ℤ, ltb_ℤ, leb_ℤ, min_ℤ, abs_ℤ, neg_ℤ}
use afuture.Prelude.Text.{str_lt}
use afuture.Prelude.Sets.{sorted_set}
use afuture.Dict.{Dict, string_eq, lookup, insert, keys}
use afuture.Float.{FloatOps, fzero, slack}
use afuture.Models.{Error, bad_limit, unpriced_position, zero_division, not_finite}
use afuture.Directional.{Lots, lots_at}

-- The requested lots, their margins, and the margin of them all.
pub record Demand (F : Type 0) : Type 0 where
  pub requested : Lots
  pub margins : Dict String F
  pub total_margin : F

-- What is fitted: the magnitude of each symbol, the fractions left over, and the margin used.
pub record Fit (F : Type 0) : Type 0 where
  pub magnitudes : Lots
  pub candidates : List (F × String)
  pub used_margin : F

-- `{symbol: magnitude if requested[symbol] > 0 else -magnitude ... if magnitude > 0}`
unfoldable pub signed_lots : Lots → Lots → Lots
signed_lots requested [] = []
signed_lots requested ((symbol, magnitude) ∷ magnitudes) =
    let rest = signed_lots requested magnitudes in
    if ltb_ℤ (pos 0) magnitude
    then (symbol, if ltb_ℤ (pos 0) (lots_at symbol requested) then magnitude else neg_ℤ magnitude)
      ∷ rest
    else rest

-- `not rows`
abbrev pub is_nil : Lots → Bool
is_nil [] = true
is_nil (_ ∷ _) = false

module _ {F : Type 0} ⦃fl : FloatOps F⦄ where
  -- `math.floor`, which raises where there is no integer.
  abbrev pub floor_of : F → Result Error ℤ
  floor_of x = if fl.is_finite x then ok (fl.floor x) else err not_finite

  abbrev pub demand_symbol : String → ℤ → F → Demand F → Demand F
  demand_symbol symbol volume unit_margin demand = record {
    requested = insert symbol volume demand.requested;
    margins = insert symbol unit_margin demand.margins;
    total_margin = fl.add demand.total_margin (fl.mul (fl.of_int (abs_ℤ volume)) unit_margin);
  }

  -- The loop that reads the target.
  unfoldable pub demand_of : List String → Lots → Dict String F → Demand F → Result Error (Demand F)
  demand_of [] target per_lot_margin demand = ok demand
  demand_of (symbol ∷ symbols) target per_lot_margin demand =
      let volume = lots_at symbol target in
      let unit_margin = or_else (lookup symbol per_lot_margin) fzero in
      let skipped = demand_of symbols target per_lot_margin demand in
      let taken =
        demand_of symbols target per_lot_margin (demand_symbol symbol volume unit_margin demand) in
      if eqb_ℤ volume (pos 0)
      then skipped
      else if fl.le unit_margin fzero
      then err unpriced_position
      else taken

  abbrev pub fit_magnitude : String → F → ℤ → F → ℤ → Fit F → Fit F
  fit_magnitude symbol unit_margin magnitude ideal fitted fit = record {
    magnitudes = insert symbol fitted fit.magnitudes;
    candidates =
        if ltb_ℤ fitted magnitude
        then fit.candidates ++ (fl.sub ideal (fl.of_int fitted), symbol) ∷ []
        else fit.candidates;
    used_margin = fl.add fit.used_margin (fl.mul (fl.of_int fitted) unit_margin);
  }

  -- The loop that scales every symbol.
  unfoldable pub fit_all : List String → Demand F → F → Fit F → Result Error (Fit F)
  fit_all [] demand scale fit = ok fit
  fit_all (symbol ∷ symbols) demand scale fit =
      let magnitude = abs_ℤ (lots_at symbol demand.requested) in
      let unit_margin = or_else (lookup symbol demand.margins) fzero in
      let ideal = fl.mul (fl.of_int magnitude) scale in
      floor_of ideal >>= λ floored.
      fit_all symbols demand scale
        (fit_magnitude symbol unit_margin magnitude ideal (min_ℤ magnitude floored) fit)

  -- `(-a[0], a[1]) < (-b[0], b[1])`, as tuples compare.
  abbrev pub larger_fraction : F × String → F × String → Bool
  larger_fraction (x, s) (y, t) =
      if fl.eq (fl.neg x) (fl.neg y) then str_lt s t else fl.lt (fl.neg x) (fl.neg y)

  unfoldable pub place_candidate : F × String → List (F × String) → List (F × String)
  place_candidate c [] = c ∷ []
  place_candidate c (d ∷ ds) =
      let rest = place_candidate c ds in if larger_fraction d c then d ∷ rest else c ∷ d ∷ ds

  unfoldable pub sort_candidates : List (F × String) → List (F × String)
  sort_candidates [] = []
  sort_candidates (c ∷ cs) = place_candidate c (sort_candidates cs)

  -- One round of the loop that hands out the rest of the budget.
  abbrev pub grow : Demand F → F → String → Fit F → Fit F
  grow demand budget symbol fit =
      let unit_margin = or_else (lookup symbol demand.margins) fzero in
      let magnitude = lots_at symbol fit.magnitudes in
      if fl.lt (fl.add budget slack) (fl.add fit.used_margin unit_margin)
      then fit
      else if leb_ℤ (abs_ℤ (lots_at symbol demand.requested)) magnitude
      then fit
      else record fit {
        magnitudes = insert symbol (magnitude +ℤ pos 1) fit.magnitudes;
        used_margin = fl.add fit.used_margin unit_margin;
      }

  unfoldable pub grow_all : Demand F → F → List (F × String) → Fit F → Fit F
  grow_all demand budget [] fit = fit
  grow_all demand budget ((fraction, symbol) ∷ cs) fit =
      grow_all demand budget cs (grow demand budget symbol fit)

  abbrev pub no_demand : Demand F
  no_demand = record { requested = []; margins = []; total_margin = fzero }

  abbrev pub no_fit : Fit F
  no_fit = record { magnitudes = []; candidates = []; used_margin = fzero }

  -- The largest remainders get the rest of the budget.
  abbrev pub finish : Demand F → F → Fit F → Lots
  finish demand budget fit =
      signed_lots demand.requested
        (grow_all demand budget (sort_candidates fit.candidates) fit).magnitudes

  -- The target in proportion to the budget.
  unfoldable pub fit_scaled : Demand F → F → Result Error Lots
  unfolding fit_all sort_candidates grow_all signed_lots
  fit_scaled demand budget =
      fit_all (sorted_set (keys demand.requested)) demand (fl.div budget demand.total_margin) no_fit
      >>= λ fit. ok (finish demand budget fit)

  -- What follows the reading of the target.
  unfoldable pub fit_demand : Demand F → F → Result Error Lots
  unfolding fit_scaled
  fit_demand demand budget =
      if is_nil demand.requested || fl.eq budget fzero
      then ok []
      else if fl.le demand.total_margin (fl.add budget slack)
      then ok demand.requested
      else if fl.eq demand.total_margin fzero
      then err zero_division
      else fit_scaled demand budget

  unfoldable pub fit_target_lots_to_margin_budget : Lots → Dict String F → F → Result Error Lots
  unfolding demand_of fit_demand
  fit_target_lots_to_margin_budget target_lots per_lot_margin budget =
      raise_if (fl.lt budget fzero) bad_limit
      >> (demand_of (sorted_set (keys target_lots)) target_lots per_lot_margin no_demand
          >>= λ demand. fit_demand demand budget)

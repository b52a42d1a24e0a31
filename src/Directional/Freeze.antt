-- ===== src/Directional/Freeze.antt =====
-- `freeze_new_risk_target` of directional_stress90_planner.py. The case mapping `str.upper` is a
-- parameter.
use afuture.Prelude.{
  String, Bool, true, false, not, ◌&&◌, ◌||◌, ◌==◌, Option, none, some, List, [], ◌∷◌,
  if◌then◌else◌, or_else, any, all, length, Result, ok, err,
}
use afuture.Prelude.Int.{ℤ, pos, eqb_ℤ, ltb_ℤ, min_ℤ, abs_ℤ, neg_ℤ}
use afuture.Prelude.Text.{str_eq}
use afuture.Dict.{Dict, string_eq, lookup, insert}
use afuture.Float.{FloatOps, fzero}
use afuture.Models.{Error, opposing_lots}
use afuture.Directional.{Lots, lots_at, nonzero_lots, opposed}
use afuture.Directional.Budget.{is_nil, fit_target_lots_to_margin_budget}

-- The keyword arguments of `freeze_new_risk_target`; a mapping that is None is empty here, where the
-- code reads `mapping or {}`.
pub record FreezeInput (F : Type 0) : Type 0 where
  pub current_lots : Lots
  pub target_lots : Lots
  pub symbol_products : Dict String String
  pub triggered : Bool
  pub blocked_products : Option (List String)
  pub authorized_transition_products : List String
  pub authorized_transition_kinds : Dict String String
  pub replacement_notionals : Dict String F
  pub lot_notionals : Dict String F
  pub persisted_authorized : Option Lots

-- `(1 if sign > 0 else -1) * min(abs(a), abs(b))`
abbrev pub capped_like : ℤ → ℤ → ℤ → ℤ
capped_like sign a b =
    let lots = min_ℤ (abs_ℤ a) (abs_ℤ b) in if ltb_ℤ (pos 0) sign then lots else neg_ℤ lots

abbrev pub cap_row : String → ℤ → Option ℤ → Lots → Lots
cap_row symbol wanted none rest = rest
cap_row symbol wanted (some authorized) rest =
    if opposed wanted authorized
    then rest
    else (symbol, capped_like wanted wanted authorized) ∷ rest

-- The target that the persisted authorization covers.
unfoldable pub cap_target : Lots → Lots → Lots
cap_target authorized [] = []
cap_target authorized ((symbol, wanted) ∷ target) =
    cap_row symbol wanted (lookup symbol authorized) (cap_target authorized target)

abbrev pub authorized_target : Option Lots → Lots → Lots
authorized_target none target = target
authorized_target (some persisted) target = cap_target (nonzero_lots persisted) target

-- `result.update(rows)`
unfoldable pub update : Lots → Lots → Lots
update [] result = result
update ((symbol, volume) ∷ rows) result = update rows (insert symbol volume result)

abbrev pub updated : Result Error Lots → Lots → Result Error Lots
updated (ok rows) result = ok (update rows result)
updated (err e) result = err e

-- The set of the signs of the rows has both of its values.
abbrev pub two_sided : Lots → Bool
two_sided rows =
    any (λ (row : String × ℤ). ltb_ℤ (pos 0) row.1) rows
    && any (λ (row : String × ℤ). not (ltb_ℤ (pos 0) row.1)) rows

abbrev pub is_long : Lots → Bool
is_long rows = any (λ (row : String × ℤ). ltb_ℤ (pos 0) row.1) rows

-- `a == b` for dicts.
abbrev pub same_entry : Option ℤ → ℤ → Bool
same_entry none v = false
same_entry (some w) v = eqb_ℤ w v

abbrev pub same_rows : Lots → Lots → Bool
same_rows a b =
    (length a == length b) && all (λ (row : String × ℤ). same_entry (lookup row.0 b) row.1) a

-- The incumbent risk that the target still asks for, where no notional is known.
unfoldable pub keep_incumbent : Lots → Lots → Lots → Lots
keep_incumbent [] target_rows result = result
keep_incumbent ((symbol, have) ∷ current_rows) target_rows result =
    let wanted = lots_at symbol target_rows in
    keep_incumbent current_rows target_rows (
      if not (eqb_ℤ wanted (pos 0)) && not (opposed wanted have)
      then insert symbol (capped_like have have wanted) result
      else result)

module _ {F : Type 0} ⦃fl : FloatOps F⦄ where
  -- `value is None or not isfinite(value) or value <= 0.0`
  abbrev pub no_notional : Option F → Bool
  no_notional none = true
  no_notional (some value) = not (fl.is_finite value) || fl.le value fzero

  abbrev pub missing_notional : Dict String F → Lots → Bool
  missing_notional notionals rows =
      any (λ (row : String × ℤ). no_notional (lookup row.0 notionals)) rows

  -- `{symbol: notionals[symbol] for symbol in rows}`, where none is missing.
  unfoldable pub per_lot_of : Dict String F → Lots → Dict String F
  per_lot_of notionals [] = []
  per_lot_of notionals ((symbol, volume) ∷ rows) =
      (symbol, or_else (lookup symbol notionals) fzero) ∷ per_lot_of notionals rows

  -- `fit_authorized_replacement`
  unfoldable pub fit_authorized_replacement : Dict String F → Lots → F → Result Error Lots
  unfolding per_lot_of
  fit_authorized_replacement notionals rows replacement_budget =
      if missing_notional notionals rows
      then ok []
      else fit_target_lots_to_margin_budget rows (per_lot_of notionals rows) replacement_budget

  -- `target_rows if durable_replacement_budget is None else fit_authorized_replacement(...)`
  abbrev pub replacement : Dict String F → Lots → Option F → Result Error Lots
  replacement notionals target_rows none = ok target_rows
  replacement notionals target_rows (some budget) =
      fit_authorized_replacement notionals target_rows budget

  -- `sum(abs(volume) * per_lot[symbol])` over the incumbent rows.
  abbrev pub incumbent_notional : Dict String F → Lots → F → F
  incumbent_notional notionals [] total = total
  incumbent_notional notionals ((symbol, volume) ∷ rows) total =
      incumbent_notional notionals rows
        (fl.add total (fl.mul (fl.of_int (abs_ℤ volume)) (or_else (lookup symbol notionals) fzero)))

  -- The rows that a blocked product adds where it keeps its side.
  abbrev pub same_side : Dict String F → Lots → Lots → Option F → Lots → Result Error Lots
  same_side notionals current_rows target_rows (some budget) result =
      updated (fit_authorized_replacement notionals target_rows budget) result
  same_side notionals current_rows target_rows none result =
      if missing_notional notionals current_rows || missing_notional notionals target_rows
      then ok (keep_incumbent current_rows target_rows result)
      else updated
          (fit_target_lots_to_margin_budget target_rows (per_lot_of notionals target_rows)
            (incumbent_notional notionals current_rows fzero))
          result

  -- The round of the loop for a blocked product.
  unfoldable pub freeze_blocked :
      Dict String F → Bool → Option F → Lots → Lots → Lots → Result Error Lots
  unfolding update keep_incumbent fit_authorized_replacement per_lot_of
  freeze_blocked notionals authorized budget current_rows target_rows result =
      if is_nil target_rows
      then ok result
      else if is_nil current_rows
      then (if authorized
          then updated (replacement notionals target_rows budget) result
          else ok result)
      else if two_sided current_rows || two_sided target_rows
      then err opposing_lots
      else if not (if is_long current_rows then is_long target_rows else not (is_long target_rows))
      then updated (replacement notionals target_rows budget) result
      else if same_rows current_rows target_rows
      then ok (update target_rows result)
      else same_side notionals current_rows target_rows budget result

  -- A transition's budget that the code refuses.
  abbrev pub bad_budget : String × F → Bool
  bad_budget (product, value) = str_eq product "" || not (fl.is_finite value) || fl.le value fzero

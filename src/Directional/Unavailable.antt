-- ===== src/Directional/Unavailable.antt =====
-- The products without complete target mechanics in `build_stress90_rebalance_stages` of
-- directional_stress90_planner.py: their incumbent lots are kept, and nothing is opened in them.
use afuture.Prelude.{
  String, Bool, false, not, ◌&&◌, Option, none, some, List, [], ◌∷◌, if◌then◌else◌, keep,
}
use afuture.Prelude.Int.{ℤ, pos, ltb_ℤ, min_ℤ, abs_ℤ, neg_ℤ}
use afuture.Prelude.Sets.{member}
use afuture.Dict.{Dict, string_eq, lookup, insert}
use afuture.Float.{FloatOps, fzero, fabs}
use afuture.Directional.{Lots}
use afuture.Directional.Budget.{is_nil}
use afuture.Directional.Targets.{dust}
use afuture.Directional.Products.{product_of, rows_of}
use afuture.Directional.Freeze.{two_sided, is_long}

-- `(1 if volume > 0 else -1) * min(abs(volume), max_contract_volume)`
abbrev pub capped_lots : ℤ → ℤ → ℤ
capped_lots cap volume =
    let lots = min_ℤ (abs_ℤ volume) cap in if ltb_ℤ (pos 0) volume then lots else neg_ℤ lots

-- `retained`, for each incumbent row.
unfoldable pub retain_rows : ℤ → Lots → Lots → Lots
retain_rows cap [] kept = kept
retain_rows cap ((symbol, volume) ∷ rows) kept =
    retain_rows cap rows (insert symbol (capped_lots cap volume) kept)

-- The side of the target of a product: of its rows, or else of its weight; none where there is no side
-- or both.
abbrev pub target_side : Lots → Bool → Option Bool → Option Bool
target_side target_rows persisted candidate =
    if is_nil target_rows
    then (if persisted then none else candidate)
    else if two_sided target_rows
    then none
    else some (is_long target_rows)

-- Incumbent rows are retained where they have one side, which is that of the target.
abbrev pub retains : Lots → Option Bool → Bool
retains current_rows none = false
retains current_rows (some long) =
    not (is_nil current_rows)
    && not (two_sided current_rows)
    && (if is_long current_rows then long else not long)

module _ (upper : String → String) (symbol_products : Dict String String) where
  unfoldable pub retain_products :
      ℤ → Bool → Dict String Bool → Lots → Lots → List String → Lots → Lots
  unfolding retain_rows
  retain_products cap persisted candidates current target [] kept = kept
  retain_products cap persisted candidates current target (product ∷ products) kept =
      let current_rows = rows_of upper symbol_products product current in
      let target_rows = rows_of upper symbol_products product target in
      retain_products cap persisted candidates current target products (
        if retains current_rows (target_side target_rows persisted (lookup product candidates))
        then retain_rows cap current_rows kept
        else kept)

  -- `{symbol: volume ... if known_products[symbol] not in unavailable}`
  abbrev pub available_rows : List String → Lots → Lots
  available_rows unavailable rows =
      keep (λ (row : String × ℤ). not (member (product_of upper symbol_products row.0) unavailable))
        rows

module _ {F : Type 0} ⦃fl : FloatOps F⦄ (upper : String → String) where
  -- `candidate_signs`
  unfoldable pub candidate_signs : Dict String F → Dict String Bool → Dict String Bool
  candidate_signs [] signs = signs
  candidate_signs ((product, weight) ∷ weights) signs = candidate_signs weights (
      if fl.is_finite weight && fl.lt dust (fabs weight)
      then insert (upper product) (fl.lt fzero weight) signs
      else signs)

-- ===== src/Directional/Caps.antt =====
-- About the cap of a contract through the fit of the margin and of the gross.
use mathlib.Core.Path.{subst}
use afuture.Prelude.{
  String, Bool, true, false, not, ◌||◌, ◌≡◌, inl, inr, Bool-cases, arith, List, [], ◌∷◌,
  if◌then◌else◌, All, All-weaken, All-Some, Some-out, All-keep, ok, >>=-eq-ok, ok_inj,
}
use afuture.Prelude.Int.{ℤ, pos, ◌≤ℤ◌, ◌<ℤ◌, eqb_ℤ, min_ℤ, abs_ℤ, neg_ℤ, -ℤ_parts, min_ℤ_bounds}
use afuture.Dict.{Dict, string_eq, lookup, All-insert}
use afuture.Float.{FloatOps, fzero}
use afuture.Models.{ContractSpec, Tick}
use afuture.Directional.{Lots, lots_at, nonzero_lots}
use afuture.Directional.Budget.{is_nil, fit_target_lots_to_margin_budget}
use afuture.Directional.Fitted.{Within, EachWithin, fit_target_lots-EachWithin}
use afuture.Directional.Targets.{build_target_lots, Backs, Backed, build_target_lots-Backed}
use afuture.Directional.Products.{rows_of}
use afuture.Directional.Carried.{Carried, lots_at-Carried, NonZero}
use afuture.Directional.Rounds.{nonzero_lots-All}
use afuture.Directional.Margin.{
  steady_lots, steady_rows, stabilize_one_lot_increases, stabilized, MarginLimits, margin_aware,
  margin_fit, by_symbol, margins_of, adaptive_margin_sizing_share, covers, default_trigger, one,
  notionals_of, build_margin_aware_target_lots,
}
use afuture.Directional.Unavailable.{
  capped_lots, retain_rows, retain_products, retains, target_side,
}
use afuture.Directional.Stages.{cap_rows}

-- At least one lot, and at most the cap.
abbrev pub Capped : ℤ → String × ℤ → Type 0
Capped max_lots row = (pos 0 <ℤ abs_ℤ row.1) × (abs_ℤ row.1 ≤ℤ max_lots)

Within-Capped :
    (max_lots w v : ℤ)
    → abs_ℤ w ≤ℤ max_lots
    → Within w v
    → (pos 0 <ℤ abs_ℤ v) × (abs_ℤ v ≤ℤ max_lots)
Within-Capped max_lots w v h k = ground (arith, h, k)

side_Capped :
    (max_lots v : ℤ) (long : Bool)
    → pos 0 <ℤ max_lots
    → Within (if long then max_lots else neg_ℤ max_lots) v
    → (pos 0 <ℤ abs_ℤ v) × (abs_ℤ v ≤ℤ max_lots)
side_Capped max_lots v true k h = ground (arith, h)
side_Capped max_lots v false k h = ground (arith, h, k, -ℤ_parts (pos 0) max_lots)

pub Carried-Capped :
    (max_lots : ℤ) (rows : Lots) (entry : String × ℤ)
    → All (Capped max_lots) rows
    → Carried rows entry
    → Capped max_lots entry
Carried-Capped max_lots rows entry h c =
    All-Some (Capped max_lots) (λ (row : String × ℤ). (row.0 ≡ entry.0) × Within row.1 entry.1)
      (Capped max_lots entry) rows (λ row k w. Within-Capped max_lots row.1 entry.1 k.1 w.1) h c

pub fitted_Capped :
    (max_lots : ℤ) (rows lots : Lots)
    → All (Capped max_lots) rows
    → EachWithin rows lots
    → All (Capped max_lots) lots
fitted_Capped max_lots rows lots h w =
    All-weaken (λ (row : String × ℤ). Within (lots_at row.0 rows) row.1) (Capped max_lots) lots
      (λ row k. Carried-Capped max_lots rows row h (lots_at-Carried rows row.0 row.1 k)) w

steady_lots-Capped :
    (max_lots current target : ℤ)
    → (pos 0 <ℤ abs_ℤ target) × (abs_ℤ target ≤ℤ max_lots)
    → (pos 0 <ℤ abs_ℤ (steady_lots current target))
      × (abs_ℤ (steady_lots current target) ≤ℤ max_lots)
steady_lots-Capped max_lots current target h = ground (arith, h)

steady_rows-Capped :
    (max_lots : ℤ) (current rows : Lots)
    → All (Capped max_lots) rows
    → All (Capped max_lots) (steady_rows current rows)
unfolding steady_rows
steady_rows-Capped max_lots current [] h = tt
steady_rows-Capped max_lots current ((s, t) ∷ rows) h = (
  steady_lots-Capped max_lots (lots_at s current) t h.0,
  steady_rows-Capped max_lots current rows h.1,
)

capped_lots-Capped :
    (max_lots v : ℤ)
    → pos 0 <ℤ max_lots
    → eqb_ℤ v (pos 0) ≡ false
    → (pos 0 <ℤ abs_ℤ (capped_lots max_lots v)) × (abs_ℤ (capped_lots max_lots v) ≤ℤ max_lots)
capped_lots-Capped max_lots v h k =
    ground (arith, min_ℤ_bounds (abs_ℤ v) max_lots, -ℤ_parts (pos 0) (min_ℤ (abs_ℤ v) max_lots))

pub cap_rows-Capped :
    (max_lots : ℤ) (rows : Lots)
    → pos 0 <ℤ max_lots
    → NonZero rows
    → All (Capped max_lots) (cap_rows max_lots rows)
unfolding cap_rows
cap_rows-Capped max_lots [] h k = tt
cap_rows-Capped max_lots ((s, v) ∷ rows) h k =
    (capped_lots-Capped max_lots v h k.0, cap_rows-Capped max_lots rows h k.1)

retain_rows-Capped :
    (max_lots : ℤ) (rows kept : Lots)
    → pos 0 <ℤ max_lots
    → NonZero rows
    → All (Capped max_lots) kept
    → All (Capped max_lots) (retain_rows max_lots rows kept)
unfolding retain_rows
retain_rows-Capped max_lots [] kept h k c = c
retain_rows-Capped max_lots ((s, v) ∷ rows) kept h k c = retain_rows-Capped max_lots rows _ h k.1 (
    All-insert (Capped max_lots) s (capped_lots max_lots v) kept
      (capped_lots-Capped max_lots v h k.0) c)

pub retain_products-Capped :
    (upper : String → String) (symbol_products : Dict String String) (max_lots : ℤ)
    (persisted : Bool) (candidates : Dict String Bool) (current target : Lots)
    (products : List String) (kept : Lots)
    → pos 0 <ℤ max_lots
    → NonZero current
    → All (Capped max_lots) kept
    → All (Capped max_lots) (
        retain_products upper symbol_products max_lots persisted candidates current target products
          kept)
unfolding retain_products
retain_products-Capped upper products_of max_lots persisted candidates current target [] kept h k
      c =
    c
retain_products-Capped upper products_of max_lots persisted candidates current target
      (product ∷ products) kept h k c =
    let current_rows = rows_of upper products_of product current in
    let target_rows = rows_of upper products_of product target in
    retain_products-Capped upper products_of max_lots persisted candidates current target products _
      h k
      (elim (Bool-cases
        (retains current_rows (target_side target_rows persisted (lookup product candidates)))) [
          | inl retained ↦ rw retained (
              retain_rows-Capped max_lots current_rows kept h
                (All-keep (λ (row : String × ℤ). eqb_ℤ row.1 (pos 0) ≡ false)
                  (λ (row : String × ℤ). eqb_ℤ row.1 (pos 0) ≡ false) _ current (λ row t n. n) k)
                c)
          | inr dropped ↦ rw dropped c
        ])

chosen_All :
    (P : String × ℤ → Type 0) (b : Bool) (x y : Lots)
    → All P x
    → All P y
    → All P (if b then x else y)
chosen_All P true x y h k = h
chosen_All P false x y h k = k

module _ {F : Type 0} ⦃fl : FloatOps F⦄ where
  targets_Capped :
      (equity : F) (max_lots : ℤ) (weights : Dict String F) (ticks : Dict String (Tick F))
      (specs : Dict String (ContractSpec F)) (lots : Lots)
      → pos 0 <ℤ max_lots
      → build_target_lots equity weights ticks specs max_lots ≡ ok lots
      → All (Capped max_lots) lots
  targets_Capped equity max_lots weights ticks specs lots positive e =
      All-weaken (Backed equity max_lots ticks specs weights) (Capped max_lots) lots
        (λ row b.
          Some-out (Backs equity max_lots ticks specs row) (Capped max_lots row) weights
            (λ entry k. side_Capped max_lots row.1 (fl.lt fzero entry.1) positive k.3) b)
        (build_target_lots-Backed equity max_lots ticks specs weights lots e)

  stabilized-Capped :
      (equity share : F) (max_lots : ℤ) (current fitted : Lots) (notionals margins : Dict String F)
      → All (Capped max_lots) fitted
      → All (Capped max_lots) (stabilized equity share current notionals margins fitted)
  unfolding stabilize_one_lot_increases
  stabilized-Capped equity share max_lots current fitted notionals margins h =
      let result = nonzero_lots-All (Capped max_lots) fitted h in
      elim (Bool-cases
        (is_nil current || not (covers notionals current) || not (covers margins current))) [
          | inl unknown ↦ rw unknown h
          | inr known_rows ↦ rw known_rows (
              chosen_All (Capped max_lots) _ (nonzero_lots fitted) _ result (
                nonzero_lots-All (Capped max_lots) (steady_rows current (nonzero_lots fitted))
                  (steady_rows-Capped max_lots current (nonzero_lots fitted) result)))
        ]

  margin_fit-Capped :
      (deviation : F → F → F) (equity : F) (max_lots : ℤ) (requested : Lots)
      (ticks : Dict String (Tick F)) (specs : Dict String (ContractSpec F))
      (limits : MarginLimits F) (current lots : Lots)
      → All (Capped max_lots) requested
      → margin_fit deviation equity requested ticks specs limits current ≡ ok lots
      → All (Capped max_lots) lots
  margin_fit-Capped deviation equity max_lots requested ticks specs limits current lots h e =
      let priced =
        >>=-eq-ok (margins_of limits.margin_estimate_buffer ticks specs requested []) _ e in
      let shared =
        >>=-eq-ok
          (adaptive_margin_sizing_share deviation limits.max_margin_ratio limits.min_available_ratio
            limits.max_daily_loss_ratio limits.completed_returns default_trigger)
          _ priced.2 in
      let fitted =
        >>=-eq-ok (fit_target_lots_to_margin_budget requested priced.0 (fl.mul equity shared.0)) _
          shared.2 in
      subst (All (Capped max_lots)) (ok_inj _ lots fitted.2) (
        stabilized-Capped equity shared.0 max_lots current fitted.0
          (notionals_of ticks specs requested) priced.0
          (fitted_Capped max_lots requested fitted.0 h (
            fit_target_lots-EachWithin requested priced.0 (fl.mul equity shared.0) fitted.0
              fitted.1)))

  pub margin_aware-Capped :
      (deviation : F → F → F) (equity : F) (weights : Dict String F) (ticks : Dict String (Tick F))
      (specs : Dict String (ContractSpec F)) (limits : MarginLimits F) (current lots : Lots)
      → pos 0 <ℤ limits.max_contract_volume
      → build_margin_aware_target_lots deviation equity weights ticks specs limits current ≡ ok lots
      → All (Capped limits.max_contract_volume) lots
  unfolding build_margin_aware_target_lots
  margin_aware-Capped deviation equity weights ticks specs limits current lots positive e =
      let max_lots = limits.max_contract_volume in
      let found =
        >>=-eq-ok (build_target_lots equity weights ticks specs max_lots)
          (margin_aware deviation equity ticks specs limits (nonzero_lots current)) e in
      let requested = targets_Capped equity max_lots weights ticks specs found.0 positive found.1 in
      elim (Bool-cases (is_nil found.0 || fl.le equity fzero)) [
        | inl nothing ↦ subst (All (Capped max_lots)) (ok_inj [] lots (rw nothing at (found.2))) tt
        | inr wanted ↦ elim (Bool-cases (fl.lt limits.margin_estimate_buffer one)) [
          | inl bad ↦ cc (rw (wanted, bad) at (found.2))
          | inr good ↦
              margin_fit-Capped deviation equity max_lots found.0 (by_symbol ticks []) specs limits
                (nonzero_lots current) lots requested (rw (wanted, good) at (found.2))
        ]
      ]

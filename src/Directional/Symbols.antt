-- ===== src/Directional/Symbols.antt =====
-- What a rebalance plan holds at each symbol.
use mathlib.Core.Path.{subst}
use afuture.Prelude.{
  String, ◌||◌, ◌≡◌, refl, sym, ap, ◌∙◌, ◌≢◌, arith, Option, none, some, List, [], ◌∷◌,
  if◌then◌else◌, ltb,
}
use afuture.Prelude.Int.{ℤ, pos, ◌-ℤ◌, eqb_ℤ, magnitude, neg_ℤ}
use afuture.Dict.{string_eq, lookup}
use afuture.Models.{ContractPosition}
use afuture.Directional.Puts.{put, put_all, lookup-symbols}
use afuture.Directional.{
  Lots, lots_at, nonzero_lots, RebalancePlan, no_plan, opposed, plan_symbol, rebalance_symbol,
  plan_all, rebalance_all, openings_last, openings_after, symbols_of, net_lots,
  build_rebalance_plan, rebalance_from_lots,
}

-- The change that reduces risk at one symbol, and the one that adds to it.
abbrev pub reduction_of : ℤ → ℤ → Option ℤ
reduction_of have wanted =
    if eqb_ℤ have wanted
    then none
    else if eqb_ℤ have (pos 0)
    then none
    else if eqb_ℤ wanted (pos 0) || opposed have wanted
    then some (neg_ℤ have)
    else if ltb (magnitude wanted) (magnitude have)
    then some (wanted -ℤ have)
    else none

abbrev pub opening_of : ℤ → ℤ → Option ℤ
opening_of have wanted =
    if eqb_ℤ have wanted
    then none
    else if eqb_ℤ have (pos 0)
    then some wanted
    else if eqb_ℤ wanted (pos 0) || opposed have wanted
    then none
    else if ltb (magnitude wanted) (magnitude have)
    then none
    else some (wanted -ℤ have)

abbrev changed : String → ℤ → ℤ → RebalancePlan → RebalancePlan
changed symbol have wanted plan = record {
  reductions = put symbol (reduction_of have wanted) plan.reductions;
  openings = put symbol (opening_of have wanted) plan.openings;
}

rebalance_symbol-eq-changed :
    (symbol : String) (have wanted : ℤ) (plan : RebalancePlan)
    → rebalance_symbol symbol have wanted plan ≡ changed symbol have wanted plan
rebalance_symbol-eq-changed symbol have wanted plan = ground arith

pub plan_symbol-eq-rebalance_symbol :
    (symbol : String) (have wanted : ℤ) (plan : RebalancePlan)
    → plan_symbol symbol have wanted plan ≡ rebalance_symbol symbol have wanted plan
plan_symbol-eq-rebalance_symbol symbol have wanted plan = ground arith

rebalance_all-eq :
    (current target : Lots) (symbols : List String) (plan : RebalancePlan)
    → (rebalance_all symbols current target plan).reductions
      ≡ put_all (λ s. reduction_of (lots_at s current) (lots_at s target)) symbols plan.reductions
unfolding rebalance_all put_all
rebalance_all-eq current target [] plan = refl
rebalance_all-eq current target (s ∷ symbols) plan =
    rebalance_all-eq current target symbols _
    ∙ ap
        (λ (p : RebalancePlan).
          put_all (λ s. reduction_of (lots_at s current) (lots_at s target)) symbols p.reductions)
        (rebalance_symbol-eq-changed s (lots_at s current) (lots_at s target) plan)

rebalance_all-eq_openings :
    (current target : Lots) (symbols : List String) (plan : RebalancePlan)
    → (rebalance_all symbols current target plan).openings
      ≡ put_all (λ s. opening_of (lots_at s current) (lots_at s target)) symbols plan.openings
unfolding rebalance_all put_all
rebalance_all-eq_openings current target [] plan = refl
rebalance_all-eq_openings current target (s ∷ symbols) plan =
    rebalance_all-eq_openings current target symbols _
    ∙ ap
        (λ (p : RebalancePlan).
          put_all (λ s. opening_of (lots_at s current) (lots_at s target)) symbols p.openings)
        (rebalance_symbol-eq-changed s (lots_at s current) (lots_at s target) plan)

-- The symbols of a plan's reductions, and of its openings where it has no reductions.
pub record PlanOf (at_current at_target : String → ℤ) (plan : RebalancePlan) : Type 0 where
  pub reductions_at :
      (s : String) → lookup s plan.reductions ≡ reduction_of (at_current s) (at_target s)
  pub openings_at :
      plan.reductions ≡ []
      → (s : String) → lookup s plan.openings ≡ opening_of (at_current s) (at_target s)
  pub openings_last_at : (plan.reductions ≢ []) → plan.openings ≡ []

openings_after_none : (r o : Lots) → r ≡ [] → openings_after r o ≡ o
openings_after_none [] o h = refl
openings_after_none (x ∷ r) o h = cc

openings_after_some : (r o : Lots) → r ≢ [] → openings_after r o ≡ []
openings_after_some [] o h = elim (h refl) [ ]
openings_after_some (x ∷ r) o h = refl

rebalance_all-PlanOf :
    (current target : Lots)
    → PlanOf
        (λ s. lots_at s current)
        (λ s. lots_at s target)
        (openings_last (rebalance_all (symbols_of current target) current target no_plan))
rebalance_all-PlanOf current target = record {
  reductions_at = λ s. rw (rebalance_all-eq current target (symbols_of current target) no_plan) (
      lookup-symbols (λ s. reduction_of (lots_at s current) (lots_at s target)) s current target
        (λ a b. rw (a, b) refl));
  openings_at = λ empty s.
      rw
        (
          openings_after_none _ _ empty,
          rebalance_all-eq_openings current target (symbols_of current target) no_plan,
        )
        (lookup-symbols (λ s. opening_of (lots_at s current) (lots_at s target)) s current target
          (λ a b. rw (a, b) refl));
  openings_last_at = λ more. openings_after_some _ _ more;
}

pub rebalance_from_lots-PlanOf :
    (current target : Lots)
    → PlanOf
        (λ s. lots_at s (nonzero_lots current))
        (λ s. lots_at s (nonzero_lots target))
        (rebalance_from_lots current target)
unfolding rebalance_from_lots
rebalance_from_lots-PlanOf current target =
    rebalance_all-PlanOf (nonzero_lots current) (nonzero_lots target)

plan_all-eq :
    (symbols : List String) (current target : Lots) (plan : RebalancePlan)
    → plan_all symbols current target plan ≡ rebalance_all symbols current target plan
unfolding plan_all rebalance_all
plan_all-eq [] current target plan = refl
plan_all-eq (s ∷ symbols) current target plan =
    plan_all-eq symbols current target _
    ∙ ap (rebalance_all symbols current target)
        (plan_symbol-eq-rebalance_symbol s (lots_at s current) (lots_at s target) plan)

pub build_rebalance_plan-PlanOf :
    {F : Type 0} (positions : List (ContractPosition F)) (target : Lots)
    → PlanOf
        (λ s. lots_at s (net_lots positions []))
        (λ s. lots_at s target)
        (build_rebalance_plan positions target)
unfolding build_rebalance_plan
build_rebalance_plan-PlanOf positions target =
    let current = net_lots positions [] in
    subst (λ p. PlanOf (λ s. lots_at s current) (λ s. lots_at s target) (openings_last p))
      (sym (plan_all-eq (symbols_of current target) current target no_plan))
      (rebalance_all-PlanOf current target)

-- ===== src/Directional/Agree.antt =====
-- About the two forms of the rebalance plan, in directional.py and in the planner.
use mathlib.Core.Path.{ap₂}
use afuture.Prelude.{
  String, ◌≡◌, refl, sym, ◌∙◌, ap, inl, inr, Bool-cases, arith, none, List, [], ◌∷◌, or_else,
}
use afuture.Prelude.Int.{ℤ, pos, eqb_ℤ, eq_of_parts}
use afuture.Prelude.Text.{str_eq, str_eq_iff}
use afuture.Dict.{string_eq, lookup, lookup-none, Unique, Unique-insert}
use afuture.Models.{ContractPosition, net_volume}
use afuture.Directional.{
  Lots, lots_at, nonzero_lots, RebalancePlan, net_lots, build_rebalance_plan, rebalance_from_lots,
}
use afuture.Directional.Symbols.{
  reduction_of, opening_of, PlanOf, rebalance_from_lots-PlanOf, build_rebalance_plan-PlanOf,
}
use afuture.Directional.Passes.{empty_or, nothing_there}

lookup-nonzero : (s : String) (d : Lots) → lookup s d ≡ none → lookup s (nonzero_lots d) ≡ none
unfolding lookup nonzero_lots
lookup-nonzero s [] h = refl
lookup-nonzero s ((k, v) ∷ d) h = ground (arith, lookup-nonzero s d)

-- A zero entry reads as a missing one.
pub lots_at-nonzero : (s : String) (d : Lots) → Unique d → lots_at s (nonzero_lots d) ≡ lots_at s d
unfolding lookup nonzero_lots
lots_at-nonzero s [] u = refl
lots_at-nonzero s ((k, v) ∷ d) u = elim (Bool-cases (str_eq k s)) [
  | inl same ↦ elim (Bool-cases (eqb_ℤ v (pos 0))) [
    | inl zero ↦
        rw (zero, same)
          (ap (λ o. or_else o (pos 0))
              (lookup-nonzero s d (ap (λ i. lookup i d) (sym ((str_eq_iff k s).0 same)) ∙ u.0))
            ∙ eq_of_parts (pos 0) v (ground arith))
    | inr lots ↦ rw (lots, same) refl
  ]
  | inr other ↦ elim (Bool-cases (eqb_ℤ v (pos 0))) [
    | inl zero ↦ rw (zero, other) (lots_at-nonzero s d u.1)
    | inr lots ↦ rw (lots, other) (lots_at-nonzero s d u.1)
  ]
]

net_lots-Unique :
    {F : Type 0} (positions : List (ContractPosition F)) (lots : Lots)
    → Unique lots
    → Unique (net_lots positions lots)
unfolding net_lots
net_lots-Unique [] lots u = u
net_lots-Unique (p ∷ ps) lots u =
    net_lots-Unique ps _ (elim (Bool-cases (eqb_ℤ (net_volume p) (pos 0))) [
      | inl zero ↦ rw zero u
      | inr held ↦ rw held (Unique-insert p.symbol (net_volume p) lots u)
    ])

PlanOf-at :
    {h k t u : String → ℤ} (plan : RebalancePlan)
    → ((s : String) → h s ≡ k s)
    → ((s : String) → t s ≡ u s)
    → PlanOf h t plan
    → PlanOf k u plan
PlanOf-at plan e f p = record {
  reductions_at = λ s. p.reductions_at s ∙ ap₂ reduction_of (e s) (f s);
  openings_at = λ empty s. p.openings_at empty s ∙ ap₂ opening_of (e s) (f s);
  openings_last_at = p.openings_last_at;
}

-- Two plans with the same entries.
pub record SamePlan (a b : RebalancePlan) : Type 0 where
  pub same_reductions : (s : String) → lookup s a.reductions ≡ lookup s b.reductions
  pub same_openings : (s : String) → lookup s a.openings ≡ lookup s b.openings

same_openings_at :
    {have target : String → ℤ} (a b : RebalancePlan)
    → PlanOf have target a
    → PlanOf have target b
    → (s : String) → lookup s a.openings ≡ lookup s b.openings
same_openings_at a b p q s = elim (empty_or a.reductions) [
  | inl empty ↦
      p.openings_at empty s
      ∙ sym (
          q.openings_at
            (lookup-none _ (λ t.
              q.reductions_at t ∙ sym (p.reductions_at t) ∙ ap (lookup t) empty ∙ nothing_there t))
            s)
  | inr more ↦ ap (lookup s) (
      p.openings_last_at more
      ∙ sym (
          q.openings_last_at (λ empty. more (
            lookup-none _ (λ t.
              p.reductions_at t
              ∙ sym (q.reductions_at t)
              ∙ ap (lookup t) empty
              ∙ nothing_there t)))))
]

-- The plan that the live engine builds from positions and the plan that the planner builds from their
-- net lots have the same reductions and the same openings, for a target that has each symbol once.
pub build_rebalance_plan-eq-rebalance_from_lots :
    {F : Type 0} (positions : List (ContractPosition F)) (target : Lots)
    → Unique target
    → SamePlan
        (build_rebalance_plan positions target)
        (rebalance_from_lots (net_lots positions []) target)
build_rebalance_plan-eq-rebalance_from_lots positions target u =
    let current = net_lots positions [] in
    let a = build_rebalance_plan positions target in
    let b = rebalance_from_lots current target in
    let p = build_rebalance_plan-PlanOf positions target in
    let q : PlanOf (λ s. lots_at s current) (λ s. lots_at s target) b =
      PlanOf-at b (λ s. lots_at-nonzero s current (net_lots-Unique positions [] tt))
        (λ s. lots_at-nonzero s target u) (rebalance_from_lots-PlanOf current target) in
    record {
      same_reductions = λ s. p.reductions_at s ∙ sym (q.reductions_at s);
      same_openings = same_openings_at a b p q;
    }

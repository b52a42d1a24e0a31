-- ===== src/Directional/Passes.antt =====
-- About the rebalance plans of directional.py and of the planner: what they reduce and open, pass by
-- pass.
use afuture.Prelude.{
  String, ◌≡◌, refl, sym, ◌∙◌, ap, ◌≢◌, ◌⊎◌, inl, inr, arith, none, some, List, [], ◌∷◌, or_else,
}
use afuture.Prelude.Int.{ℤ, pos, ◌+ℤ◌, ◌≤ℤ◌, ◌<ℤ◌, +ℤ_parts, -ℤ_parts, eq_of_parts}
use afuture.Dict.{string_eq, lookup, lookup-none}
use afuture.Models.{ContractPosition}
use afuture.Directional.{
  Lots, lots_at, nonzero_lots, RebalancePlan, net_lots, build_rebalance_plan, rebalance_from_lots,
}
use afuture.Directional.Symbols.{
  reduction_of, opening_of, PlanOf, rebalance_from_lots-PlanOf, build_rebalance_plan-PlanOf,
}

-- A change of held lots toward zero that does not cross it.
abbrev pub Shrinks : ℤ → ℤ → Type 0
Shrinks have change =
    ((pos 0 <ℤ have) × (change <ℤ pos 0) × (pos 0 ≤ℤ have +ℤ change))
    ⊎ ((have <ℤ pos 0) × (pos 0 <ℤ change) × (have +ℤ change ≤ℤ pos 0))

-- A change away from zero, or from zero, that ends at the target.
abbrev pub Grows : ℤ → ℤ → ℤ → Type 0
Grows have target change =
    (have +ℤ change ≡ target)
    × (((pos 0 ≤ℤ have) × (pos 0 <ℤ change)) ⊎ ((have ≤ℤ pos 0) × (change <ℤ pos 0)))

reduction_of-Shrinks :
    (have wanted change : ℤ) → reduction_of have wanted ≡ some change → Shrinks have change
reduction_of-Shrinks have wanted change h =
    ground (arith, +ℤ_parts have change, -ℤ_parts wanted have, -ℤ_parts (pos 0) have)

opening_of-Grows :
    (have wanted change : ℤ) → opening_of have wanted ≡ some change → Grows have wanted change
opening_of-Grows have wanted change h =
    ground (arith, +ℤ_parts have change, -ℤ_parts wanted have, eq_of_parts (have +ℤ change) wanted)

open_fully :
    (have wanted : ℤ)
    → reduction_of have wanted ≡ none
    → have +ℤ or_else (opening_of have wanted) (pos 0) ≡ wanted
open_fully have wanted h = ground (
  arith,
  +ℤ_parts have (or_else (opening_of have wanted) (pos 0)),
  -ℤ_parts wanted have,
  eq_of_parts (have +ℤ or_else (opening_of have wanted) (pos 0)) wanted,
)

reduced_all : (wanted : ℤ) → reduction_of wanted wanted ≡ none
reduced_all wanted = ground arith

reduced_once :
    (have wanted : ℤ)
    → reduction_of (have +ℤ or_else (reduction_of have wanted) (pos 0)) wanted ≡ none
reduced_once have wanted = ground (
  arith,
  +ℤ_parts have (or_else (reduction_of have wanted) (pos 0)),
  -ℤ_parts wanted have,
  -ℤ_parts (pos 0) have,
)

-- What a plan does at one symbol: its reduction and its opening.
pub record Steps (have target : ℤ) (plan : RebalancePlan) (s : String) : Type 0 where
  pub shrinks : (change : ℤ) → lookup s plan.reductions ≡ some change → Shrinks have change
  pub grows :
      (change : ℤ)
      → lookup s plan.openings ≡ some change
      → (plan.reductions ≡ []) × Grows have target change

no_entry : (s : String) (d : Lots) (v : ℤ) → d ≡ [] → lookup s d ≡ some v → ⊥
unfolding lookup
no_entry s [] v h found = cc
no_entry s (x ∷ d) v h found = cc

pub empty_or : (d : Lots) → (d ≡ []) ⊎ (d ≢ [])
empty_or [] = inl refl
empty_or (x ∷ d) = inr (λ h. cc)

PlanOf-Steps :
    {have target : String → ℤ} {plan : RebalancePlan}
    → PlanOf have target plan
    → (s : String) → Steps (have s) (target s) plan s
PlanOf-Steps {have} {target} {plan} p s = record {
  shrinks = λ change found.
      reduction_of-Shrinks (have s) (target s) change (sym (p.reductions_at s) ∙ found);
  grows = λ change found. elim (empty_or plan.reductions) [
    | inl empty ↦
        (empty, opening_of-Grows (have s) (target s) change (sym (p.openings_at empty s) ∙ found))
    | inr more ↦ elim (no_entry s plan.openings change (p.openings_last_at more) found) [ ]
  ];
}

-- Every reduction of `build_rebalance_plan` moves the net lots of its symbol strictly toward zero and
-- not across it; an opening is planned only where there is no reduction at all, moves away from zero
-- or from zero, and ends at the target lots.
pub build_rebalance_plan-Steps :
    {F : Type 0} (positions : List (ContractPosition F)) (target : Lots) (s : String)
    → Steps
        (lots_at s (net_lots positions []))
        (lots_at s target)
        (build_rebalance_plan positions target)
        s
build_rebalance_plan-Steps positions target s =
    PlanOf-Steps (build_rebalance_plan-PlanOf positions target) s

-- The held lots at every symbol after the orders of a plan are filled in full.
abbrev pub Filled : RebalancePlan → Lots → Lots → Type 0
Filled plan before after =
    (s : String)
    → lots_at s (nonzero_lots after)
      ≡ (lots_at s (nonzero_lots before) +ℤ lots_at s plan.reductions) +ℤ lots_at s plan.openings

+ℤ_zero : (a : ℤ) → a +ℤ pos 0 ≡ a
+ℤ_zero a = omega (arith, +ℤ_parts a (pos 0), eq_of_parts (a +ℤ pos 0) a)

at_nothing : (s : String) (d : Lots) → d ≡ [] → lots_at s d ≡ pos 0
unfolding lookup
at_nothing s [] h = refl
at_nothing s (x ∷ d) h = cc

pub nothing_there : (s : String) → lookup {V = ℤ} s [] ≡ none
unfolding lookup
nothing_there s = refl

-- A plan without reductions ends at the target.
last_pass :
    (before after target : Lots) (s : String)
    → (rebalance_from_lots before target).reductions ≡ []
    → Filled (rebalance_from_lots before target) before after
    → lots_at s (nonzero_lots after) ≡ lots_at s (nonzero_lots target)
last_pass before after target s empty filled =
    let p = rebalance_from_lots-PlanOf before target in
    let plan = rebalance_from_lots before target in
    let h = lots_at s (nonzero_lots before) in
    let w = lots_at s (nonzero_lots target) in
    filled s
    ∙ ap (λ o. (h +ℤ o) +ℤ lots_at s plan.openings) (at_nothing s plan.reductions empty)
    ∙ ap (λ o. o +ℤ lots_at s plan.openings) (+ℤ_zero h)
    ∙ ap (λ o. h +ℤ or_else o (pos 0)) (p.openings_at empty s)
    ∙ open_fully h w (sym (p.reductions_at s) ∙ ap (lookup s) empty ∙ nothing_there s)

-- After a pass with reductions, nothing is left to reduce.
first_pass :
    (before after target : Lots) (s : String)
    → (rebalance_from_lots before target).reductions ≢ []
    → Filled (rebalance_from_lots before target) before after
    → lookup s (rebalance_from_lots after target).reductions ≡ none
first_pass before after target s more filled =
    let p = rebalance_from_lots-PlanOf before target in
    let q = rebalance_from_lots-PlanOf after target in
    let plan = rebalance_from_lots before target in
    let h = lots_at s (nonzero_lots before) in
    let w = lots_at s (nonzero_lots target) in
    q.reductions_at s
    ∙ ap (λ a. reduction_of a w)
        (filled s
          ∙ ap (λ o. (h +ℤ lots_at s plan.reductions) +ℤ o)
              (at_nothing s plan.openings (p.openings_last_at more))
          ∙ +ℤ_zero (h +ℤ lots_at s plan.reductions)
          ∙ ap (λ o. h +ℤ or_else o (pos 0)) (p.reductions_at s))
    ∙ reduced_once h w

-- Two passes reach the target: where every order of the first plan is filled in full, and then every
-- order of the plan made from the lots that result, the lots held in every symbol are those of the
-- target, also where a position is reversed, rolled, reduced and extended at once.
pub rebalance_from_lots_twice :
    (held between after target : Lots)
    → Filled (rebalance_from_lots held target) held between
    → Filled (rebalance_from_lots between target) between after
    → (s : String) → lots_at s (nonzero_lots after) ≡ lots_at s (nonzero_lots target)
rebalance_from_lots_twice held between after target first second s =
    last_pass between after target s
      (elim (empty_or (rebalance_from_lots held target).reductions) [
        | inl empty ↦ lookup-none _ (λ t.
            (rebalance_from_lots-PlanOf between target).reductions_at t
            ∙ ap (λ a. reduction_of a (lots_at t (nonzero_lots target)))
                (last_pass held between target t empty first)
            ∙ reduced_all (lots_at t (nonzero_lots target)))
        | inr more ↦ lookup-none _ (λ t. first_pass held between target t more first)
      ])
      second

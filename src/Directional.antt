-- ===== src/Directional.antt =====
-- directional.py and directional_stress90_planner.py: signed lots per symbol, and the plan that
-- moves the held lots to the target lots.
use mathlib.Core.Path.{subst}
pub mod Puts
pub mod Symbols
pub mod Passes
pub mod Agree
pub mod Budget
pub mod Fitted
pub mod Targets
pub mod Products
pub mod Categories
pub mod Freeze
pub mod Frozen
pub mod Carried
mod Blocked
mod Capped
mod Rounds
pub mod Freezes
pub mod Entries
pub mod Margin
pub mod Scaling
pub mod Unavailable
pub mod Stages
pub mod Staging
pub mod Caps
pub mod Chain
use afuture.Prelude.{
  String, Bool, true, false, not, ◌||◌, ◌≡◌, refl, inl, inr, Bool-cases, arith, Option, none, some,
  List, [], ◌∷◌, ◌++◌, if◌then◌else◌, or_else, ltb, known,
}
use afuture.Prelude.Int.{ℤ, pos, ◌-ℤ◌, eqb_ℤ, ltb_ℤ, magnitude, neg_ℤ, eq_of_parts}
use afuture.Prelude.Text.{str_eq, str_eq_iff}
use afuture.Prelude.Sets.{member, sorted_set, member-sorted_set, member-append}
use afuture.Dict.{
  Dict, string_eq, lookup, insert, lookup-insert, beq_refl, keys, Unique, member-keys, lookup-none,
}
use afuture.Models.{ContractPosition, net_volume}

abbrev pub Lots : Type 0
Lots = Dict String ℤ

-- `lots.get(symbol, 0)`
abbrev pub lots_at : String → Lots → ℤ
lots_at symbol lots = or_else (lookup symbol lots) (pos 0)

-- `_lots`: the entries that are not zero.
unfoldable pub nonzero_lots : Lots → Lots
nonzero_lots [] = []
nonzero_lots ((symbol, volume) ∷ raw) =
    let rest = nonzero_lots raw in if eqb_ℤ volume (pos 0) then rest else (symbol, volume) ∷ rest

pub record RebalancePlan : Type 0 where
  pub reductions : Lots
  pub openings : Lots

abbrev pub no_plan : RebalancePlan
no_plan = record { reductions = []; openings = [] }

-- `(have > 0) != (target > 0)`
abbrev pub opposed : ℤ → ℤ → Bool
opposed have wanted =
    if ltb_ℤ (pos 0) have then not (ltb_ℤ (pos 0) wanted) else ltb_ℤ (pos 0) wanted

abbrev pub reduce : String → ℤ → RebalancePlan → RebalancePlan
reduce symbol change plan = record plan { reductions = insert symbol change plan.reductions }

abbrev pub open_more : String → ℤ → RebalancePlan → RebalancePlan
open_more symbol change plan = record plan { openings = insert symbol change plan.openings }

-- One round of the loop of `build_rebalance_plan`.
abbrev pub plan_symbol : String → ℤ → ℤ → RebalancePlan → RebalancePlan
plan_symbol symbol have target plan =
    if eqb_ℤ have target
    then plan
    else if eqb_ℤ have (pos 0)
    then (if eqb_ℤ target (pos 0) then plan else open_more symbol target plan)
    else if eqb_ℤ target (pos 0)
    then reduce symbol (neg_ℤ have) plan
    else if opposed have target
    then reduce symbol (neg_ℤ have) plan
    else if ltb (magnitude target) (magnitude have)
    then reduce symbol (target -ℤ have) plan
    else if ltb (magnitude have) (magnitude target)
    then open_more symbol (target -ℤ have) plan
    else plan

-- One round of the loop of `_rebalance_from_lots`.
abbrev pub rebalance_symbol : String → ℤ → ℤ → RebalancePlan → RebalancePlan
rebalance_symbol symbol have wanted plan =
    if eqb_ℤ have wanted
    then plan
    else if eqb_ℤ have (pos 0)
    then open_more symbol wanted plan
    else if eqb_ℤ wanted (pos 0) || opposed have wanted
    then reduce symbol (neg_ℤ have) plan
    else if ltb (magnitude wanted) (magnitude have)
    then reduce symbol (wanted -ℤ have) plan
    else open_more symbol (wanted -ℤ have) plan

unfoldable pub plan_all : List String → Lots → Lots → RebalancePlan → RebalancePlan
plan_all [] current target plan = plan
plan_all (symbol ∷ symbols) current target plan =
    plan_all symbols current target
      (plan_symbol symbol (lots_at symbol current) (lots_at symbol target) plan)

unfoldable pub rebalance_all : List String → Lots → Lots → RebalancePlan → RebalancePlan
rebalance_all [] current target plan = plan
rebalance_all (symbol ∷ symbols) current target plan =
    rebalance_all symbols current target
      (rebalance_symbol symbol (lots_at symbol current) (lots_at symbol target) plan)

-- `{} if reductions else potential_openings`
abbrev pub openings_after : Lots → Lots → Lots
openings_after [] openings = openings
openings_after (_ ∷ _) openings = []

abbrev pub openings_last : RebalancePlan → RebalancePlan
openings_last plan = record plan { openings = openings_after plan.reductions plan.openings }

-- `set(current) | set(target)`, sorted.
abbrev pub symbols_of : Lots → Lots → List String
symbols_of current target = sorted_set (keys current ++ keys target)

-- `{p.symbol: p.net_volume for p in positions if p.net_volume != 0}`
unfoldable pub net_lots : {F : Type 0} → List (ContractPosition F) → Lots → Lots
net_lots [] lots = lots
net_lots (p ∷ ps) lots =
    net_lots ps (if eqb_ℤ (net_volume p) (pos 0) then lots else insert p.symbol (net_volume p) lots)

unfoldable pub build_rebalance_plan :
    {F : Type 0} → List (ContractPosition F) → Lots → RebalancePlan
build_rebalance_plan positions target =
    let current = net_lots positions [] in
    openings_last (plan_all (symbols_of current target) current target no_plan)

-- `_rebalance_from_lots`
unfoldable pub rebalance_from_lots : Lots → Lots → RebalancePlan
rebalance_from_lots current_lots target_lots =
    let current = nonzero_lots current_lots in
    let target = nonzero_lots target_lots in
    openings_last (rebalance_all (symbols_of current target) current target no_plan)

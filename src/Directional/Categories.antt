-- ===== src/Directional/Categories.antt =====
-- `_action_categories` of directional_stress90_planner.py, against the rebalance plan.
use mathlib.Core.Path.{subst}
use afuture.Prelude.{
  String, Bool, true, false, not, ◌&&◌, ◌||◌, ◌≡◌, refl, sym, ◌∙◌, ap, ◌≢◌, ◌⊎◌, ◌↔◌, arith, Option,
  none, some, List, [], if◌then◌else◌, any, map, ltb, Result, ok, ◌>>◌, >>-eq-ok, ok_inj,
}
use afuture.Prelude.Int.{ℤ, pos, eqb_ℤ, magnitude, eq_of_parts}
use afuture.Prelude.Text.{str_eq}
use afuture.Prelude.Sets.{member}
use afuture.Dict.{Dict, string_eq, lookup}
use afuture.Models.{Error}
use afuture.Directional.{
  Lots, lots_at, nonzero_lots, symbols_of, opposed, RebalancePlan, rebalance_from_lots,
}
use afuture.Directional.Puts.{put_all, lookup-symbols}
use afuture.Directional.Symbols.{reduction_of, opening_of, PlanOf, rebalance_from_lots-PlanOf}
use afuture.Directional.Products.{product_of, check_products, upper_keys}

-- What the categories of a symbol's product depend on.
pub record ProductFacts : Type 0 where
  pub kind : Option String
  pub in_current : Bool
  pub in_target : Bool
  pub authorized : Bool

abbrev is_kind : Option String → String → Bool
is_kind none kind = false
is_kind (some k) kind = str_eq k kind

abbrev opened_as : ProductFacts → Option String → String
opened_as facts (some kind) = kind
opened_as facts none =
    if facts.in_current
    then "same_product_roll"
    else if facts.authorized
    then "reversal_open"
    else "entry"

-- One round of the loop of `_action_categories`: no category where nothing changes.
abbrev pub category_of : ProductFacts → ℤ → ℤ → Option String
category_of facts have wanted =
    if eqb_ℤ have wanted
    then none
    else if not (eqb_ℤ have (pos 0)) && not (eqb_ℤ wanted (pos 0)) && opposed have wanted
    then some "reversal"
    else if not (eqb_ℤ have (pos 0)) && eqb_ℤ wanted (pos 0)
    then (if is_kind facts.kind "reversal_open"
        then some "reversal"
        else some (if facts.in_target then "same_product_roll" else "exit"))
    else if eqb_ℤ have (pos 0) && not (eqb_ℤ wanted (pos 0))
    then some (opened_as facts facts.kind)
    else if ltb (magnitude wanted) (magnitude have)
    then some "reduction"
    else some "same_sign_add"

module _ (upper : String → String) where
  -- The products of the rows that hold lots.
  abbrev product_held : Dict String String → Lots → String → Bool
  product_held symbol_products rows product =
      any
        (λ (row : String × ℤ).
          not (eqb_ℤ row.1 (pos 0)) && str_eq (product_of upper symbol_products row.0) product)
        rows

  abbrev pub facts_of :
      Dict String String → List String → Dict String String → Lots → Lots → String → ProductFacts
  facts_of symbol_products authorized_products kinds current target symbol =
      let product = product_of upper symbol_products symbol in
      record {
        kind = lookup product (upper_keys upper kinds []);
        in_current = product_held symbol_products current product;
        in_target = product_held symbol_products target product;
        authorized = member product (map upper authorized_products);
      }

  -- `_action_categories`
  unfoldable pub action_categories :
      Lots
      → Lots
      → Dict String String
      → List String
      → Dict String String
      → Result Error (Dict String String)
  unfolding check_products nonzero_lots upper_keys put_all
  action_categories current_lots target_lots symbol_products authorized_products kinds =
      let current = nonzero_lots current_lots in
      let target = nonzero_lots target_lots in
      check_products upper symbol_products (symbols_of current target)
      >> ok (
          put_all
            (λ symbol.
              category_of (facts_of symbol_products authorized_products kinds current target symbol)
                (lots_at symbol current) (lots_at symbol target))
            (symbols_of current target) [])

-- The categories of changes that take risk off.
abbrev pub takes_off : Option String → Bool
takes_off none = false
takes_off (some c) =
    str_eq c "reversal" || str_eq c "same_product_roll" || str_eq c "exit" || str_eq c "reduction"

-- What an exit is called.
exit-takes_off :
    (turns rolls : Bool)
    → takes_off
        (if turns then some "reversal" else some (if rolls then "same_product_roll" else "exit"))
      ≡ true
exit-takes_off true rolls = refl
exit-takes_off false true = refl
exit-takes_off false false = refl

choose_takes_off :
    (same opposite leaves enters less : Bool) (exit opened : Option String)
    → takes_off exit ≡ true
    → same ≡ false
    → (opposite ≡ true) ⊎ ((leaves ≡ true) ⊎ ((enters ≡ false) × (less ≡ true)))
    → takes_off (
        if same
        then none
        else if opposite
        then some "reversal"
        else if leaves
        then exit
        else if enters
        then opened
        else if less
        then some "reduction"
        else some "same_sign_add")
      ≡ true
choose_takes_off true opposite leaves enters less exit opened h k m = cc
choose_takes_off false true leaves enters less exit opened h k m = refl
choose_takes_off false false true enters less exit opened h k m = h
choose_takes_off false false false true less exit opened h k m = ground (arith, m)
choose_takes_off false false false false true exit opened h k m = refl
choose_takes_off false false false false false exit opened h k m = ground (arith, m)

reduction_tests :
    (have wanted change : ℤ)
    → reduction_of have wanted ≡ some change
    → (eqb_ℤ have wanted ≡ false)
      × (((not (eqb_ℤ have (pos 0)) && not (eqb_ℤ wanted (pos 0)) && opposed have wanted) ≡ true)
          ⊎ (((not (eqb_ℤ have (pos 0)) && eqb_ℤ wanted (pos 0)) ≡ true)
              ⊎ (((eqb_ℤ have (pos 0) && not (eqb_ℤ wanted (pos 0))) ≡ false)
                  × (ltb (magnitude wanted) (magnitude have) ≡ true))))
reduction_tests have wanted change h = ground arith

reduction-takes_off :
    (facts : ProductFacts) (have wanted change : ℤ)
    → reduction_of have wanted ≡ some change
    → takes_off (category_of facts have wanted) ≡ true
reduction-takes_off facts have wanted change h =
    let tests = reduction_tests have wanted change h in
    choose_takes_off _ _ _ _ _ _ _
      (exit-takes_off (is_kind facts.kind "reversal_open") facts.in_target) tests.0 tests.1

category_none :
    (facts : ProductFacts) (have wanted : ℤ)
    → category_of facts have wanted ≡ none
    → eqb_ℤ have wanted ≡ true
category_none facts have wanted h = ground arith

opening_added :
    (facts : ProductFacts) (have wanted change : ℤ)
    → opening_of have wanted ≡ some change
    → ((have ≡ pos 0) × (category_of facts have wanted ≡ some (opened_as facts facts.kind)))
      ⊎ ((have ≢ pos 0) × (category_of facts have wanted ≡ some "same_sign_add"))
opening_added facts have wanted change h = ground arith

equal_lots : (have wanted : ℤ) → eqb_ℤ have wanted ≡ true → have ≡ wanted
equal_lots have wanted h = eq_of_parts have wanted (ground arith)

no_change : (facts : ProductFacts) (lots : ℤ) → category_of facts lots lots ≡ none
no_change facts lots = ground arith

-- The category of a symbol against what the plan does with it.
pub record Classified (facts : ProductFacts) (have wanted : ℤ) (plan : RebalancePlan) (s : String)
    (category : Option String) : Type 0 where
  pub changes : (category ≡ none) ↔ (have ≡ wanted)
  pub reduces : (change : ℤ) → lookup s plan.reductions ≡ some change → takes_off category ≡ true
  pub opens :
      (change : ℤ)
      → plan.reductions ≡ []
      → lookup s plan.openings ≡ some change
      → ((have ≡ pos 0) × (category ≡ some (opened_as facts facts.kind)))
        ⊎ ((have ≢ pos 0) × (category ≡ some "same_sign_add"))

category_of-Classified :
    {at_current at_target : String → ℤ} {plan : RebalancePlan} (facts : ProductFacts) (s : String)
    → PlanOf at_current at_target plan
    → Classified facts
        (at_current s)
        (at_target s)
        plan
        s
        (category_of facts (at_current s) (at_target s))
category_of-Classified {at_current} {at_target} {plan} facts s p =
    let have = at_current s in
    let wanted = at_target s in
    record {
      changes = (
        λ h. equal_lots have wanted (category_none facts have wanted h),
        λ h. ap (category_of facts have) (sym h) ∙ no_change facts have,
      );
      reduces = λ change found.
          reduction-takes_off facts have wanted change (sym (p.reductions_at s) ∙ found);
      opens = λ change empty found.
          opening_added facts have wanted change (sym (p.openings_at empty s) ∙ found);
    }

module _ (upper : String → String) where
  -- The categories agree with the plan made from the same lots: a symbol has no category exactly where
  -- its lots do not change, a reduction is called a reversal, a roll, an exit or a reduction, and an
  -- opening is an addition where lots are held, and else what the transition of its product says or
  -- a roll, the open leg of a reversal or an entry.
  pub action_categories-Classified :
      (current target : Lots) (symbol_products : Dict String String) (authorized : List String)
      (kinds categories : Dict String String) (s : String)
      → action_categories upper current target symbol_products authorized kinds ≡ ok categories
      → Classified
          (facts_of upper symbol_products authorized kinds
            (nonzero_lots current)
            (nonzero_lots target)
            s)
          (lots_at s (nonzero_lots current))
          (lots_at s (nonzero_lots target))
          (rebalance_from_lots current target)
          s
          (lookup s categories)
  unfolding action_categories
  action_categories-Classified current target symbol_products authorized kinds categories s e =
      let held = nonzero_lots current in
      let wanted = nonzero_lots target in
      let facts = facts_of upper symbol_products authorized kinds held wanted in
      let category = λ (symbol : String).
        category_of (facts symbol) (lots_at symbol held) (lots_at symbol wanted) in
      let returned =
        ok_inj (put_all category (symbols_of held wanted) []) categories
          (>>-eq-ok (check_products upper symbol_products (symbols_of held wanted)) _ e).1 in
      subst
        (Classified (facts s) (lots_at s held) (lots_at s wanted)
          (rebalance_from_lots current target) s)
        (sym (lookup-symbols category s held wanted (λ a b. rw (a, b) refl))
          ∙ ap (lookup s) returned)
        (category_of-Classified (facts s) s (rebalance_from_lots-PlanOf current target))

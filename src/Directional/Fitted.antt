-- ===== src/Directional/Fitted.antt =====
-- About `fit_target_lots_to_margin_budget`: the fitted lots against the requested ones.
use mathlib.Core.Path.{subst}
use afuture.Prelude.{
  String, true, false, ◌||◌, ◌≡◌, refl, ◌⊎◌, inl, inr, Bool-cases, Option-cases, arith, List, [],
  ◌∷◌, if◌then◌else◌, or_else, All, All-weaken, ok, raise_if, ◌>>=◌, >>-eq-ok, >>=-eq-ok, ok_inj,
}
use afuture.Prelude.Int.{
  ℤ, pos, ◌+ℤ◌, ◌≤ℤ◌, ◌<ℤ◌, eqb_ℤ, ltb_ℤ, leb_ℤ, min_ℤ, abs_ℤ, neg_ℤ, +ℤ_parts, -ℤ_parts,
  min_ℤ_bounds,
}
use afuture.Prelude.Sets.{sorted_set}
use afuture.Dict.{Dict, string_eq, lookup, keys, All-insert, All-lookup}
use afuture.Float.{FloatOps, fzero, slack}
use afuture.Models.{bad_limit}
use afuture.Directional.{Lots, lots_at}
use afuture.Directional.Budget.{
  Demand, demand_of, Fit, fit_all, sort_candidates, grow, grow_all, signed_lots, is_nil, no_demand,
  no_fit, fit_demand, fit_scaled, finish, fit_target_lots_to_margin_budget,
}

-- Lots on the side of the requested ones, and at most as many.
abbrev pub Within : ℤ → ℤ → Type 0
Within wanted lots = ((pos 0 <ℤ lots) × (lots ≤ℤ wanted)) ⊎ ((lots <ℤ pos 0) × (wanted ≤ℤ lots))

abbrev pub EachWithin : Lots → Lots → Type 0
EachWithin target lots = All (λ (row : String × ℤ). Within (lots_at row.0 target) row.1) lots

-- The magnitudes that are fitted, against what was requested.
abbrev Bounded : Lots → Lots → Type 0
Bounded requested magnitudes =
    All (λ (row : String × ℤ). row.1 ≤ℤ abs_ℤ (lots_at row.0 requested)) magnitudes

abbrev Reads : Lots → Lots → Type 0
Reads target requested =
    All (λ (row : String × ℤ). (row.1 ≡ lots_at row.0 target) × (eqb_ℤ row.1 (pos 0) ≡ false))
      requested

signed_Within :
    (wanted magnitude : ℤ)
    → ltb_ℤ (pos 0) magnitude ≡ true
    → magnitude ≤ℤ abs_ℤ wanted
    → Within wanted (if ltb_ℤ (pos 0) wanted then magnitude else neg_ℤ magnitude)
signed_Within wanted magnitude h k = ground (arith, -ℤ_parts (pos 0) magnitude)

signed_lots-EachWithin :
    (requested magnitudes : Lots)
    → Bounded requested magnitudes
    → EachWithin requested (signed_lots requested magnitudes)
unfolding signed_lots
signed_lots-EachWithin requested [] h = tt
signed_lots-EachWithin requested ((symbol, magnitude) ∷ magnitudes) h =
    elim (Bool-cases (ltb_ℤ (pos 0) magnitude)) [
      | inl some_lots ↦ rw some_lots (
        signed_Within (lots_at symbol requested) magnitude some_lots h.0,
        signed_lots-EachWithin requested magnitudes h.1,
      )
      | inr none_left ↦ rw none_left (signed_lots-EachWithin requested magnitudes h.1)
    ]

within_more : (a m : ℤ) → leb_ℤ a m ≡ false → m +ℤ pos 1 ≤ℤ a
within_more a m h = ground (arith, +ℤ_parts m (pos 1))

min_ℤ_left : (a b : ℤ) → min_ℤ a b ≤ℤ a
min_ℤ_left a b = (min_ℤ_bounds a b).0

module _ {F : Type 0} ⦃fl : FloatOps F⦄ where
  grow-Bounded :
      (demand : Demand F) (budget : F) (symbol : String) (fit : Fit F)
      → Bounded demand.requested fit.magnitudes
      → Bounded demand.requested (grow demand budget symbol fit).magnitudes
  grow-Bounded demand budget symbol fit h =
      elim (Bool-cases (
        fl.lt (fl.add budget slack)
          (fl.add fit.used_margin (or_else (lookup symbol demand.margins) fzero)))) [
            | inl spent ↦ rw spent h
            | inr left ↦
                rw left
                  (elim (Bool-cases (
                    leb_ℤ (abs_ℤ (lots_at symbol demand.requested))
                      (lots_at symbol fit.magnitudes))) [
                        | inl full ↦ rw full h
                        | inr room ↦ rw room (
                            All-insert
                              (λ (row : String × ℤ).
                                row.1 ≤ℤ abs_ℤ (lots_at row.0 demand.requested))
                              symbol _ fit.magnitudes
                              (within_more (abs_ℤ (lots_at symbol demand.requested))
                                (lots_at symbol fit.magnitudes) room)
                              h)
                      ])
          ]

  grow_all-Bounded :
      (demand : Demand F) (budget : F) (cs : List (F × String)) (fit : Fit F)
      → Bounded demand.requested fit.magnitudes
      → Bounded demand.requested (grow_all demand budget cs fit).magnitudes
  unfolding grow_all
  grow_all-Bounded demand budget [] fit h = h
  grow_all-Bounded demand budget ((f, symbol) ∷ cs) fit h =
      grow_all-Bounded demand budget cs _ (grow-Bounded demand budget symbol fit h)

  fit_all-Bounded :
      (symbols : List String) (demand : Demand F) (scale : F) (fit fitted : Fit F)
      → Bounded demand.requested fit.magnitudes
      → fit_all symbols demand scale fit ≡ ok fitted
      → Bounded demand.requested fitted.magnitudes
  unfolding fit_all
  fit_all-Bounded [] demand scale fit fitted h e =
      subst (λ (f : Fit F). Bounded demand.requested f.magnitudes) (ok_inj _ _ e) h
  fit_all-Bounded (symbol ∷ symbols) demand scale fit fitted h e =
      let wanted = lots_at symbol demand.requested in
      let ideal = fl.mul (fl.of_int (abs_ℤ wanted)) scale in
      elim (Bool-cases (fl.is_finite ideal)) [
        | inl finite ↦
            fit_all-Bounded symbols demand scale _ fitted
              (All-insert (λ (row : String × ℤ). row.1 ≤ℤ abs_ℤ (lots_at row.0 demand.requested))
                symbol _ fit.magnitudes (min_ℤ_left (abs_ℤ wanted) (fl.floor ideal)) h)
              (rw finite at (e))
        | inr odd ↦ cc (rw odd at (e))
      ]

  demand_of-Reads :
      (symbols : List String) (target : Lots) (margins : Dict String F) (before after : Demand F)
      → Reads target before.requested
      → demand_of symbols target margins before ≡ ok after
      → Reads target after.requested
  unfolding demand_of
  demand_of-Reads [] target margins before after h e =
      subst (λ (d : Demand F). Reads target d.requested) (ok_inj _ _ e) h
  demand_of-Reads (symbol ∷ symbols) target margins before after h e =
      elim (Bool-cases (eqb_ℤ (lots_at symbol target) (pos 0))) [
        | inl zero ↦ demand_of-Reads symbols target margins before after h (rw zero at (e))
        | inr lots ↦ elim (Bool-cases (fl.le (or_else (lookup symbol margins) fzero) fzero)) [
          | inl unpriced ↦ cc (rw (lots, unpriced) at (e))
          | inr priced ↦
              demand_of-Reads symbols target margins _ after
                (All-insert
                  (λ (row : String × ℤ).
                    (row.1 ≡ lots_at row.0 target) × (eqb_ℤ row.1 (pos 0) ≡ false))
                  symbol (lots_at symbol target) before.requested (refl, lots) h)
                (rw (lots, priced) at (e))
        ]
      ]

row_Within : (wanted lots : ℤ) → lots ≡ wanted → eqb_ℤ lots (pos 0) ≡ false → Within wanted lots
row_Within wanted lots h k = ground (arith, h)

-- Lots within what a dict of read lots holds are within what was read.
nothing-Within : (lots : ℤ) → Within (pos 0) lots → ⊥
nothing-Within lots w = ground (arith, w)

through_Reads :
    (target requested : Lots) (symbol : String) (lots : ℤ)
    → Reads target requested
    → Within (lots_at symbol requested) lots
    → Within (lots_at symbol target) lots
through_Reads target requested symbol lots h w = elim (Option-cases (lookup symbol requested)) [
  | inl missing ↦ elim (nothing-Within lots (rw missing at (w))) [ ]
  | inr found ↦
      subst (λ v. Within v lots)
        (All-lookup
          (λ (row : String × ℤ). (row.1 ≡ lots_at row.0 target) × (eqb_ℤ row.1 (pos 0) ≡ false))
          symbol found.0 requested h found.1).0
        (rw found.1 at (w))
]

module _ {F : Type 0} ⦃fl : FloatOps F⦄ where
  fit_scaled-EachWithin :
      (target : Lots) (demand : Demand F) (budget : F) (lots : Lots)
      → Reads target demand.requested
      → fit_scaled demand budget ≡ ok lots
      → EachWithin target lots
  unfolding fit_scaled
  fit_scaled-EachWithin target demand budget lots reads e =
      let symbols = sorted_set (keys demand.requested) in
      let scale = fl.div budget demand.total_margin in
      let found =
        >>=-eq-ok (fit_all symbols demand scale no_fit) (λ fit. ok (finish demand budget fit)) e in
      subst (EachWithin target) (ok_inj (finish demand budget found.0) lots found.2) (
        All-weaken (λ (row : String × ℤ). Within (lots_at row.0 demand.requested) row.1)
          (λ (row : String × ℤ). Within (lots_at row.0 target) row.1) (finish demand budget found.0)
          (λ row h. through_Reads target demand.requested row.0 row.1 reads h)
          (signed_lots-EachWithin demand.requested _ (
            grow_all-Bounded demand budget (sort_candidates found.0.candidates) found.0
              (fit_all-Bounded symbols demand scale no_fit found.0 tt found.1))))

  fit_demand-EachWithin :
      (target : Lots) (demand : Demand F) (budget : F) (lots : Lots)
      → Reads target demand.requested
      → fit_demand demand budget ≡ ok lots
      → EachWithin target lots
  unfolding fit_demand
  fit_demand-EachWithin target demand budget lots reads e =
      elim (Bool-cases (is_nil demand.requested || fl.eq budget fzero)) [
        | inl nothing ↦ subst (EachWithin target) (ok_inj [] lots (rw nothing at (e))) tt
        | inr some_lots ↦ elim (Bool-cases (fl.le demand.total_margin (fl.add budget slack))) [
          | inl fits ↦ subst (EachWithin target) (ok_inj _ lots (rw (some_lots, fits) at (e))) (
              All-weaken
                (λ (row : String × ℤ).
                  (row.1 ≡ lots_at row.0 target) × (eqb_ℤ row.1 (pos 0) ≡ false))
                (λ (row : String × ℤ). Within (lots_at row.0 target) row.1) demand.requested
                (λ row h. row_Within (lots_at row.0 target) row.1 h.0 h.1) reads)
          | inr over ↦ elim (Bool-cases (fl.eq demand.total_margin fzero)) [
            | inl zero ↦ cc (rw (some_lots, over, zero) at (e))
            | inr scaled ↦
                fit_scaled-EachWithin target demand budget lots reads
                  (rw (some_lots, over, scaled) at (e))
          ]
        ]
      ]

  -- Fitting a target to a margin budget never adds risk: where it returns, every symbol it returns
  -- has lots on the side of the lots requested for it, at least one and at most as many. It holds for
  -- every arithmetic of the floats, also where the sums are rounded or are not numbers.
  pub fit_target_lots-EachWithin :
      (target : Lots) (per_lot_margin : Dict String F) (budget : F) (lots : Lots)
      → fit_target_lots_to_margin_budget target per_lot_margin budget ≡ ok lots
      → EachWithin target lots
  unfolding fit_target_lots_to_margin_budget
  fit_target_lots-EachWithin target per_lot_margin budget lots e =
      let reading = demand_of (sorted_set (keys target)) target per_lot_margin no_demand in
      let read =
        >>=-eq-ok reading (λ d. fit_demand d budget)
          (>>-eq-ok (raise_if (fl.lt budget fzero) bad_limit) (reading >>= λ d. fit_demand d budget)
            e).1 in
      fit_demand-EachWithin target read.0 budget lots
        (demand_of-Reads (sorted_set (keys target)) target per_lot_margin no_demand read.0 tt
          read.1)
        read.2

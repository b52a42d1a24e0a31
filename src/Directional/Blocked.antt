-- ===== src/Directional/Blocked.antt =====
-- About the round of the freeze for a blocked product.
use mathlib.Core.Path.{subst}
use afuture.Prelude.{
  String, Bool, true, false, not, ◌&&◌, ◌||◌, ◌≡◌, inl, inr, Bool-cases, arith, Option, none, some,
  [], ◌∷◌, if◌then◌else◌, All, All-weaken, ok, ok_inj,
}
use afuture.Prelude.Int.{ℤ, pos, eqb_ℤ, min_ℤ, abs_ℤ, -ℤ_parts, min_ℤ_bounds}
use afuture.Dict.{Dict, string_eq, All-insert}
use afuture.Float.{FloatOps, fzero}
use afuture.Directional.{Lots, lots_at, opposed}
use afuture.Directional.Budget.{is_nil, fit_target_lots_to_margin_budget}
use afuture.Directional.Fitted.{Within, fit_target_lots-EachWithin}
use afuture.Directional.Freeze.{
  capped_like, update, updated, two_sided, same_rows, keep_incumbent, missing_notional, per_lot_of,
  fit_authorized_replacement, replacement, incumbent_notional, same_side, freeze_blocked,
}
use afuture.Directional.Carried.{Carried, lots_at-Carried, NonZero, update-All, updated-All}

incumbent_Within :
    (have wanted : ℤ)
    → eqb_ℤ wanted (pos 0) ≡ false
    → opposed wanted have ≡ false
    → (eqb_ℤ have (pos 0) ≡ false)
    → Within wanted (capped_like have have wanted)
incumbent_Within have wanted h k l = ground (
  arith,
  min_ℤ_bounds (abs_ℤ have) (abs_ℤ wanted),
  -ℤ_parts (pos 0) (min_ℤ (abs_ℤ have) (abs_ℤ wanted)),
)

both_pass : (a b : Bool) → (not a && not b) ≡ true → (a ≡ false) × (b ≡ false)
both_pass a b h = ground arith

module _ (P : String × ℤ → Type 0) (target_rows : Lots)
    (closed : (entry : String × ℤ) → Carried target_rows entry → P entry) where
  keep_incumbent-All :
      (current_rows result : Lots)
      → NonZero current_rows
      → All P result
      → All P (keep_incumbent current_rows target_rows result)
  unfolding keep_incumbent
  keep_incumbent-All [] result h k = k
  keep_incumbent-All ((s, have) ∷ rows) result h k =
      let wanted = lots_at s target_rows in
      keep_incumbent-All rows _ h.1
        (elim (Bool-cases (not (eqb_ℤ wanted (pos 0)) && not (opposed wanted have))) [
          | inl kept ↦
              let tests = both_pass (eqb_ℤ wanted (pos 0)) (opposed wanted have) kept in
              rw kept (
                All-insert P s (capped_like have have wanted) result
                  (closed (s, capped_like have have wanted)
                    (lots_at-Carried target_rows s (capped_like have have wanted)
                      (incumbent_Within have wanted tests.0 tests.1 h.0)))
                  k)
          | inr dropped ↦ rw dropped k
        ])

module _ {F : Type 0} ⦃fl : FloatOps F⦄ (P : String × ℤ → Type 0) (target_rows : Lots)
    (closed : (entry : String × ℤ) → Carried target_rows entry → P entry)
    (rows_all : All P target_rows) where
  fitted-All :
      (margins : Dict String F) (budget : F) (lots : Lots)
      → fit_target_lots_to_margin_budget target_rows margins budget ≡ ok lots
      → All P lots
  fitted-All margins budget lots e =
      All-weaken (λ (row : String × ℤ). Within (lots_at row.0 target_rows) row.1) P lots
        (λ row w. closed row (lots_at-Carried target_rows row.0 row.1 w))
        (fit_target_lots-EachWithin target_rows margins budget lots e)

  replaced-All :
      (notionals : Dict String F) (budget : F) (lots : Lots)
      → fit_authorized_replacement notionals target_rows budget ≡ ok lots
      → All P lots
  unfolding fit_authorized_replacement
  replaced-All notionals budget lots e =
      elim (Bool-cases (missing_notional notionals target_rows)) [
        | inl missing ↦ subst (All P) (ok_inj [] lots (rw missing at (e))) tt
        | inr present ↦
            fitted-All (per_lot_of notionals target_rows) budget lots (rw present at (e))
      ]

  replacement-All :
      (notionals : Dict String F) (budget : Option F) (lots : Lots)
      → replacement notionals target_rows budget ≡ ok lots
      → All P lots
  replacement-All notionals none lots e = subst (All P) (ok_inj target_rows lots e) rows_all
  replacement-All notionals (some budget) lots e = replaced-All notionals budget lots e

  same_side-All :
      (notionals : Dict String F) (current_rows : Lots) (budget : Option F) (result after : Lots)
      → NonZero current_rows
      → All P result
      → same_side notionals current_rows target_rows budget result ≡ ok after
      → All P after
  same_side-All notionals current_rows (some budget) result after h k e =
      updated-All P (fit_authorized_replacement notionals target_rows budget) result after
        (replaced-All notionals budget) k e
  same_side-All notionals current_rows none result after h k e =
      elim (Bool-cases
        (missing_notional notionals current_rows || missing_notional notionals target_rows)) [
          | inl missing ↦
              subst (All P) (ok_inj _ after (rw missing at (e)))
                (keep_incumbent-All P target_rows closed current_rows result h k)
          | inr present ↦
              updated-All P
                (fit_target_lots_to_margin_budget target_rows (per_lot_of notionals target_rows)
                  (incumbent_notional notionals current_rows fzero))
                result after (fitted-All _ _) k (rw present at (e))
        ]

  -- The rest of the round, where both have rows of one side.
  one_sided-All :
      (notionals : Dict String F) (budget : Option F) (current_rows result after : Lots)
      (reversed : Bool)
      → NonZero current_rows
      → All P result
      → (if reversed
          then updated (replacement notionals target_rows budget) result
          else if same_rows current_rows target_rows
          then ok (update target_rows result)
          else same_side notionals current_rows target_rows budget result)
        ≡ ok after
      → All P after
  one_sided-All notionals budget current_rows result after true h k e =
      updated-All P (replacement notionals target_rows budget) result after
        (replacement-All notionals budget) k e
  one_sided-All notionals budget current_rows result after false h k e =
      elim (Bool-cases (same_rows current_rows target_rows)) [
        | inl same ↦
            subst (All P) (ok_inj _ after (rw same at (e)))
              (update-All P target_rows result rows_all k)
        | inr other ↦ same_side-All notionals current_rows budget result after h k (rw other at (e))
      ]

  pub freeze_blocked-All :
      (notionals : Dict String F) (authorized : Bool) (budget : Option F)
      (current_rows result after : Lots)
      → NonZero current_rows
      → All P result
      → freeze_blocked notionals authorized budget current_rows target_rows result ≡ ok after
      → All P after
  unfolding freeze_blocked
  freeze_blocked-All notionals authorized budget current_rows result after h k e =
      elim (Bool-cases (is_nil target_rows)) [
        | inl no_target ↦ subst (All P) (ok_inj result after (rw no_target at (e))) k
        | inr wanted ↦ elim (Bool-cases (is_nil current_rows)) [
          | inl no_current ↦ elim (Bool-cases authorized) [
            | inl may ↦
                updated-All P (replacement notionals target_rows budget) result after
                  (replacement-All notionals budget) k (rw (wanted, no_current, may) at (e))
            | inr denied ↦
                subst (All P) (ok_inj result after (rw (wanted, no_current, denied) at (e))) k
          ]
          | inr held ↦ elim (Bool-cases (two_sided current_rows || two_sided target_rows)) [
            | inl opposing ↦ cc (rw (wanted, held, opposing) at (e))
            | inr sided ↦
                one_sided-All notionals budget current_rows result after _ h k
                  (rw (wanted, held, sided) at (e))
          ]
        ]
      ]

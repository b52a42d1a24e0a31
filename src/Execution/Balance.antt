-- ===== src/Execution/Balance.antt =====
-- A balanced pair against the side and volume of its close.
use afuture.Prelude.{
  Bool, true, false, ◌&&◌, ◌||◌, ◌≡◌, refl, ◌⊎◌, inl, inr, Bool-cases, arith, Option, none, some,
}
use afuture.Prelude.Int.{ℤ, pos, ◌≤ℤ◌, ◌<ℤ◌, eqb_ℤ, min_ℤ}
use afuture.Models.{OrderSide, buy, sell, ContractPosition, is_empty, long_total, short_total}
use afuture.Execution.Legs.{closing_legs, legs_balanced}

-- What a close of the near leg on the side could take from the position, and of the far leg.
module _ {F : Type 0} where
  pub data ClosesAll (near far : ContractPosition F) : Option (OrderSide × ℤ) → Type 0 where
    nothing_held : is_empty near ≡ true → is_empty far ≡ true → ClosesAll near far none
    sells_near :
        pos 0 <ℤ long_total near
        → short_total far ≡ long_total near
        → short_total near ≡ pos 0
        → long_total far ≡ pos 0
        → ClosesAll near far (some (sell, long_total near))
    buys_near :
        pos 0 <ℤ short_total near
        → long_total far ≡ short_total near
        → long_total near ≡ pos 0
        → short_total far ≡ pos 0
        → ClosesAll near far (some (buy, short_total near))

eqb_ℤ_eq : (a b : ℤ) → eqb_ℤ a b ≡ true → b ≡ a
eqb_ℤ_eq a b h = ground arith

min_ℤ-same : (a b : ℤ) → b ≡ a → min_ℤ a b ≡ a
min_ℤ-same a b h = ground arith

positive_of : (a : ℤ) → pos 0 ≤ℤ a → eqb_ℤ a (pos 0) ≡ false → pos 0 <ℤ a
positive_of a h k = ground arith

split_and : (a b c : Bool) → (a && b && c) ≡ true → (a ≡ true) × (b ≡ true) × (c ≡ true)
split_and a b c h = ground arith

balanced_cases :
    (e f a b : Bool)
    → ((e && f) || a || b) ≡ true
    → ((e ≡ true) × (f ≡ true)) ⊎ ((a ≡ true) ⊎ (b ≡ true))
balanced_cases e f a b h = ground arith

eqb_ℤ_zero : (a : ℤ) → eqb_ℤ a (pos 0) ≡ true → a ≡ pos 0
eqb_ℤ_zero a h = ground arith

split_two : (a b : Bool) → (a && b) ≡ true → (a ≡ true) × (b ≡ true)
split_two a b h = ground arith

zero_test : (a : ℤ) → a ≡ pos 0 → eqb_ℤ a (pos 0) ≡ true
zero_test a h = ground arith

module _ {F : Type 0} where
  long_case :
      (near far : ContractPosition F)
      → pos 0 ≤ℤ long_total near
      → short_total far ≡ long_total near
      → short_total near ≡ pos 0
      → long_total far ≡ pos 0
      → ClosesAll near far (closing_legs near far)
  unfolding is_empty
  long_case near far h facing no_short no_long =
      elim (Bool-cases (eqb_ℤ (long_total near) (pos 0))) [
        | inl zero ↦
            rw (zero, zero_test (short_total near) no_short)
              (nothing_held (rw (zero, zero_test (short_total near) no_short) refl)
                (rw (zero_test (long_total far) no_long, facing, zero) refl))
        | inr lots ↦
            rw (lots, facing, lots, min_ℤ-same (long_total near) (long_total near) refl)
              (sells_near (positive_of (long_total near) h lots) facing no_short no_long)
      ]

  short_case :
      (near far : ContractPosition F)
      → pos 0 ≤ℤ short_total near
      → long_total far ≡ short_total near
      → long_total near ≡ pos 0
      → short_total far ≡ pos 0
      → ClosesAll near far (closing_legs near far)
  unfolding is_empty
  short_case near far h facing no_long no_short =
      elim (Bool-cases (eqb_ℤ (short_total near) (pos 0))) [
        | inl zero ↦
            rw (zero, zero_test (long_total near) no_long)
              (nothing_held (rw (zero, zero_test (long_total near) no_long) refl)
                (rw (facing, zero, zero_test (short_total far) no_short) refl))
        | inr lots ↦
            rw
              (
                zero_test (long_total near) no_long,
                lots,
                facing,
                lots,
                min_ℤ-same (short_total near) (short_total near) refl,
              )
              (buys_near (positive_of (short_total near) h lots) facing no_long no_short)
      ]

  empty_case :
      (near far : ContractPosition F)
      → is_empty near ≡ true
      → is_empty far ≡ true
      → ClosesAll near far (closing_legs near far)
  unfolding is_empty
  empty_case near far h k =
      let p = split_two (eqb_ℤ (long_total near) (pos 0)) (eqb_ℤ (short_total near) (pos 0)) h in
      rw (p.0, p.1) (nothing_held h k)

  -- What `_build_close_orders` sets out to close of a balanced pair is all of it: where the near
  -- position is well formed and the two legs balance, either nothing is held and no leg is closed, or
  -- the side and the volume for which both legs are planned are the whole of the near leg's lots, which
  -- are as many as those of the far leg, and neither leg holds lots on its other side.
  pub closing_legs-ClosesAll :
      (near far : ContractPosition F)
      → pos 0 ≤ℤ long_total near
      → pos 0 ≤ℤ short_total near
      → legs_balanced near far ≡ true
      → ClosesAll near far (closing_legs near far)
  unfolding legs_balanced
  closing_legs-ClosesAll near far h k balanced =
      elim (balanced_cases (is_empty near) (is_empty far) _ _ balanced) [
        | inl empty ↦ empty_case near far empty.0 empty.1
        | inr (inl long) ↦
            let t = split_and _ _ _ long in
            long_case near far h (eqb_ℤ_eq _ (short_total far) t.0) (eqb_ℤ_zero _ t.1)
              (eqb_ℤ_zero _ t.2)
        | inr (inr short) ↦
            let t = split_and _ _ _ short in
            short_case near far k (eqb_ℤ_eq _ (long_total far) t.0) (eqb_ℤ_zero _ t.1)
              (eqb_ℤ_zero _ t.2)
      ]

-- ===== src/Float.antt =====
-- Python floats as an abstract type with the operations that the program uses.
use afuture.Prelude.{inl, inr, Bool-cases, ℕ, ◌≤◌, ◌≡◌, Bool, true, false, if◌then◌else◌}
use afuture.Prelude.Int.{ℤ, pos}

-- The operations of IEEE binary64 that the code calls. `lt` and `le` are false at a NaN.
pub record FloatOps (F : Type 0) : Type 0 where
  pub add : F → F → F
  pub sub : F → F → F
  pub mul : F → F → F
  -- Python raises ZeroDivisionError at a zero divisor, where this has some value.
  pub div : F → F → F
  pub neg : F → F
  pub lt : F → F → Bool
  pub le : F → F → Bool
  pub eq : F → F → Bool
  pub is_finite : F → Bool
  pub of_int : ℤ → F
  -- `int`, `floor` and `ceil`, which are used at finite values.
  pub truncate : F → ℤ
  pub floor : F → ℤ
  pub ceil : F → ℤ

module _ {F : Type 0} ⦃fl : FloatOps F⦄ where
  abbrev pub fzero : F
  fzero = fl.of_int (pos 0)

  -- Python's `min(a, b)` and `max(a, b)`: the first argument unless the second is strictly better.
  abbrev pub fmin : F → F → F
  fmin a b = if fl.lt b a then b else a

  abbrev pub fmax : F → F → F
  fmax a b = if fl.lt a b then b else a

  -- `abs(a)`, up to the sign of a zero, which no comparison shows.
  abbrev pub fabs : F → F
  fabs a = if fl.lt a fzero then fl.neg a else a

  -- The literal 1e-10: the quotient is rounded to the same float.
  abbrev pub slack : F
  slack = fl.div (fl.of_int (pos 1)) (fl.of_int (pos 10_000_000_000))

-- What IEEE 754 says of the order.
pub record FloatOrder (F : Type 0) (fl : FloatOps F) : Type 0 where
  pub lt_irrefl : (a : F) → fl.lt a a ≡ false
  pub lt_trans : (a b c : F) → fl.lt a b ≡ true → fl.lt b c ≡ true → fl.lt a c ≡ true
  pub lt_of_lt_of_le : (a b c : F) → fl.lt a b ≡ true → fl.le b c ≡ true → fl.lt a c ≡ true
  pub lt_of_le_of_lt : (a b c : F) → fl.le a b ≡ true → fl.lt b c ≡ true → fl.lt a c ≡ true
  pub le_trans : (a b c : F) → fl.le a b ≡ true → fl.le b c ≡ true → fl.le a c ≡ true
  -- A subtraction is rounded from the exact difference, and rounding keeps the order.
  pub sub_mono :
      (a b c : F)
      → fl.is_finite c ≡ true
      → fl.le a b ≡ true
      → fl.le (fl.sub a c) (fl.sub b c) ≡ true
  pub le_not_lt : (a b : F) → fl.le a b ≡ true → fl.lt b a ≡ false
  pub le_refl_zero : fl.le (fl.of_int (pos 0)) (fl.of_int (pos 0)) ≡ true
  -- Equal values are below the same values; finite values are comparable.
  pub eq_lt : (a b c : F) → fl.eq a b ≡ true → fl.lt b c ≡ true → fl.lt a c ≡ true
  pub finite_total :
      (a b : F)
      → fl.is_finite a ≡ true
      → fl.is_finite b ≡ true
      → fl.le a b ≡ false
      → fl.lt b a ≡ true
  pub small_finite : (n : ℕ) → n ≤ 1000 → fl.is_finite (fl.of_int (pos n)) ≡ true

module _ {F : Type 0} ⦃fl : FloatOps F⦄ (order : FloatOrder F fl) where
  pub fmin-right : (a b : F) → fl.lt b (fmin a b) ≡ false
  fmin-right a b = elim (Bool-cases (fl.lt b a)) [
    | inl less ↦ rw less (order.lt_irrefl b)
    | inr not_less ↦ rw not_less not_less
  ]

  pub fmin-keeps : (c a b : F) → fl.lt c a ≡ false → fl.lt c (fmin a b) ≡ false
  fmin-keeps c a b h = elim (Bool-cases (fl.lt b a)) [
    | inl less ↦ rw less (elim (Bool-cases (fl.lt c b)) [
      | inl below ↦ cc (order.lt_trans c b a below less)
      | inr fine ↦ fine
    ])
    | inr not_less ↦ rw not_less h
  ]

  pub fmax-right : (a b : F) → fl.lt (fmax a b) b ≡ false
  fmax-right a b = elim (Bool-cases (fl.lt a b)) [
    | inl less ↦ rw less (order.lt_irrefl b)
    | inr not_less ↦ rw not_less not_less
  ]

  pub fmax-keeps : (c a b : F) → fl.lt a c ≡ false → fl.lt (fmax a b) c ≡ false
  fmax-keeps c a b h = elim (Bool-cases (fl.lt a b)) [
    | inl less ↦ rw less (elim (Bool-cases (fl.lt b c)) [
      | inl above ↦ cc (order.lt_trans a b c less above)
      | inr fine ↦ fine
    ])
    | inr not_less ↦ rw not_less h
  ]

  le_of_not_lt :
      (a b : F)
      → fl.is_finite a ≡ true
      → fl.is_finite b ≡ true
      → fl.lt b a ≡ false
      → fl.le a b ≡ true
  le_of_not_lt a b fa fb h = elim (Bool-cases (fl.le a b)) [
    | inl good ↦ good
    | inr bad ↦ cc (order.finite_total a b fa fb bad)
  ]

  -- What is not below the smaller of two finite values is below neither.
  pub fmin-not_lt :
      (a b x : F)
      → fl.is_finite a ≡ true
      → fl.is_finite b ≡ true
      → fl.lt (fmin a b) x ≡ false
      → (fl.lt a x ≡ false) × (fl.lt b x ≡ false)
  fmin-not_lt a b x fa fb h = elim (Bool-cases (fl.lt b a)) [
    | inl less ↦
        let above = rw less at h in
        (
          elim (Bool-cases (fl.lt a x)) [
            | inl below ↦ cc (order.lt_trans b a x less below)
            | inr fine ↦ fine
          ],
          above,
        )
    | inr not_less ↦
        let above = rw not_less at h in
        (
          above,
          elim (Bool-cases (fl.lt b x)) [
            | inl below ↦ cc (order.lt_of_le_of_lt a b x (le_of_not_lt a b fa fb not_less) below)
            | inr fine ↦ fine
          ],
        )
  ]

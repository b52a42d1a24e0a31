-- ===== src/Tests/Numbers.antt =====
-- Whole numbers as a concrete instance of the float operations, for runs and witnesses: every
-- value is finite, and division is that of the magnitudes.
use afuture.Prelude.{◌/◌, refl, true, arith, ◌≡◌}
use afuture.Prelude.Int.{
  pos, ℤ, pos_part, neg_part, sub_ℕ, ◌+ℤ◌, ◌*ℤ◌, ◌-ℤ◌, -ℤ_parts, ltb_ℤ, leb_ℤ, eqb_ℤ,
}
use afuture.Float.{FloatOps, FloatOrder}

abbrev pub quotient : ℤ → ℤ → ℤ
quotient a b = sub_ℕ (pos_part a / pos_part b) (neg_part a / pos_part b)

instance abbrev pub whole : FloatOps ℤ
whole = record {
  add = ◌+ℤ◌;
  sub = ◌-ℤ◌;
  mul = ◌*ℤ◌;
  div = quotient;
  neg = λ a. pos 0 -ℤ a;
  lt = ltb_ℤ;
  le = leb_ℤ;
  eq = eqb_ℤ;
  is_finite = λ a. true;
  of_int = λ a. a;
  truncate = λ a. a;
  floor = λ a. a;
  ceil = λ a. a;
}

sub_mono_whole : (a b c : ℤ) → leb_ℤ a b ≡ true → leb_ℤ (a -ℤ c) (b -ℤ c) ≡ true
sub_mono_whole a b c h = ground (arith, -ℤ_parts a c, -ℤ_parts b c)

pub whole_order : FloatOrder ℤ whole
whole_order = record {
  lt_irrefl = λ a. ground arith;
  lt_trans = λ a b c h k. ground arith;
  lt_of_lt_of_le = λ a b c h k. ground arith;
  lt_of_le_of_lt = λ a b c h k. ground arith;
  le_trans = λ a b c h k. ground arith;
  sub_mono = λ a b c k h. sub_mono_whole a b c h;
  le_not_lt = λ a b h. ground arith;
  le_refl_zero = refl;
  eq_lt = λ a b c h k. ground arith;
  finite_total = λ a b k l h. ground arith;
  small_finite = λ n h. refl;
}

-- ===== src/Position/Planning.antt =====
-- A planned close, filled child by child, closes exactly the volume that was asked for.
use mathlib.Core.Path.{subst}
use afuture.Prelude.{
  Bool, true, false, ◌≡◌, refl, sym, ◌∙◌, ap, Bool-cases, inl, inr, arith, List, [], ◌∷◌, Result,
  ok, err,
}
use afuture.Prelude.Int.{
  min_ℤ-eq_left, eqb_ℤ→ne, ℤ, pos, ◌+ℤ◌, ◌-ℤ◌, ◌≤ℤ◌, ◌<ℤ◌, eqb_ℤ, min_ℤ, int_laws, min_ℤ_bounds,
  eqb_ℤ→eq,
}
use afuture.Float.{FloatOps, FloatOrder}
use afuture.Models.{
  is_opening, OrderSide, buy, sell, Offset, close, close_today, close_yesterday, Error,
  ContractPosition, long_total, short_total,
}
use afuture.Position.Book.{available, apply_close, trade_position}
use afuture.Position.Effects.{consume_long_totals, consume_short_totals}
use afuture.Position.Closing.{IsValid, trade_position-fits}
use afuture.Position.Plan.{take_buckets, plan_children}

-- The total that a close by this side takes from.
abbrev pub side_total : {F : Type 0} → OrderSide → ContractPosition F → ℤ
side_total sell p = long_total p
side_total buy p = short_total p

sub_twice : (a v w : ℤ) → a -ℤ v -ℤ w ≡ a -ℤ (v +ℤ w)
sub_twice a v w = omega int_laws

-- The two buckets of an exchange that tells today from yesterday.
abbrev Buckets : Offset → Offset → Type 0
Buckets close_today close_yesterday = Unit
Buckets close_yesterday close_today = Unit
Buckets _ _ = ⊥

Buckets-closing : (o o' : Offset) → Buckets o o' → (is_opening o ≡ false) × (is_opening o' ≡ false)
Buckets-closing close_today close_yesterday b = (refl, refl)
Buckets-closing close_yesterday close_today b = (refl, refl)
Buckets-closing _ _ b = absurd b

sub_zero : (a w : ℤ) → (w ≤ℤ pos 0) × (pos 0 ≤ℤ w) → a ≡ a -ℤ w
sub_zero a w h = omega int_laws

add_zero : (a : ℤ) → a +ℤ pos 0 ≡ a
add_zero a = omega int_laws

add_rest : (c v : ℤ) → c +ℤ (v -ℤ c) ≡ v
add_rest c v = omega int_laws

module _ {F : Type 0} ⦃fl : FloatOps F⦄ where
  abbrev fill_next :
      Result Error F × ContractPosition F
      → (ContractPosition F → Result Error (Unit {0}) × ContractPosition F)
      → Result Error (Unit {0}) × ContractPosition F
  fill_next (ok _, q) later = later q
  fill_next (err e, q) later = (err e, q)

  -- Each child filled in full at one price, one after the other, until one is refused.
  unfoldable pub fill_children :
      OrderSide
      → F
      → List (Offset × ℤ)
      → ContractPosition F
      → Result Error (Unit {0}) × ContractPosition F
  fill_children side price [] p = (ok tt, p)
  fill_children side price ((offset, volume) ∷ rest) p =
      fill_next (trade_position offset side volume price p) (fill_children side price rest)

  pub record Closes (s : OrderSide) (v : ℤ) (p : ContractPosition F)
      (r : Result Error (Unit {0}) × ContractPosition F) : Type 0 where
    pub accepted : r.0 ≡ ok tt
    pub valid : IsValid r.1
    pub total : side_total s r.1 ≡ side_total s p -ℤ v

  total-apply_close :
      (o : Offset) (s : OrderSide) (v : ℤ) (p : ContractPosition F)
      → side_total s (apply_close o s v p) ≡ side_total s p -ℤ v
  unfolding apply_close
  total-apply_close o sell v p = (consume_long_totals o v p).0
  total-apply_close o buy v p = (consume_short_totals o v p).0

  -- A close of one bucket leaves the other as it was.
  available-other :
      (o o' : Offset) (s : OrderSide) (v : ℤ) (p : ContractPosition F)
      → Buckets o o'
      → available s o' (apply_close o s v p) ≡ available s o' p
  unfolding available apply_close
  available-other close_today close_yesterday buy v p b = refl
  available-other close_today close_yesterday sell v p b = refl
  available-other close_yesterday close_today buy v p b = refl
  available-other close_yesterday close_today sell v p b = refl
  available-other _ _ s v p b = absurd b

  available-nonneg :
      (o o' : Offset) (s : OrderSide) (p : ContractPosition F)
      → Buckets o o'
      → IsValid p
      → (pos 0 ≤ℤ available s o p) × (pos 0 ≤ℤ available s o' p)
  unfolding available
  available-nonneg close_today close_yesterday buy p b h = (h.short_today, h.short_yesterday)
  available-nonneg close_today close_yesterday sell p b h = (h.long_today, h.long_yesterday)
  available-nonneg close_yesterday close_today buy p b h = (h.short_yesterday, h.short_today)
  available-nonneg close_yesterday close_today sell p b h = (h.long_yesterday, h.long_today)
  available-nonneg _ _ s p b h = absurd b

  fill_one :
      FloatOrder F fl
      → (s : OrderSide) (x : F) (o : Offset) (v : ℤ) (p : ContractPosition F) → IsValid p
      → pos 0 <ℤ v
      → is_opening o ≡ false
      → v ≤ℤ available s o p
      → (rest : List (Offset × ℤ)) (w : ℤ)
      → Closes s w (apply_close o s v p) (fill_children s x rest (apply_close o s v p))
      → Closes s (v +ℤ w) p (fill_children s x ((o, v) ∷ rest) p)
  unfolding fill_children
  fill_one order s x o v p h pv c fits rest w later =
      let (e, valid) = trade_position-fits order o s v x p h pv c fits in
      rw (e, fill_children)
        (record {
          accepted = later.accepted;
          valid = later.valid;
          total =
              later.total
              ∙ ap (λ t. t -ℤ w) (total-apply_close o s v p)
              ∙ sub_twice (side_total s p) v w;
        })

  Closes-none :
      (s : OrderSide) (w : ℤ) (x : F) (p : ContractPosition F)
      → IsValid p
      → (w ≤ℤ pos 0) × (pos 0 ≤ℤ w)
      → Closes s w p (fill_children s x [] p)
  unfolding fill_children
  Closes-none s w x p h zero_w = record {
    accepted = refl;
    valid = h;
    total = sub_zero (side_total s p) w zero_w;
  }

  -- The last bucket takes all that remains.
  take_one :
      FloatOrder F fl
      → (s : OrderSide) (x : F) (o : Offset) (r b : ℤ) (p : ContractPosition F) → IsValid p
      → is_opening o ≡ false
      → available s o p ≡ b
      → pos 0 ≤ℤ r
      → r ≤ℤ b
      → Closes s r p (fill_children s x (take_buckets r ((o, b) ∷ [])) p)
  unfolding take_buckets
  take_one order s x o r b p h c same nonneg fits =
      rw (min_ℤ-eq_left r b fits) (elim (Bool-cases (eqb_ℤ r (pos 0))) [
        | inl done ↦ rw done (Closes-none s r x p h (eqb_ℤ→eq r done))
        | inr more ↦ rw more (
            subst (λ v. Closes s v p (fill_children s x ((o, r) ∷ []) p)) (add_zero r)
              (fill_one order s x o r p h (eqb_ℤ→ne r more nonneg) c (rw same fits) [] (pos 0) (
                Closes-none s (pos 0) x _
                  (trade_position-fits order o s r x p h (eqb_ℤ→ne r more nonneg) c
                    (rw same fits)).1
                  (omega arith))))
      ])

  -- Two buckets that together hold the volume, used up in either order.
  take_two :
      FloatOrder F fl
      → (s : OrderSide) (x : F) (o o' : Offset) (v : ℤ) (p : ContractPosition F) → IsValid p
      → Buckets o o'
      → pos 0 <ℤ v
      → v ≤ℤ available s o p +ℤ available s o' p
      → Closes s v p (
          fill_children s x (take_buckets v ((o, available s o p) ∷ (o', available s o' p) ∷ [])) p)
  unfolding take_buckets
  take_two order s x o o' v p h two pv fits =
      let a = available s o p in
      let b = available s o' p in
      let child = min_ℤ v a in
      let (le_v, le_a, ge) = min_ℤ_bounds v a in
      let (nonneg, nonneg') = available-nonneg o o' s p two h in
      let (c, c') = Buckets-closing o o' two in
      let child_nonneg : pos 0 ≤ℤ child = omega int_laws in
      let rest = take_buckets (v -ℤ child) ((o', b) ∷ []) in
      elim (Bool-cases (eqb_ℤ child (pos 0))) [
        | inl unused ↦ rw unused (
            subst (λ w. Closes s w p (fill_children s x rest p))
              (sym (sub_zero v child (eqb_ℤ→eq child unused)))
              (take_one order s x o' (v -ℤ child) b p h c' refl (omega int_laws)
                (omega (int_laws, eqb_ℤ→eq child unused))))
        | inr used ↦
            let used_pos = eqb_ℤ→ne child used child_nonneg in
            rw used (
              subst (λ w. Closes s w p (fill_children s x ((o, child) ∷ rest) p)) (add_rest child v)
                (fill_one order s x o child p h used_pos c le_a rest (v -ℤ child) (
                  take_one order s x o' (v -ℤ child) b (apply_close o s child p)
                    (trade_position-fits order o s child x p h used_pos c le_a).1 c'
                    (available-other o o' s child p two) (omega int_laws) (omega int_laws))))
      ]

  fits_total :
      (s : OrderSide) (v : ℤ) (p : ContractPosition F)
      → v ≤ℤ side_total s p
      → (v ≤ℤ available s close_today p +ℤ available s close_yesterday p)
        × (v ≤ℤ available s close_yesterday p +ℤ available s close_today p)
        × (v ≤ℤ available s close p)
  unfolding available
  fits_total sell v p h = (h, omega int_laws, h)
  fits_total buy v p h = (h, omega int_laws, h)

  -- For a well-formed position and a positive volume within its total, the children of the plan,
  -- filled one after the other at any price, are all accepted; the position stays well formed, and
  -- the total of the closed side falls by exactly the volume. So it is for an exchange that tells
  -- today from yesterday, in either order, and for one that does not.
  pub plan_children-Closes :
      (special today_first : Bool) (s : OrderSide) (x : F) (v : ℤ) (p : ContractPosition F)
      → FloatOrder F fl
      → IsValid p
      → pos 0 <ℤ v
      → v ≤ℤ side_total s p
      → Closes s v p (
          fill_children s x
            (plan_children special today_first
              (available s close_today p)
              (available s close_yesterday p)
              v)
            p)
  unfolding plan_children
  plan_children-Closes true true s x v p order h pv fits =
      take_two order s x close_today close_yesterday v p h tt pv (fits_total s v p fits).0
  plan_children-Closes true false s x v p order h pv fits =
      take_two order s x close_yesterday close_today v p h tt pv (fits_total s v p fits).1
  plan_children-Closes false today_first s x v p order h pv fits =
      let whole = (fits_total s v p fits).2 in
      subst (λ w. Closes s w p (fill_children s x ((close, v) ∷ []) p)) (add_zero v)
        (fill_one order s x close v p h pv refl whole [] (pos 0) (
          Closes-none s (pos 0) x (apply_close close s v p)
            (trade_position-fits order close s v x p h pv refl whole).1 (omega arith)))

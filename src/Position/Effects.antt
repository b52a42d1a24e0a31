-- ===== src/Position/Effects.antt =====
-- What a fill does to the volumes of a position.
use mathlib.Core.Path.{ap₂}
use afuture.Prelude.{
  Result, ◌∙◌, ap, if◌then◌else◌, false, ◌≡◌, refl, Bool-cases, inl, inr, arith, IsOk, ok, err,
}
use afuture.Prelude.Int.{ltb_ℤ, min_ℤ, ℤ, pos, ◌+ℤ◌, ◌-ℤ◌, int_laws}
use afuture.Float.{FloatOps}
use afuture.Models.{
  Error, close_exceeds_bucket, is_opening, OrderSide, buy, sell, Offset, opening, close,
  close_today, close_yesterday, ContractPosition, long_total, short_total, net_volume,
}
use afuture.Position.Book.{
  checked, checked_open, realized_points, available, consume_long, consume_short, apply_open,
  apply_close, trade_position,
}

-- The change that a fill stands for: an opening adds to its own side, a close takes from the other.
abbrev pub long_change : Offset → OrderSide → ℤ → ℤ
long_change opening buy volume = volume
long_change opening sell volume = pos 0
long_change _ buy volume = pos 0
long_change _ sell volume = pos 0 -ℤ volume

abbrev pub short_change : Offset → OrderSide → ℤ → ℤ
short_change opening buy volume = pos 0
short_change opening sell volume = volume
short_change _ buy volume = pos 0 -ℤ volume
short_change _ sell volume = pos 0

abbrev pub signed : OrderSide → ℤ → ℤ
signed buy volume = volume
signed sell volume = pos 0 -ℤ volume

-- However a close is shared out between the two buckets, the total falls by the volume.
split_close : (t y v m : ℤ) → (t -ℤ (v -ℤ m)) +ℤ (y -ℤ m) ≡ t +ℤ y -ℤ v
split_close t y v m = omega int_laws

add_volume : (t y v : ℤ) → t +ℤ v +ℤ y ≡ t +ℤ y +ℤ v
add_volume t y v = omega int_laws

take_volume : (a v : ℤ) → a -ℤ v ≡ a +ℤ (pos 0 -ℤ v)
take_volume a v = omega int_laws

no_change : (a : ℤ) → a ≡ a +ℤ pos 0
no_change a = omega int_laws

net_of_totals : (l s dl ds : ℤ) → (l +ℤ dl) -ℤ (s +ℤ ds) ≡ (l -ℤ s) +ℤ (dl -ℤ ds)
net_of_totals l s dl ds = omega int_laws

change_net :
    (o : Offset) (s : OrderSide) (v : ℤ) → long_change o s v -ℤ short_change o s v ≡ signed s v
change_net opening buy v = omega int_laws
change_net opening sell v = omega int_laws
change_net close buy v = omega int_laws
change_net _ buy v = omega int_laws
change_net _ sell v = omega int_laws

module _ {F : Type 0} where
  pub consume_long_totals :
      (o : Offset) (v : ℤ) (p : ContractPosition F)
      → (long_total (consume_long o v p) ≡ long_total p -ℤ v)
        × (short_total (consume_long o v p) ≡ short_total p)
  unfolding consume_long
  consume_long_totals close_today v p = (omega int_laws, refl)
  consume_long_totals close_yesterday v p = (omega int_laws, refl)
  consume_long_totals _ v p =
      (split_close p.long_today p.long_yesterday v (min_ℤ v p.long_yesterday), refl)

  pub consume_short_totals :
      (o : Offset) (v : ℤ) (p : ContractPosition F)
      → (short_total (consume_short o v p) ≡ short_total p -ℤ v)
        × (long_total (consume_short o v p) ≡ long_total p)
  unfolding consume_short
  consume_short_totals close_today v p = (omega int_laws, refl)
  consume_short_totals close_yesterday v p = (omega int_laws, refl)
  consume_short_totals _ v p =
      (split_close p.short_today p.short_yesterday v (min_ℤ v p.short_yesterday), refl)

-- The volumes of `q` are those of `p` after a fill.
pub record Filled {F : Type 0} (o : Offset) (s : OrderSide) (v : ℤ) (p q : ContractPosition F)
    : Type 0 where
  pub long : long_total q ≡ long_total p +ℤ long_change o s v
  pub short : short_total q ≡ short_total p +ℤ short_change o s v

module _ {F : Type 0} ⦃fl : FloatOps F⦄ where
  pub apply_close-Filled :
      (o : Offset) (s : OrderSide) (v : ℤ) (p : ContractPosition F)
      → is_opening o ≡ false
      → Filled o s v p (apply_close o s v p)
  unfolding apply_close
  apply_close-Filled opening s v p h = cc
  apply_close-Filled o sell v p h = record {
    long = (consume_long_totals o v p).0 ∙ take_volume (long_total p) v;
    short = (consume_long_totals o v p).1 ∙ no_change (short_total p);
  }
  apply_close-Filled o buy v p h = record {
    long = (consume_short_totals o v p).1 ∙ no_change (long_total p);
    short = (consume_short_totals o v p).0 ∙ take_volume (short_total p) v;
  }

  apply_open-Filled :
      (s : OrderSide) (v : ℤ) (x : F) (p q : ContractPosition F)
      → apply_open s v x p ≡ ok q
      → Filled opening s v p q
  unfolding apply_open
  apply_open-Filled buy v x p q h = record {
    long = ground (arith, add_volume p.long_today p.long_yesterday v);
    short = ground (arith, no_change (short_total p));
  }
  apply_open-Filled sell v x p q h = record {
    long = ground (arith, no_change (long_total p));
    short = ground (arith, add_volume p.short_today p.short_yesterday v);
  }

  checked_open-Filled :
      (s : OrderSide) (v : ℤ) (x : F) (p : ContractPosition F)
      → (r : Result Error (ContractPosition F)) → apply_open s v x p ≡ r
      → IsOk (checked_open r p).0
      → Filled opening s v p (checked_open r p).1
  checked_open-Filled s v x p (ok q) e h = apply_open-Filled s v x p q e
  checked_open-Filled s v x p (err _) e h = absurd h

  trade_close-Filled :
      (o : Offset) (s : OrderSide) (v : ℤ) (x : F) (p : ContractPosition F)
      → is_opening o ≡ false
      → let q = apply_close o s v p in
        let r =
          if ltb_ℤ (available s o p) v
          then (err close_exceeds_bucket, p)
          else checked (realized_points s v x p) q in
        IsOk r.0 → Filled o s v p r.1
  trade_close-Filled o s v x p closing h = elim (Bool-cases (ltb_ℤ (available s o p) v)) [
    | inl exceeds ↦ absurd (rw exceeds at h)
    | inr enough ↦ rw enough (apply_close-Filled o s v p closing)
  ]

  -- Every fill that does not raise moves the long total and the short total of the position by what
  -- it stands for: an opening adds its volume to its own side and leaves the other side's total, and a
  -- close takes it from the other side's total and leaves its own.
  pub trade_position-Filled :
      (o : Offset) (s : OrderSide) (v : ℤ) (x : F) (p : ContractPosition F)
      → IsOk (trade_position o s v x p).0
      → Filled o s v p (trade_position o s v x p).1
  unfolding trade_position
  trade_position-Filled opening s v x p h = checked_open-Filled s v x p (apply_open s v x p) refl h
  trade_position-Filled o s v x p h = trade_close-Filled o s v x p refl h

  -- A fill that does not raise moves the net volume by its signed volume, opening or close.
  pub net-trade_position :
      (o : Offset) (s : OrderSide) (v : ℤ) (x : F) (p : ContractPosition F)
      → IsOk (trade_position o s v x p).0
      → net_volume (trade_position o s v x p).1 ≡ net_volume p +ℤ signed s v
  unfolding net_volume
  net-trade_position o s v x p h =
      let f = trade_position-Filled o s v x p h in
      ap₂ ◌-ℤ◌ f.long f.short
      ∙ net_of_totals (long_total p) (short_total p) (long_change o s v) (short_change o s v)
      ∙ ap (λ d. (long_total p -ℤ short_total p) +ℤ d) (change_net o s v)

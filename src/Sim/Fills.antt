-- ===== src/Sim/Fills.antt =====
-- What a match may do to one order: the volume and the price of its fill, and its next state.
use mathlib.Core.Path.{subst}
use afuture.Dict.{some_eq}
use afuture.Prelude.{
  not, ◌&&◌, ◌||◌, Bool, true, false, ◌≡◌, ◌≢◌, ◌⊎◌, inl, inr, Bool-cases, arith, none, some,
  if◌then◌else◌,
}
use afuture.Prelude.Int.{
  ℤ, pos, ◌+ℤ◌, ◌≤ℤ◌, ◌<ℤ◌, ltb_ℤ, leb_ℤ, eqb_ℤ, min_ℤ, int_laws, min_ℤ_bounds,
}
use afuture.Float.{FloatOps}
use afuture.Models.{filled, part_traded, is_active, is_fok, Order, active, Tick}
use afuture.Sim.Matching.{remaining, marketable, fill_volume, filled_order}

offer_pos :
    (available : ℤ) (away : Bool) → (away || leb_ℤ available (pos 0)) ≡ false → pos 0 <ℤ available
offer_pos available away h = ground arith

fok_covered :
    (fok : Bool) (available rest : ℤ)
    → (fok && ltb_ℤ available rest) ≡ false
    → fok ≡ true
    → rest ≤ℤ available
fok_covered fok available rest h k = ground arith

none-ne-some : {A : Type 0} {a : A} → none ≢ some a
none-ne-some h = cc

-- The status that a fill leaves.
open_status :
    (traded volume : ℤ)
    → traded ≤ℤ volume
    → is_active (if eqb_ℤ traded volume then filled else part_traded) ≡ true
    → traded <ℤ volume
open_status traded volume h k = ground arith

filled_status :
    (traded volume : ℤ)
    → (if eqb_ℤ traded volume then filled else part_traded) ≡ filled
    → volume ≤ℤ traded
filled_status traded volume k = ground arith

module _ {F : Type 0} where
  -- An order as the broker keeps it: its traded volume is within its volume, equal to it where the
  -- order is filled and below it where the order is active, and all or nothing for FOK.
  pub record OrderOk (o : Order F) : Type 0 where
    pub volume_pos : pos 0 <ℤ o.request.volume
    pub traded_nonneg : pos 0 ≤ℤ o.traded
    pub traded_le : o.traded ≤ℤ o.request.volume
    pub active_open : active o ≡ true → o.traded <ℤ o.request.volume
    pub filled_all : o.status ≡ filled → o.request.volume ≤ℤ o.traded
    pub fok_whole :
        is_fok o.request.order_type ≡ true → (o.traded ≤ℤ pos 0) ⊎ (o.request.volume ≤ℤ o.traded)

module _ {F : Type 0} ⦃fl : FloatOps F⦄ where
  -- The volume of a fill is positive, within the rest of the order and within the offered depth, and
  -- for FOK it is all of the rest.
  pub record FillFits (o : Order F) (available v : ℤ) : Type 0 where
    pub positive : pos 0 <ℤ v
    pub rest : v ≤ℤ remaining o
    pub offer : v ≤ℤ available
    pub whole : is_fok o.request.order_type ≡ true → remaining o ≤ℤ v

  pub fill_volume-FillFits :
      (o : Order F) (tick : Tick F) (available v : ℤ)
      → pos 0 <ℤ remaining o
      → fill_volume o tick available ≡ some v
      → FillFits o available v
  unfolding fill_volume
  fill_volume-FillFits o tick available v open_order h =
      let m = min_ℤ_bounds (remaining o) available in
      elim (Bool-cases
        (not (marketable o.request.side o.request.price tick) || leb_ℤ available (pos 0))) [
          | inl away ↦ absurd (none-ne-some (rw away at h))
          | inr near ↦
              elim (Bool-cases (is_fok o.request.order_type && ltb_ℤ available (remaining o))) [
                | inl short ↦ absurd (none-ne-some (rw (near, short) at h))
                | inr enough ↦
                    subst (FillFits o available)
                      (some_eq (min_ℤ (remaining o) available) v (rw (near, enough) at h))
                      (record {
                        positive = omega (arith, m, offer_pos available _ near);
                        rest = m.0;
                        offer = m.1;
                        whole = λ fok.
                            omega (arith, m, fok_covered _ available (remaining o) enough fok);
                      })
              ]
        ]

  pub filled_order-OrderOk :
      (o : Order F) (available v : ℤ) (x : F)
      → OrderOk o
      → FillFits o available v
      → OrderOk (filled_order v x o)
  unfolding filled_order active
  filled_order-OrderOk o available v x h fits = record {
    volume_pos = h.volume_pos;
    traded_nonneg = omega int_laws;
    traded_le = omega int_laws;
    active_open = λ still. open_status (o.traded +ℤ v) o.request.volume (omega int_laws) still;
    filled_all = λ done. filled_status (o.traded +ℤ v) o.request.volume done;
    fok_whole = λ fok. inr (omega (int_laws, fits.whole fok));
  }

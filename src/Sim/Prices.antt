-- ===== src/Sim/Prices.antt =====
-- The price of a simulated fill against the order's limit and the daily price limits.
use afuture.Prelude.{true, false, ◌≡◌, inl, inr, Bool-cases}
use afuture.Prelude.Int.{ℤ, pos, ◌-ℤ◌}
use afuture.Float.{
  FloatOps, FloatOrder, fzero, fmin, fmax, fmin-right, fmin-keeps, fmax-right, fmax-keeps,
}
use afuture.Models.{OrderSide, buy, sell, Tick, ContractSpec}
use afuture.Sim.State.{SimConfig}
use afuture.Sim.Matching.{adverse_ticks, fill_price}

module _ {F : Type 0} ⦃fl : FloatOps F⦄ where
  -- A buyer never pays above the bound, and a seller never gets less.
  abbrev pub Within : OrderSide → F → F → Type 0
  Within buy bound price = fl.lt bound price ≡ false
  Within sell bound price = fl.lt price bound ≡ false

  abbrev pub daily_limit : OrderSide → Tick F → F
  daily_limit buy tick = tick.limit_up
  daily_limit sell tick = tick.limit_down

module _ {F : Type 0} ⦃fl : FloatOps F⦄ (order : FloatOrder F fl) where
  -- Whatever slippage and impact are configured, a fill is never worse than the order's own limit
  -- price, and where the tick has a daily limit on that side the fill does not cross it.
  pub fill_price-Within :
      (cfg : SimConfig F) (side : OrderSide) (price : F) (tick : Tick F) (spec : ContractSpec F)
      (wanted available : ℤ)
      → Within side price (fill_price cfg side price tick spec wanted available)
        × (fl.lt fzero (daily_limit side tick) ≡ true
            → Within side
                (daily_limit side tick)
                (fill_price cfg side price tick spec wanted available))
  unfolding fill_price
  fill_price-Within cfg buy price tick spec wanted available =
      let raw =
        fl.add tick.ask_price
          (fl.mul (fl.of_int (adverse_ticks cfg wanted available)) spec.price_tick) in
      elim (Bool-cases (fl.lt fzero tick.limit_up)) [
        | inl limited ↦ rw limited (
          fmin-keeps order price (fmin raw price) tick.limit_up (fmin-right order raw price),
          λ h. fmin-right order (fmin raw price) tick.limit_up,
        )
        | inr free ↦ rw free (fmin-right order raw price, λ h. cc)
      ]
  fill_price-Within cfg sell price tick spec wanted available =
      let raw =
        fl.add tick.bid_price
          (fl.mul (fl.of_int (pos 0 -ℤ adverse_ticks cfg wanted available)) spec.price_tick) in
      elim (Bool-cases (fl.lt fzero tick.limit_down)) [
        | inl limited ↦ rw limited (
          fmax-keeps order price (fmax raw price) tick.limit_down (fmax-right order raw price),
          λ h. fmax-right order (fmax raw price) tick.limit_down,
        )
        | inr free ↦ rw free (fmax-right order raw price, λ h. cc)
      ]

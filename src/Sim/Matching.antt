-- ===== src/Sim/Matching.antt =====
-- `_match_order`, `_fill`, `_cancel_ioc_remainder` and `_match_symbol` of broker/sim.py.
use afuture.Prelude.{
  ℕ, suc, Bool, not, ◌&&◌, ◌||◌, Option, none, some, [], ◌∷◌, ◌++◌, Result, ok, err, if◌then◌else◌,
  or_else,
}
use afuture.Prelude.Int.{ℤ, pos, ◌+ℤ◌, ◌-ℤ◌, ◌*ℤ◌, ltb_ℤ, leb_ℤ, eqb_ℤ, min_ℤ, max_ℤ}
use afuture.Dict.{string_eq, lookup, insert}
use afuture.Float.{FloatOps, fzero, fmin, fmax}
use afuture.Models.{
  Error, unknown_contract, OrderSide, buy, sell, filled, part_traded, cancelled, is_ioc, is_fok,
  Ident, ident_eq, Order, active, Trade, Tick, ContractSpec,
}
use afuture.Fees.{calculate_commission}
use afuture.Position.Book.{PositionBook, apply_trade}
use afuture.Sim.State.{SimConfig, SimState, order_event, trade_event, Method}

-- `depth[depth_index] -= fill_volume`
abbrev pub use_depth : OrderSide → ℤ → ℤ × ℤ → ℤ × ℤ
use_depth buy volume (bid, ask) = (bid, ask -ℤ volume)
use_depth sell volume (bid, ask) = (bid -ℤ volume, ask)

abbrev pub offered : OrderSide → ℤ × ℤ → ℤ
offered buy (bid, ask) = ask
offered sell (bid, ask) = bid

module _ {F : Type 0} ⦃fl : FloatOps F⦄ where
  -- `_displayed_depth`
  unfoldable pub displayed_depth : SimConfig F → F → ℤ
  displayed_depth cfg volume =
      let raw = max_ℤ (pos 0) (fl.truncate volume) in
      if not cfg.conservative
      then raw
      else max_ℤ (pos 0) (fl.truncate (fl.mul (fl.of_int raw) cfg.depth_haircut))

  abbrev pub remaining : Order F → ℤ
  remaining order = order.request.volume -ℤ order.traded

  abbrev pub marketable : OrderSide → F → Tick F → Bool
  marketable buy price tick = fl.le tick.ask_price price
  marketable sell price tick = fl.le price tick.bid_price

  -- How much of an order the offered depth fills, if anything.
  unfoldable pub fill_volume : Order F → Tick F → ℤ → Option ℤ
  fill_volume order tick available =
      if not (marketable order.request.side order.request.price tick) || leb_ℤ available (pos 0)
      then none
      else if is_fok order.request.order_type && ltb_ℤ available (remaining order)
      then none
      else some (min_ℤ (remaining order) available)

  -- `slippage_ticks + impact_ticks`
  unfoldable pub adverse_ticks : SimConfig F → ℤ → ℤ → ℤ
  adverse_ticks cfg wanted available =
      let impact = if cfg.conservative then cfg.market_impact_ticks else pos 0 in
      let extra_multiples =
        max_ℤ (pos 0) (fl.ceil (fl.div (fl.of_int wanted) (fl.of_int available)) -ℤ pos 1) in
      cfg.slippage_ticks
      +ℤ (if cfg.conservative && ltb_ℤ (pos 0) cfg.size_impact_ticks
          then impact +ℤ extra_multiples *ℤ cfg.size_impact_ticks
          else impact)

  -- The price of a fill: worsened by slippage and impact, never beyond the order's limit, and held
  -- inside the daily limit.
  unfoldable pub fill_price : SimConfig F → OrderSide → F → Tick F → ContractSpec F → ℤ → ℤ → F
  unfolding adverse_ticks
  fill_price cfg buy price tick spec wanted available =
      let ticks = fl.of_int (adverse_ticks cfg wanted available) in
      let capped = fmin (fl.add tick.ask_price (fl.mul ticks spec.price_tick)) price in
      if fl.lt fzero tick.limit_up then fmin capped tick.limit_up else capped
  fill_price cfg sell price tick spec wanted available =
      let ticks = fl.of_int (pos 0 -ℤ adverse_ticks cfg wanted available) in
      let capped = fmax (fl.add tick.bid_price (fl.mul ticks spec.price_tick)) price in
      if fl.lt fzero tick.limit_down then fmax capped tick.limit_down else capped

  -- The order after a fill; its divisor is positive, since a fill is.
  unfoldable pub filled_order : ℤ → F → Order F → Order F
  filled_order volume price order =
      let traded = order.traded +ℤ volume in
      record order {
        traded = traded;
        average_price =
            fl.div
              (fl.add (fl.mul order.average_price (fl.of_int order.traded))
                (fl.mul price (fl.of_int volume)))
              (fl.of_int traded);
        status = if eqb_ℤ traded order.request.volume then filled else part_traded;
      }

  unfoldable pub trade_of : ℕ → Order F → ℤ → F → Tick F → Trade F
  trade_of sequence order volume price tick = record {
    trade_id = Ident.sim_trade sequence;
    order_id = order.order_id;
    symbol = order.request.symbol;
    exchange = order.request.exchange;
    side = order.request.side;
    offset = order.request.offset;
    volume = volume;
    price = price;
    timestamp = tick.timestamp;
    commission = fzero;
  }

  -- The accounting of `_fill`, after the book took the trade.
  abbrev pub settle_trade :
      ContractSpec F → Trade F → Result Error F × PositionBook F → Method F (Unit {0})
  settle_trade spec trade (err e, book) st = (err e, record st { book = book })
  settle_trade spec trade (ok points, book) st =
      let realized = fl.mul points spec.multiplier in
      let fee = calculate_commission spec trade.offset trade.price trade.volume in
      let booked = record trade { commission = fee } in
      (
        ok tt,
        record st {
          book = book;
          realized_pnl = fl.add st.realized_pnl realized;
          commission = fl.add st.commission fee;
          balance = fl.add st.balance (fl.sub realized fee);
          trades = st.trades ++ booked ∷ [];
          events = st.events ++ trade_event booked ∷ order_event trade.order_id ∷ [];
        },
      )

  -- What `_fill` changes before the book sees the trade, and what stays if the book refuses it.
  unfoldable pub before_trade : Order F → ℤ → F → SimState F → SimState F
  unfolding filled_order
  before_trade order volume price st = record st {
    orders = insert order.order_id (filled_order volume price order) st.orders;
    first_fill_seq =
        insert order.order_id (or_else (lookup order.order_id st.first_fill_seq) st.tick_seq)
          st.first_fill_seq;
    next_trade_sequence = suc st.next_trade_sequence;
  }

  -- `_fill`
  unfoldable pub fill : ContractSpec F → Order F → Tick F → ℤ → F → Method F (Unit {0})
  unfolding before_trade trade_of
  fill spec order tick volume price st =
      let trade = trade_of st.next_trade_sequence order volume price tick in
      settle_trade spec trade (apply_trade trade st.book) (before_trade order volume price st)

  -- The end of `_match_order`, once the volume is known.
  abbrev pub fill_with :
      SimConfig F
      → Order F
      → Tick F
      → ℤ × ℤ
      → Option ℤ
      → Option (ContractSpec F)
      → Method F (Unit {0})
  fill_with cfg order tick depth none spec st = (ok tt, st)
  fill_with cfg order tick depth (some volume) none st = (err unknown_contract, st)
  fill_with cfg order tick depth (some volume) (some spec) st =
      let side = order.request.side in
      fill spec order tick volume
        (fill_price cfg side order.request.price tick spec (remaining order) (offered side depth))
        (record st { depth = insert order.request.symbol (use_depth side volume depth) st.depth })

  -- The middle of `_match_order`: the depth of the tick, made if there is none.
  unfoldable pub match_depth : SimConfig F → Order F → Tick F → Method F (Unit {0})
  unfolding displayed_depth
  match_depth cfg order tick st =
      let symbol = order.request.symbol in
      let depth =
        or_else (lookup symbol st.depth)
          (displayed_depth cfg tick.bid_volume, displayed_depth cfg tick.ask_volume) in
      fill_with cfg order tick depth (fill_volume order tick (offered order.request.side depth))
        (lookup symbol cfg.specs) (record st { depth = insert symbol depth st.depth })

  abbrev pub match_tick : SimConfig F → Order F → Option (Tick F) → Method F (Unit {0})
  match_tick cfg order none st = (ok tt, st)
  match_tick cfg order (some tick) st =
      if not (active order)
        || (cfg.conservative
            && ltb_ℤ st.tick_seq (or_else (lookup order.order_id st.eligible_seq) (pos 0)))
      then (ok tt, st)
      else match_depth cfg order tick st

  -- `_match_order`
  unfoldable pub match_order : SimConfig F → Order F → Method F (Unit {0})
  match_order cfg order st = match_tick cfg order (lookup order.request.symbol st.ticks) st

  -- `_cancel_ioc_remainder`, on the order as it now stands.
  abbrev pub cancel_remainder : Option (Order F) → SimState F → SimState F
  cancel_remainder none st = st
  cancel_remainder (some order) st =
      if is_ioc order.request.order_type && active order
      then record st {
        orders = insert order.order_id (record order { status = cancelled }) st.orders;
        events = st.events ++ order_event order.order_id ∷ [];
      }
      else st

  unfoldable pub cancel_ioc_remainder : Ident → SimState F → SimState F
  cancel_ioc_remainder id st = cancel_remainder (lookup id st.orders) st

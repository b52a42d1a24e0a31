-- ===== src/Sim/Depths.antt =====
-- About what a match takes from the displayed depth.
use afuture.Prelude.{◌≡◌, refl, ◌∙◌, Option, none, some, Result, ok, err, or_else}
use afuture.Prelude.Int.{ℤ, ◌+ℤ◌, ◌-ℤ◌}
use afuture.Dict.{string_eq, lookup, insert, lookup-insert_self}
use afuture.Float.{FloatOps}
use afuture.Models.{Error, OrderSide, buy, sell, Order, ident_eq, Trade, Tick, ContractSpec}
use afuture.Position.Book.{PositionBook, apply_trade}
use afuture.Sim.State.{SimConfig, SimState}
use afuture.Sim.Matching.{
  use_depth, offered, displayed_depth, remaining, fill_volume, fill_price, filled_order, trade_of,
  before_trade, settle_trade, fill, fill_with, match_depth,
}

-- The two sides of the depth of a contract: the one that an order on the side takes from, and the other.
abbrev pub other_side : OrderSide → ℤ × ℤ → ℤ
other_side buy (bid, ask) = bid
other_side sell (bid, ask) = ask

module _ {F : Type 0} where
  -- What one match of an order has taken from the depth that stood there: nothing, or the volume by
  -- which the order's own traded volume has grown.
  pub data Takes (o : Order F) (depth : ℤ × ℤ) (before after : SimState F) : Type 0 where
    takes_nothing :
        lookup o.request.symbol after.depth ≡ some depth
        → after.orders ≡ before.orders
        → after.trades ≡ before.trades
        → Takes o depth before after
    takes :
        (volume : ℤ) (left : ℤ × ℤ) (filled : Order F)
        → lookup o.request.symbol after.depth ≡ some left
        → offered o.request.side left ≡ offered o.request.side depth -ℤ volume
        → other_side o.request.side left ≡ other_side o.request.side depth
        → lookup o.order_id after.orders ≡ some filled
        → filled.traded ≡ o.traded +ℤ volume
        → Takes o depth before after

use_depth-sides :
    (side : OrderSide) (v : ℤ) (d : ℤ × ℤ)
    → (offered side (use_depth side v d) ≡ offered side d -ℤ v)
      × (other_side side (use_depth side v d) ≡ other_side side d)
use_depth-sides buy v d = (refl, refl)
use_depth-sides sell v d = (refl, refl)

module _ {F : Type 0} ⦃fl : FloatOps F⦄ where
  filled_order-traded : (v : ℤ) (x : F) (o : Order F) → (filled_order v x o).traded ≡ o.traded +ℤ v
  unfolding filled_order
  filled_order-traded v x o = refl

  settled-Takes :
      (spec : ContractSpec F) (o : Order F) (trade : Trade F) (v : ℤ) (x : F) (d : ℤ × ℤ)
      (before st : SimState F) (booked : Result Error F × PositionBook F)
      → st.depth ≡ insert o.request.symbol (use_depth o.request.side v d) before.depth
      → Takes o d before (settle_trade spec trade booked (before_trade o v x st)).1
  unfolding before_trade
  settled-Takes spec o trade v x d before st (ok points, book) same =
      let (mine, other) = use_depth-sides o.request.side v d in
      takes v (use_depth o.request.side v d) (filled_order v x o)
        (rw same (lookup-insert_self o.request.symbol (use_depth o.request.side v d) before.depth))
        mine other (lookup-insert_self o.order_id (filled_order v x o) st.orders)
        (filled_order-traded v x o)
  settled-Takes spec o trade v x d before st (err e, book) same =
      let (mine, other) = use_depth-sides o.request.side v d in
      takes v (use_depth o.request.side v d) (filled_order v x o)
        (rw same (lookup-insert_self o.request.symbol (use_depth o.request.side v d) before.depth))
        mine other (lookup-insert_self o.order_id (filled_order v x o) st.orders)
        (filled_order-traded v x o)

  fill-Takes :
      (spec : ContractSpec F) (o : Order F) (tick : Tick F) (v : ℤ) (x : F) (d : ℤ × ℤ)
      (before st : SimState F)
      → st.depth ≡ insert o.request.symbol (use_depth o.request.side v d) before.depth
      → Takes o d before (fill spec o tick v x st).1
  unfolding fill
  fill-Takes spec o tick v x d before st same =
      settled-Takes spec o (trade_of st.next_trade_sequence o v x tick) v x d before st
        (apply_trade (trade_of st.next_trade_sequence o v x tick) st.book) same

  fill_with-Takes :
      (cfg : SimConfig F) (o : Order F) (tick : Tick F) (d : ℤ × ℤ) (wanted : Option ℤ)
      (spec : Option (ContractSpec F)) (st : SimState F)
      → lookup o.request.symbol st.depth ≡ some d
      → Takes o d st (fill_with cfg o tick d wanted spec st).1
  fill_with-Takes cfg o tick d none spec st h = takes_nothing h refl refl
  fill_with-Takes cfg o tick d (some v) none st h = takes_nothing h refl refl
  fill_with-Takes cfg o tick d (some v) (some spec) st h =
      let side = o.request.side in
      fill-Takes spec o tick v
        (fill_price cfg side o.request.price tick spec (remaining o) (offered side d)) d st
        (record st { depth = insert o.request.symbol (use_depth side v d) st.depth }) refl

  same_tables :
      (o : Order F) (d : ℤ × ℤ) (before st after : SimState F)
      → st.orders ≡ before.orders
      → st.trades ≡ before.trades
      → Takes o d st after
      → Takes o d before after
  same_tables o d before st after orders trades (takes_nothing k p q) =
      takes_nothing k (p ∙ orders) (q ∙ trades)
  same_tables o d before st after orders trades (takes v left f k m n p q) =
      takes v left f k m n p q

  -- What a match of an order takes from the displayed depth is what the order fills: the depth that
  -- stands for its contract, or else the depth that the tick displays, loses on the side that the order
  -- trades against exactly the volume by which the order's traded volume grows, and nothing on the
  -- other side; where nothing is filled, the depth, the orders and the trades are as before. This is
  -- so also where the match raises.
  pub match_depth-Takes :
      (cfg : SimConfig F) (o : Order F) (tick : Tick F) (st : SimState F)
      → Takes o
          (or_else
            (lookup o.request.symbol st.depth)
            (displayed_depth cfg tick.bid_volume, displayed_depth cfg tick.ask_volume))
          st
          (match_depth cfg o tick st).1
  unfolding match_depth
  match_depth-Takes cfg o tick st =
      let d : ℤ × ℤ =
        or_else (lookup o.request.symbol st.depth)
          (displayed_depth cfg tick.bid_volume, displayed_depth cfg tick.ask_volume) in
      let shown = record st { depth = insert o.request.symbol d st.depth } in
      same_tables o d st shown _ refl refl (
        fill_with-Takes cfg o tick d (fill_volume o tick (offered o.request.side d))
          (lookup o.request.symbol cfg.specs) shown
          (lookup-insert_self o.request.symbol d st.depth))

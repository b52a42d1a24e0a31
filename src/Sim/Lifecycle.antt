-- ===== src/Sim/Lifecycle.antt =====
-- What every operation of the simulated broker keeps of its orders and of the offered depth,
-- whether it returns or raises.
use afuture.Prelude.{
  String, Bool, true, false, not, ◌&&◌, ◌||◌, ◌≡◌, refl, inl, inr, Bool-cases, arith, Option, none,
  some, All, Result, ok, err, or_else,
}
use afuture.Prelude.Int.{ℤ, pos, ◌-ℤ◌, ◌≤ℤ◌, ◌<ℤ◌, ltb_ℤ, max_ℤ, int_laws}
use afuture.Dict.{Dict, string_eq, lookup, insert, All-insert, All-lookup}
use afuture.Float.{FloatOps}
use afuture.Models.{
  is_ioc, Error, OrderSide, buy, sell, cancelled, Ident, ident_eq, Order, active, Trade, Tick,
  ContractSpec,
}
use afuture.Position.Book.{PositionBook, apply_trade}
use afuture.Sim.State.{SimConfig, SimState}
use afuture.Sim.Matching.{
  displayed_depth, fill_volume, filled_order, trade_of, before_trade, settle_trade, fill, use_depth,
  offered, fill_with, match_depth, match_tick, match_order, cancel_remainder, cancel_ioc_remainder,
}
use afuture.Sim.Fills.{OrderOk, FillFits, fill_volume-FillFits, filled_order-OrderOk}

-- Neither side of the offered depth is negative.
abbrev pub DepthOk : String × (ℤ × ℤ) → Type 0
DepthOk e = (pos 0 ≤ℤ e.1.0) × (pos 0 ≤ℤ e.1.1)

use_depth-DepthOk :
    (symbol : String) (side : OrderSide) (v : ℤ) (d : ℤ × ℤ)
    → pos 0 <ℤ v
    → v ≤ℤ offered side d
    → DepthOk (symbol, d)
    → DepthOk (symbol, use_depth side v d)
use_depth-DepthOk symbol buy v d positive fits h = (h.0, omega int_laws)
use_depth-DepthOk symbol sell v d positive fits h = (omega int_laws, h.1)

max_ℤ-nonneg : (a : ℤ) → pos 0 ≤ℤ max_ℤ (pos 0) a
max_ℤ-nonneg a = ground arith

rest_pos : (t v : ℤ) → t <ℤ v → pos 0 <ℤ v -ℤ t
rest_pos t v h = omega int_laws

live_of : (live waits : Bool) → (not live || waits) ≡ false → live ≡ true
live_of live waits h = ground arith

found_depth-DepthOk :
    (symbol : String) (d : ℤ × ℤ) (table : Dict String (ℤ × ℤ)) (r : Option (ℤ × ℤ))
    → lookup symbol table ≡ r
    → All DepthOk table
    → DepthOk (symbol, d)
    → DepthOk (symbol, or_else r d)
found_depth-DepthOk symbol d table none found h shown = shown
found_depth-DepthOk symbol d table (some e) found h shown =
    All-lookup DepthOk symbol e table h found

module _ {F : Type 0} where
  -- An entry of the order table: stored under its own id, and well formed.
  pub record EntryOk (e : Ident × Order F) : Type 0 where
    pub own_id : e.1.order_id ≡ e.0
    pub order : OrderOk e.1

  pub record SimOk (st : SimState F) : Type 0 where
    pub orders : All EntryOk st.orders
    pub depth : All DepthOk st.depth

  pub cancelled-OrderOk : (o : Order F) → OrderOk o → OrderOk (record o { status = cancelled })
  unfolding active
  cancelled-OrderOk o h = record {
    volume_pos = h.volume_pos;
    traded_nonneg = h.traded_nonneg;
    traded_le = h.traded_le;
    active_open = λ still. cc;
    filled_all = λ done. cc;
    fok_whole = h.fok_whole;
  }

  -- An order that is stored again under its own id.
  pub store-EntryOk :
      (o o' : Order F) (st : SimState F)
      → o'.order_id ≡ o.order_id
      → OrderOk o'
      → All EntryOk st.orders
      → All EntryOk (insert o.order_id o' st.orders)
  store-EntryOk o o' st same good h =
      All-insert EntryOk o.order_id o' st.orders (record { own_id = same; order = good }) h

module _ {F : Type 0} ⦃fl : FloatOps F⦄ where
  settle_trade-keeps :
      (spec : ContractSpec F) (trade : Trade F) (r : Result Error F × PositionBook F)
      (st : SimState F)
      → SimOk st
      → SimOk (settle_trade spec trade r st).1
  settle_trade-keeps spec trade (ok points, book) st h = record {
    orders = h.orders;
    depth = h.depth;
  }
  settle_trade-keeps spec trade (err e, book) st h = record { orders = h.orders; depth = h.depth }

  fill-keeps :
      (spec : ContractSpec F) (o : Order F) (tick : Tick F) (available v : ℤ) (x : F)
      (st : SimState F)
      → OrderOk o
      → FillFits o available v
      → SimOk st
      → SimOk (fill spec o tick v x st).1
  unfolding fill
  fill-keeps spec o tick available v x st good fits h =
      settle_trade-keeps spec (trade_of st.next_trade_sequence o v x tick)
        (apply_trade (trade_of st.next_trade_sequence o v x tick) st.book) (before_trade o v x st)
        (record {
          orders =
              store-EntryOk o (filled_order v x o) st refl
                (filled_order-OrderOk o available v x good fits) h.orders;
          depth = h.depth;
        })

  fill_with-keeps :
      (cfg : SimConfig F) (o : Order F) (tick : Tick F) (d : ℤ × ℤ) (r : Option ℤ)
      (spec : Option (ContractSpec F)) (st : SimState F)
      → OrderOk o
      → ((v : ℤ) → r ≡ some v → FillFits o (offered o.request.side d) v)
      → DepthOk (o.request.symbol, d)
      → SimOk st
      → SimOk (fill_with cfg o tick d r spec st).1
  fill_with-keeps cfg o tick d none spec st good fits deep h = h
  fill_with-keeps cfg o tick d (some v) none st good fits deep h = h
  fill_with-keeps cfg o tick d (some v) (some spec) st good fits deep h =
      let fit = fits v refl in
      fill-keeps spec o tick (offered o.request.side d) v _ _ good fit (record {
        orders = h.orders;
        depth =
            All-insert DepthOk o.request.symbol (use_depth o.request.side v d) st.depth
              (use_depth-DepthOk o.request.symbol o.request.side v d fit.positive fit.offer deep)
              h.depth;
      })

  displayed_depth-nonneg : (cfg : SimConfig F) (volume : F) → pos 0 ≤ℤ displayed_depth cfg volume
  unfolding displayed_depth
  displayed_depth-nonneg cfg volume = elim (Bool-cases cfg.conservative) [
    | inl haircut ↦ rw haircut (
        max_ℤ-nonneg
          (fl.truncate (fl.mul (fl.of_int (max_ℤ (pos 0) (fl.truncate volume))) cfg.depth_haircut)))
    | inr raw ↦ rw raw (max_ℤ-nonneg (fl.truncate volume))
  ]

  pub shown-DepthOk :
      (cfg : SimConfig F) (symbol : String) (tick : Tick F)
      → DepthOk (symbol, (displayed_depth cfg tick.bid_volume, displayed_depth cfg tick.ask_volume))
  shown-DepthOk cfg symbol tick =
      (displayed_depth-nonneg cfg tick.bid_volume, displayed_depth-nonneg cfg tick.ask_volume)

  match_depth-keeps :
      (cfg : SimConfig F) (o : Order F) (tick : Tick F) (st : SimState F)
      → OrderOk o
      → active o ≡ true
      → SimOk st
      → SimOk (match_depth cfg o tick st).1
  unfolding match_depth
  match_depth-keeps cfg o tick st good live h =
      let symbol = o.request.symbol in
      let shown : ℤ × ℤ =
        (displayed_depth cfg tick.bid_volume, displayed_depth cfg tick.ask_volume) in
      let d = or_else (lookup symbol st.depth) shown in
      let deep =
        found_depth-DepthOk symbol shown st.depth (lookup symbol st.depth) refl h.depth
          (shown-DepthOk cfg symbol tick) in
      fill_with-keeps cfg o tick d (fill_volume o tick (offered o.request.side d))
        (lookup symbol cfg.specs) (record st { depth = insert symbol d st.depth }) good
        (λ v found.
          fill_volume-FillFits o tick (offered o.request.side d) v
            (rest_pos o.traded o.request.volume (good.active_open live)) found)
        deep
        (record { orders = h.orders; depth = All-insert DepthOk symbol d st.depth deep h.depth })

  match_tick-keeps :
      (cfg : SimConfig F) (o : Order F) (t : Option (Tick F)) (st : SimState F)
      → OrderOk o
      → SimOk st
      → SimOk (match_tick cfg o t st).1
  match_tick-keeps cfg o none st good h = h
  match_tick-keeps cfg o (some tick) st good h =
      let waits =
        cfg.conservative
        && ltb_ℤ st.tick_seq (or_else (lookup o.order_id st.eligible_seq) (pos 0)) in
      elim (Bool-cases (not (active o) || waits)) [
        | inl skipped ↦ rw skipped h
        | inr due ↦ rw due (match_depth-keeps cfg o tick st good (live_of (active o) waits due) h)
      ]

  pub match_order-keeps :
      (cfg : SimConfig F) (o : Order F) (st : SimState F)
      → OrderOk o
      → SimOk st
      → SimOk (match_order cfg o st).1
  unfolding match_order
  match_order-keeps cfg o st good h =
      match_tick-keeps cfg o (lookup o.request.symbol st.ticks) st good h

  cancel_remainder-keeps :
      (r : Option (Order F)) (st : SimState F)
      → ((o : Order F) → r ≡ some o → OrderOk o)
      → SimOk st
      → SimOk (cancel_remainder r st)
  cancel_remainder-keeps none st good h = h
  cancel_remainder-keeps (some o) st good h =
      elim (Bool-cases (is_ioc o.request.order_type && active o)) [
        | inl ends ↦ rw ends (record {
          orders =
              store-EntryOk o (record o { status = cancelled }) st refl
                (cancelled-OrderOk o (good o refl)) h.orders;
          depth = h.depth;
        })
        | inr stays ↦ rw stays h
      ]

  pub found-OrderOk :
      (id : Ident) (st : SimState F) (o : Order F)
      → SimOk st
      → lookup id st.orders ≡ some o
      → OrderOk o
  found-OrderOk id st o h found = (All-lookup EntryOk id o st.orders h.orders found).order

  pub cancel_ioc_remainder-keeps :
      (id : Ident) (st : SimState F) → SimOk st → SimOk (cancel_ioc_remainder id st)
  unfolding cancel_ioc_remainder
  cancel_ioc_remainder-keeps id st h =
      cancel_remainder-keeps (lookup id st.orders) st (λ o found. found-OrderOk id st o h found) h

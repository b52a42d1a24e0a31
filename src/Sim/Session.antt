-- ===== src/Sim/Session.antt =====
-- The operations of `SimBroker` that its callers use: orders, ticks and events.
use afuture.Prelude.{
  known, suc, String, not, ◌&&◌, ◌||◌, Option, none, some, List, [], ◌∷◌, ◌++◌, Result, ok, err,
  ◌>>=◌, ◌>>◌, if◌then◌else◌, or_else,
}
use afuture.Prelude.Int.{pos, ◌+ℤ◌, leb_ℤ, eqb_ℤ}
use afuture.Prelude.Text.{str_eq}
use afuture.Dict.{Dict, string_eq, lookup, insert}
use afuture.Float.{FloatOps, fzero}
use afuture.Models.{
  Error, not_started, unknown_contract, invalid_request, not_traded, cancelled, Ident, ident_eq,
  OrderRequest, Order, active, Tick, validate_tick,
}
use afuture.Sim.State.{
  SimConfig, SimState, BrokerEvent, order_event, tick_event, Method, continue, continue_with,
}
use afuture.Sim.Days.{validated_trading_day, account_values, apply_trading_day}
use afuture.Sim.Matching.{displayed_depth, match_order, cancel_ioc_remainder}

module _ {F : Type 0} ⦃fl : FloatOps F⦄ where
  -- One round of `_match_symbol`, on the order as it now stands.
  abbrev pub match_found : SimConfig F → String → Ident → Option (Order F) → Method F (Unit {0})
  match_found cfg symbol id none st = (ok tt, st)
  match_found cfg symbol id (some order) st =
      if not (active order) || not (str_eq order.request.symbol symbol)
      then (ok tt, st)
      else continue (match_order cfg order st) λ st'. (
        ok tt,
        if leb_ℤ (or_else (lookup id st'.eligible_seq) (pos 0)) st'.tick_seq
            then cancel_ioc_remainder id st'
            else st',
      )

  unfoldable pub match_one : SimConfig F → String → Ident → Method F (Unit {0})
  match_one cfg symbol id st = match_found cfg symbol id (lookup id st.orders) st

  unfoldable pub match_all : SimConfig F → String → List Ident → Method F (Unit {0})
  match_all cfg symbol [] st = (ok tt, st)
  match_all cfg symbol (id ∷ ids) st =
      continue (match_one cfg symbol id st) (match_all cfg symbol ids)

  abbrev pub ids_of : Dict Ident (Order F) → List Ident
  ids_of [] = []
  ids_of ((id, order) ∷ d) = id ∷ ids_of d

  -- `_match_symbol`, over the orders that there are when it begins.
  unfoldable pub match_symbol : SimConfig F → String → Method F (Unit {0})
  match_symbol cfg symbol st = match_all cfg symbol (ids_of st.orders) st

  -- `self._tick_seq += 1`, and the tick with its depth on show.
  unfoldable pub show_tick : SimConfig F → Tick F → SimState F → SimState F
  unfolding displayed_depth
  show_tick cfg tick st = record st {
    tick_seq = st.tick_seq +ℤ pos 1;
    ticks = insert tick.symbol tick st.ticks;
    depth =
        insert tick.symbol
          (displayed_depth cfg tick.bid_volume, displayed_depth cfg tick.ask_volume) st.depth;
  }

  -- `_apply_tick`
  unfoldable pub apply_tick : SimConfig F → Tick F → Option F → Method F (Unit {0})
  unfolding apply_trading_day show_tick
  apply_tick cfg tick equity st = continue (apply_trading_day tick.trading_day equity st) λ st1.
      continue (match_symbol cfg tick.symbol (show_tick cfg tick st1))
        λ st2. (ok tt, record st2 { events = st2.events ++ tick_event tick ∷ [] })

  -- The equity that ends the day, where the tick begins a new one.
  abbrev pub completed_equity : SimConfig F → String → SimState F → Result Error (Option F)
  completed_equity cfg day st =
      if not (str_eq st.trading_day "") && not (str_eq day st.trading_day)
      then (do values ← account_values cfg st; ok (some values.2))
      else ok none

  abbrev pub tick_day : Tick F → Result Error String
  tick_day tick = validate_tick tick >> validated_trading_day tick.trading_day

  abbrev pub publish_on : SimConfig F → Tick F → String → Method F (Unit {0})
  publish_on cfg tick day st = continue_with (completed_equity cfg day st) st (apply_tick cfg tick)

  -- `publish_tick`, with no observer of raw ticks installed.
  unfoldable pub publish_tick : SimConfig F → Tick F → Method F (Unit {0})
  publish_tick cfg tick st = continue_with (tick_day tick) st (publish_on cfg tick)

  -- The new order and its entries in the tables of `send_order`.
  unfoldable pub accept_order : SimConfig F → OrderRequest F → SimState F → SimState F
  accept_order cfg request st =
      let id = Ident.sim_order st.next_order_sequence in
      record st {
        next_order_sequence = suc st.next_order_sequence;
        orders =
            insert id
              (record {
                order_id = id;
                request = request;
                status = not_traded;
                traded = pos 0;
                average_price = fzero;
              })
              st.orders;
        events = st.events ++ order_event id ∷ [];
        eligible_seq = insert id (st.tick_seq +ℤ cfg.latency_ticks) st.eligible_seq;
      }

  abbrev pub match_new : SimConfig F → Ident → Option (Order F) → Method F (Unit {0})
  match_new cfg id none st = (ok tt, st)
  match_new cfg id (some order) st =
      continue (match_order cfg order st) λ st'. (ok tt, cancel_ioc_remainder id st')

  -- `order_id` in the caller's hands, once the order is in the tables.
  abbrev pub place : SimConfig F → Ident → Method F Ident
  place cfg id st =
      if not cfg.conservative || eqb_ℤ cfg.latency_ticks (pos 0)
      then continue (match_new cfg id (lookup id st.orders) st) (λ st'. (ok id, st'))
      else (ok id, st)

  -- `send_order`
  unfoldable pub send_order : SimConfig F → OrderRequest F → Method F Ident
  unfolding accept_order
  send_order cfg request st =
      if not st.started
      then (err not_started, st)
      else if not (known (lookup request.symbol cfg.specs))
      then (err unknown_contract, st)
      else if leb_ℤ request.volume (pos 0) || fl.le request.price fzero
      then (err invalid_request, st)
      else place cfg (Ident.sim_order st.next_order_sequence) (accept_order cfg request st)

  abbrev pub cancel_found : Option (Order F) → SimState F → SimState F
  cancel_found none st = st
  cancel_found (some order) st =
      if active order
      then record st {
        orders = insert order.order_id (record order { status = cancelled }) st.orders;
        events = st.events ++ order_event order.order_id ∷ [];
      }
      else st

  -- `cancel_order`
  unfoldable pub cancel_order : Ident → SimState F → SimState F
  cancel_order id st = cancel_found (lookup id st.orders) st

  -- `poll_events`
  unfoldable pub poll_events : SimState F → List (BrokerEvent F) × SimState F
  poll_events st = (st.events, record st { events = [] })

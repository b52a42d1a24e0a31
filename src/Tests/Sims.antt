-- ===== src/Tests/Sims.antt =====
-- The simulated broker on a concrete tick and concrete orders.
use afuture.Prelude.{◌≡◌, true, false, List, [], ◌∷◌}
use afuture.Prelude.Int.{ℤ, pos, ◌+ℤ◌, ◌-ℤ◌, ◌*ℤ◌}
use afuture.Prelude.Text.{is_blank}
use afuture.Dict.{lookup, insert, string_eq}
use afuture.Models.{
  OrderSide, buy, sell, Offset, opening, close, OrderType, limit, fak, not_traded, Ident,
  OrderRequest, Order, Tick, ContractSpec, validate_trade, validate_tick, bad_tick,
  validate_position, validate_side, ident_eq, active, new_position,
}
use afuture.Fees.{calculate_commission}
use afuture.Position.Book.{apply_trade, fetch, trade_position}
use afuture.Sim.State.{SimConfig, new_sim, start}
use afuture.Sim.Days.{validated_trading_day, digits_of, apply_trading_day}
use afuture.Sim.Matching.{
  displayed_depth, fill_volume, adverse_ticks, fill_price, filled_order, trade_of, before_trade,
  fill, match_depth, match_order, cancel_ioc_remainder,
}
use afuture.Sim.Session.{
  match_one, match_all, match_symbol, show_tick, apply_tick, publish_tick, accept_order, send_order,
}
use afuture.Sim.Lifecycle.{SimOk}
use afuture.Sim.Accounts.{Balanced}
use afuture.Sim.Prices.{Within, fill_price-Within}
use afuture.Sim.Depths.{Takes, match_depth-Takes}
use afuture.Prelude.{or_else}
use afuture.Sim.Calls.{
  Call, start_call, send_call, tick_call, call, run_all, run_until, run_all-SimOk,
  run_until-Balanced,
}
use afuture.Tests.Numbers.{whole, whole_order}

abbrev pub rebar : ContractSpec ℤ
rebar = record {
  symbol = "rb2501";
  exchange = "SHFE";
  multiplier = pos 10;
  price_tick = pos 1;
  margin_rate_long = pos 1;
  margin_rate_short = pos 1;
  fee = record {
    open_fixed = pos 3;
    open_rate = pos 0;
    close_fixed = pos 3;
    close_rate = pos 0;
    close_today_fixed = pos 6;
    close_today_rate = pos 0;
  };
}

abbrev settings : SimConfig ℤ
settings = record {
  specs = ("rb2501", rebar) ∷ [];
  slippage_ticks = pos 1;
  conservative = false;
  latency_ticks = pos 0;
  market_impact_ticks = pos 0;
  depth_haircut = pos 1;
  size_impact_ticks = pos 0;
}

abbrev pub quote : Tick ℤ
quote = record {
  symbol = "rb2501";
  exchange = "SHFE";
  timestamp = record { aware = true; instant = pos 0 };
  bid_price = pos 99;
  ask_price = pos 100;
  last_price = pos 100;
  bid_volume = pos 5;
  ask_volume = pos 4;
  source_trading_day = "";
  source_action_day = "";
  source_trading_day_verified = true;
  trading_day = "20240105";
  limit_up = pos 110;
  limit_down = pos 90;
  volume = pos 7;
  open_interest = pos 7;
  open_price = pos 98;
}

abbrev pub asked : OrderSide → Offset → OrderType → ℤ → ℤ → OrderRequest ℤ
asked side offset order_type volume price = record {
  symbol = "rb2501";
  exchange = "SHFE";
  side = side;
  offset = offset;
  volume = volume;
  price = price;
  order_type = order_type;
  reference = "";
}

-- A buy of six fills four at once, for the ask offers no more; the sell of two waits below the bid.
abbrev calls : List (Call ℤ)
calls =
    start_call
    ∷ tick_call quote
    ∷ send_call (asked buy opening limit (pos 6) (pos 105))
    ∷ send_call (asked sell close fak (pos 2) (pos 99))
    ∷ []

run_all-SimOk_example : SimOk (run_all settings calls (new_sim (pos 100000)))
run_all-SimOk_example = run_all-SimOk settings calls (pos 100000)

run_until-Balanced_example : Balanced (run_until settings calls (new_sim (pos 100000))).1
unfolding run_until call new_sim start publish_tick validate_tick bad_tick validated_trading_day
    digits_of apply_tick apply_trading_day show_tick displayed_depth match_symbol match_all
    match_one send_order accept_order match_order match_depth fill_volume fill_price adverse_ticks
    fill before_trade trade_of filled_order apply_trade validate_trade is_blank fetch trade_position
    validate_position validate_side cancel_ioc_remainder lookup insert calculate_commission ◌+ℤ◌
    ◌-ℤ◌ ◌*ℤ◌ active new_position
run_until-Balanced_example = run_until-Balanced settings calls (pos 100000) tt

fill_price-Within_example :
    Within buy (pos 100) (fill_price settings buy (pos 100) quote rebar (pos 6) (pos 4))
    × (true ≡ true
        → Within buy (pos 110) (fill_price settings buy (pos 100) quote rebar (pos 6) (pos 4)))
fill_price-Within_example =
    fill_price-Within whole_order settings buy (pos 100) quote rebar (pos 6) (pos 4)

-- A close while nothing is held.
abbrev closing : Order ℤ
closing = record {
  order_id = Ident.sim_order 1;
  request = asked sell close limit (pos 2) (pos 99);
  status = not_traded;
  traded = pos 0;
  average_price = pos 0;
}

match_depth-Takes_example :
    Takes closing
      (or_else
        (lookup "rb2501" (new_sim (pos 100000)).depth)
        (displayed_depth settings quote.bid_volume, displayed_depth settings quote.ask_volume))
      (new_sim (pos 100000))
      (match_depth settings closing quote (new_sim (pos 100000))).1
match_depth-Takes_example = match_depth-Takes settings closing quote (new_sim (pos 100000))

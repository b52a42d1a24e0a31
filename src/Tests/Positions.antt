-- ===== src/Tests/Positions.antt =====
-- The position book on concrete fills.
use afuture.Prelude.{◌↔◌, IsOk, ◌≡◌, refl, true, false, List, [], ◌∷◌, ok, arith}
use afuture.Prelude.Int.{◌≤ℤ◌, ℤ, pos, ◌+ℤ◌, ◌-ℤ◌, ◌*ℤ◌}
use afuture.Prelude.Text.{is_blank}
use afuture.Dict.{Key, key_eq, lookup, insert}
use afuture.Models.{
  OrderSide, buy, sell, Offset, opening, close, close_today, close_yesterday, Ident, Trade,
  ContractPosition, validate_trade, validate_side, validate_position,
}
use afuture.Position.Book.{
  PositionBook, available, fetch, trade_position, apply_trade, roll_trading_day,
}
use afuture.Position.Effects.{Filled, trade_position-Filled}
use afuture.Position.Closing.{IsValid, trade_position-close}
use afuture.Position.Plan.{plan_children}
use afuture.Position.Planning.{Closes, fill_children, plan_children-Closes}
use afuture.Position.Rolling.{BookValid, RolledEntry, roll_trading_day-keeps}
use afuture.Position.Ledger.{net_at, signed_sum, apply_trades, net-apply_trades}
use afuture.Tests.Numbers.{whole, whole_order}

-- Three lots of today's and two of yesterday's, long at 100.
abbrev pub held : ContractPosition ℤ
held = record {
  symbol = "rb2501";
  exchange = "SHFE";
  long_today = pos 3;
  long_yesterday = pos 2;
  short_today = pos 0;
  short_yesterday = pos 0;
  long_price = pos 100;
  short_price = pos 0;
}

held-IsValid : IsValid held
unfolding is_blank ◌+ℤ◌
held-IsValid = record {
  symbol_named = refl;
  exchange_named = refl;
  long_today = omega arith;
  long_yesterday = omega arith;
  short_today = omega arith;
  short_yesterday = omega arith;
  long_priced = record { finite = refl; not_negative = refl; positive = λ h. refl };
  short_priced = record {
    finite = refl;
    not_negative = refl;
    positive = λ h. absurd (omega arith);
  };
}

abbrev fill : OrderSide → Offset → ℤ → ℤ → Trade ℤ
fill side offset volume price = record {
  trade_id = Ident.sim_trade 1;
  order_id = Ident.sim_order 1;
  symbol = "rb2501";
  exchange = "SHFE";
  side = side;
  offset = offset;
  volume = volume;
  price = price;
  timestamp = record { aware = true; instant = pos 0 };
  commission = pos 0;
}

abbrev rb : Key
rb = record { symbol = "rb2501"; exchange = "SHFE" }

abbrev book : PositionBook ℤ
book = record { positions = (rb, held) ∷ [] }

abbrev fills : List (Trade ℤ)
fills = fill buy opening (pos 1) (pos 106) ∷ fill sell close_yesterday (pos 2) (pos 110) ∷ []

-- The average price moves to 101, and the close realizes nine points on each of two lots.
fills_run : (apply_trades fills book).0 ≡ ok tt
unfolding apply_trades apply_trade validate_trade is_blank fetch trade_position validate_position
    validate_side ◌+ℤ◌ ◌-ℤ◌ ◌*ℤ◌ lookup insert
fills_run = refl

trade_position-Filled_example :
    Filled close sell (pos 4) held (trade_position close sell (pos 4) (pos 90) held).1
unfolding trade_position validate_position validate_side is_blank ◌+ℤ◌ ◌-ℤ◌
trade_position-Filled_example = trade_position-Filled close sell (pos 4) (pos 90) held tt

trade_position-close_example :
    (IsOk (trade_position close_yesterday sell (pos 3) (pos 90) held).0
      ↔ (pos 3 ≤ℤ available sell close_yesterday held))
    × IsValid (trade_position close_yesterday sell (pos 3) (pos 90) held).1
trade_position-close_example =
    trade_position-close whole_order close_yesterday sell (pos 3) (pos 90) held held-IsValid
      (omega arith) refl

plan_children-Closes_example : Closes sell (pos 4) held (
    fill_children sell
      (pos 90)
      (plan_children true false
        (available sell close_today held)
        (available sell close_yesterday held)
        (pos 4))
      held)
unfolding ◌+ℤ◌
plan_children-Closes_example =
    plan_children-Closes true false sell (pos 90) (pos 4) held whole_order held-IsValid
      (omega arith) (omega arith)

roll_trading_day-keeps_example :
    ((roll_trading_day book).0 ≡ ok tt)
    × BookValid (roll_trading_day book).1.positions
    × ((key : Key)
        → RolledEntry (lookup key book.positions) (lookup key (roll_trading_day book).1.positions))
roll_trading_day-keeps_example = roll_trading_day-keeps book (held-IsValid, tt)

net-apply_trades_example :
    net_at rb (apply_trades fills book).1 ≡ net_at rb book +ℤ signed_sum rb fills
unfolding apply_trades apply_trade validate_trade is_blank fetch trade_position validate_position
    validate_side ◌+ℤ◌ ◌-ℤ◌ ◌*ℤ◌ lookup insert
net-apply_trades_example = net-apply_trades rb fills book tt

-- ===== src/Tests/Executions.antt =====
-- The ways out of a broken pair, with a broker that records what it is sent.
use afuture.Prelude.{arith, refl, ◌≡◌, false, some, List, [], ◌∷◌, All, Result, ok, err}
use afuture.Prelude.Int.{ℤ, pos, ◌+ℤ◌, ◌-ℤ◌, ◌*ℤ◌}
use afuture.Dict.{lookup}
use afuture.Models.{
  long_spread, is_empty, ContractPosition, sell, buy, opening, fak, filled, is_opening, Error,
  Ident, OrderRequest, Order, not_started,
}
use afuture.Execution.{BrokerOps, PairExecutor, flatten_imbalance, rollback_submitted}
use afuture.Execution.Reducing.{flatten_imbalance-reduces, rollback_submitted-reduces}
use afuture.Execution.{aggressive_price}
use afuture.Execution.Legs.{
  build_open_orders, open_request, Opening, build_open_orders-Opening, legs_balanced,
}
use afuture.Execution.Balance.{ClosesAll, closing_legs-ClosesAll}
use afuture.Tests.Numbers.{whole, whole_order}
use afuture.Tests.Positions.{held}
use afuture.Tests.Sims.{rebar, quote, asked}
use afuture.Tests.Risks.{pair}

-- The requests that a broker was sent, the newest first; it refuses every order after the second.
abbrev Log : Type 0
Log = List (OrderRequest ℤ)

abbrev answer : Log → Result Error Ident
answer (a ∷ b ∷ log) = err not_started
answer log = ok (Ident.text "A")

abbrev filled_order : Order ℤ
filled_order = record {
  order_id = Ident.text "A";
  request = asked buy opening fak (pos 3) (pos 100);
  status = filled;
  traded = pos 3;
  average_price = pos 100;
}

abbrev recorder : BrokerOps ℤ Log
recorder = record {
  get_positions = λ log. held ∷ [];
  get_order = λ id log. some filled_order;
  send_order = λ r log. (answer log, r ∷ log);
  cancel_order = λ id log. (ok tt, log);
}

abbrev executor : PairExecutor ℤ
executor = record {
  specs = ("rb2501", rebar) ∷ [];
  aggressive_ticks = pos 1;
  close_today_first = false;
}

abbrev OnlyCloses : Log → Type 0
OnlyCloses log = All (λ (r : OrderRequest ℤ). is_opening r.offset ≡ false) log

flatten_imbalance-reduces_example :
    OnlyCloses (flatten_imbalance recorder executor pair quote quote []).1
flatten_imbalance-reduces_example =
    flatten_imbalance-reduces recorder executor OnlyCloses (λ r log c h. (c, h)) pair quote quote []
      tt

rollback_submitted-reduces_example :
    OnlyCloses (rollback_submitted recorder executor (Ident.text "A" ∷ []) quote quote []).1
rollback_submitted-reduces_example =
    rollback_submitted-reduces recorder executor OnlyCloses (λ r log c h. (c, h)) (λ id log h. h)
      (Ident.text "A" ∷ []) quote quote [] tt

-- The buy at 101 and the sell at 98, one tick past the quotes.
build_open_orders-Opening_example : Opening pair quote quote long_spread (pos 2) (
    open_request pair "rb2501" buy (pos 2) (pos 101)
    ∷ open_request pair "rb2501" sell (pos 2) (pos 98)
    ∷ [])
unfolding build_open_orders aggressive_price lookup ◌+ℤ◌ ◌-ℤ◌ ◌*ℤ◌
build_open_orders-Opening_example =
    build_open_orders-Opening whole_order executor pair long_spread quote quote (pos 2)
      (open_request pair "rb2501" buy (pos 2) (pos 101)
        ∷ open_request pair "rb2501" sell (pos 2) (pos 98)
        ∷ [])
      refl

-- The short leg that balances the long one.
abbrev short_leg : ContractPosition ℤ
short_leg = record held {
  long_today = pos 0;
  long_yesterday = pos 0;
  short_today = pos 4;
  short_yesterday = pos 1;
  short_price = pos 101;
}

closing_legs-ClosesAll_example : ClosesAll held short_leg (some (sell, pos 5))
unfolding legs_balanced is_empty ◌+ℤ◌
closing_legs-ClosesAll_example =
    closing_legs-ClosesAll held short_leg (omega arith) (omega arith) refl

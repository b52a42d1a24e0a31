-- ===== src/Sim/Queries.antt =====
-- What `SimBroker` tells its callers: orders, trades, positions and the account.
use afuture.Prelude.{
  String, true, ◌≡◌, inl, inr, Bool-cases, Option, some, List, [], ◌∷◌, All, keep, Result, ok,
  raise_if, ◌>>=◌, not, known, if◌then◌else◌,
}
use afuture.Prelude.Int.{◌<ℤ◌}
use afuture.Prelude.Text.{str_eq}
use afuture.Dict.{Dict, string_eq, lookup}
use afuture.Float.{FloatOps, fzero}
use afuture.Models.{
  Error, unknown_contract, Ident, ident_eq, Order, active, Trade, ContractPosition, AccountSnapshot,
}
use afuture.Position.Book.{all_positions}
use afuture.Sim.State.{SimConfig, SimState, new_sim}
use afuture.Sim.Days.{account_values}
use afuture.Sim.Lifecycle.{EntryOk}
use afuture.Sim.Calls.{Call, run_all, run_all-SimOk}

module _ {F : Type 0} where
  abbrev values : Dict Ident (Order F) → List (Order F)
  values [] = []
  values ((id, order) ∷ d) = order ∷ values d

  abbrev get_order : Ident → SimState F → Option (Order F)
  get_order id st = lookup id st.orders

  unfoldable pub get_active_orders : SimState F → List (Order F)
  get_active_orders st = keep active (values st.orders)

  abbrev get_orders : SimState F → List (Order F)
  get_orders st = values st.orders

  abbrev get_trades : SimState F → List (Trade F)
  get_trades st = st.trades

  unfoldable subscribe : SimConfig F → String → Result Error (Unit {0})
  subscribe cfg symbol = raise_if (not (known (lookup symbol cfg.specs))) unknown_contract

module _ {F : Type 0} ⦃fl : FloatOps F⦄ where
  abbrev get_positions : SimState F → List (ContractPosition F)
  get_positions st = all_positions st.book

  -- `get_account`; `today` is the date of the clock, which counts before the first trading day. There
  -- are no deposits or withdrawals without a state file.
  unfoldable pub get_account : SimConfig F → String → SimState F → Result Error (AccountSnapshot F)
  get_account cfg today st = account_values cfg st >>= λ values. ok (record {
    balance = st.balance;
    equity = values.2;
    available = fl.sub values.2 values.1;
    margin = values.1;
    realized_pnl = fl.sub st.realized_pnl st.commission;
    unrealized_pnl = values.0;
    trading_day = if str_eq st.trading_day "" then today else st.trading_day;
    deposit = fzero;
    withdrawal = fzero;
    cash_flow_verified = true;
    previous_settlement_equity = st.previous_settlement_equity;
    settlement_verified = st.settlement_verified;
    settlement_id = some st.settlement_id;
  })

  -- The order may still be filled, by the rest of its volume.
  abbrev pub IsOpen : Order F → Type 0
  IsOpen o = (active o ≡ true) × (o.traded <ℤ o.request.volume)

  active-IsOpen : (d : Dict Ident (Order F)) → All EntryOk d → All IsOpen (keep active (values d))
  active-IsOpen [] h = tt
  active-IsOpen ((id, o) ∷ d) h =
      let rest = active-IsOpen d h.1 in
      elim (Bool-cases (active o)) [
        | inl live ↦ rw live ((live, h.0.order.active_open live), rest)
        | inr ended ↦ rw ended rest
      ]

  -- After any sequence of calls on a new broker, raised ones included, the orders that are listed as
  -- active are active, and each has some of its volume left to trade.
  get_active_orders-IsOpen :
      (cfg : SimConfig F) (cs : List (Call F)) (capital : F)
      → All IsOpen (get_active_orders (run_all cfg cs (new_sim capital)))
  unfolding get_active_orders
  get_active_orders-IsOpen cfg cs capital =
      active-IsOpen (run_all cfg cs (new_sim capital)).orders (run_all-SimOk cfg cs capital).orders

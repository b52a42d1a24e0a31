-- ===== src/Sim/State.antt =====
-- The state of `SimBroker`, without the durable stores, which `state_path is None` leaves out.
use afuture.Prelude.{ℕ, String, Bool, true, false, Option, some, List, [], Result}
use afuture.Float.{FloatOps, fzero}
use afuture.Prelude.Int.{ℤ, pos}
use afuture.Dict.{Dict}
use afuture.Models.{Error, Ident, Order, Trade, Tick, ContractSpec}
use afuture.Position.Book.{PositionBook}

-- The arguments of `__init__` that the matching reads.
pub record SimConfig (F : Type 0) : Type 0 where
  pub specs : Dict String (ContractSpec F)
  pub slippage_ticks : ℤ
  pub conservative : Bool
  pub latency_ticks : ℤ
  pub market_impact_ticks : ℤ
  pub depth_haircut : F
  pub size_impact_ticks : ℤ

-- `BrokerEvent`. An order event holds the order object itself, which later fills still change: it
-- is a reference, the order's id.
pub data BrokerEvent (F : Type 0) : Type 0 where
  order_event : Ident → BrokerEvent F
  trade_event : Trade F → BrokerEvent F
  tick_event : Tick F → BrokerEvent F

pub record SimState (F : Type 0) : Type 0 where
  pub book : PositionBook F
  pub orders : Dict Ident (Order F)
  pub trades : List (Trade F)
  pub ticks : Dict String (Tick F)
  pub events : List (BrokerEvent F)
  pub next_order_sequence : ℕ
  pub next_trade_sequence : ℕ
  pub started : Bool
  pub balance : F
  pub realized_pnl : F
  pub commission : F
  pub trading_day : String
  pub tick_seq : ℤ
  pub eligible_seq : Dict Ident ℤ
  -- The bid and the ask side that the latest tick still offers.
  pub depth : Dict String (ℤ × ℤ)
  pub first_fill_seq : Dict Ident ℤ
  pub previous_settlement_equity : Option F
  pub settlement_verified : Bool
  pub settlement_id : ℤ

-- A method: what was changed before a raise stays changed.
abbrev pub Method : Type 0 → Type 0 → Type 0
Method F A = SimState F → Result Error A × SimState F

abbrev pub continue :
    {F A B : Type 0} → Result Error A × SimState F → Method F B → Result Error B × SimState F
continue (Result.ok _, st) next = next st
continue (Result.err e, st) next = (Result.err e, st)

abbrev pub continue_with :
    {F A B : Type 0} → Result Error A → SimState F → (A → Method F B) → Result Error B × SimState F
continue_with (Result.ok a) st next = next a st
continue_with (Result.err e) st next = (Result.err e, st)

-- The state that `__init__` leaves.
unfoldable pub new_sim : {F : Type 0} ⦃fl : FloatOps F⦄ → F → SimState F
new_sim initial_capital = record {
  book = record { positions = [] };
  orders = [];
  trades = [];
  ticks = [];
  events = [];
  next_order_sequence = 1;
  next_trade_sequence = 1;
  started = false;
  balance = initial_capital;
  realized_pnl = fzero;
  commission = fzero;
  trading_day = "";
  tick_seq = pos 0;
  eligible_seq = [];
  depth = [];
  first_fill_seq = [];
  previous_settlement_equity = some initial_capital;
  settlement_verified = true;
  settlement_id = pos 0;
}

-- `start`, with no observer of raw ticks installed.
unfoldable pub start : {F : Type 0} → SimState F → SimState F
start st = record st { started = true }

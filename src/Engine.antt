-- ===== src/Engine.antt =====
-- engine.py: the identities of trades that `TradingEngine` has applied, so that a trade which the
-- broker reports again is not applied again. The children from Modes on are about its modes.
pub mod Memory
pub mod Once
pub mod Modes
use text.Mathlib.Text.{starts_with}
use afuture.Prelude.{
  ℕ, String, Bool, true, false, not, ◌&&◌, ◌||◌, List, [], ◌∷◌, ◌++◌, if◌then◌else◌, keep, length,
  ltb,
}
use afuture.Prelude.Text.{str_eq, str_append, str_lt}
use afuture.Prelude.Sets.{member}

-- `state.recent_trade_ids` and `_recent_trade_id_set`.
pub record TradeMemory : Type 0 where
  pub recent_ids : List String
  pub id_set : List String

-- What `_handle_trade_event` does with a valid trade: it applies it, drops a repeated one, or stops.
pub data Outcome : Type 0 where
  applied repeated ambiguous unowned undated : Outcome

-- A trade on a trading day, and whether the broker owns its order.
pub record TradeEvent : Type 0 where
  pub trading_day : String
  pub exchange : String
  pub trade_id : String
  pub owned : Bool

-- `_trade_identity` and `_unqualified_trade_identity`
abbrev pub trade_identity : TradeEvent → String
trade_identity e =
    str_append e.trading_day (str_append ":" (str_append e.exchange (str_append ":" e.trade_id)))

abbrev pub unqualified_trade_identity : TradeEvent → String
unqualified_trade_identity e = str_append e.trading_day (str_append ":" e.trade_id)

-- `MAX_RECENT_TRADE_IDS`
abbrev pub max_recent_trade_ids : ℕ
max_recent_trade_ids = 10000

-- `set.discard`
abbrev pub discard : String → List String → List String
discard identity ids = keep (λ id. not (str_eq id identity)) ids

-- `if len(ids) > MAX_RECENT_TRADE_IDS: expired = ids.pop(0); set.discard(expired)`
abbrev pub drop_oldest : List String → List String → TradeMemory
drop_oldest [] id_set = record { recent_ids = []; id_set = id_set }
drop_oldest (oldest ∷ ids) id_set = record { recent_ids = ids; id_set = discard oldest id_set }

abbrev pub remember : String → TradeMemory → TradeMemory
remember identity m =
    let ids = m.recent_ids ++ identity ∷ [] in
    if ltb max_recent_trade_ids (length ids)
    then drop_oldest ids (identity ∷ m.id_set)
    else record { recent_ids = ids; id_set = identity ∷ m.id_set }

-- The part of `_handle_trade_event` that decides on the trade, for the two identities of the trade.
abbrev pub decide_trade : String → String → Bool → TradeMemory → Outcome × TradeMemory
decide_trade identity unqualified owned m =
    if member identity m.id_set
    then (repeated, m)
    else if member unqualified m.id_set
    then (ambiguous, m)
    else if not owned
    then (unowned, m)
    else (applied, remember identity m)

-- The new trading day in `_advance_trading_day`: only the identities of that day are kept.
unfoldable pub roll_memory : String → String → TradeMemory → TradeMemory
roll_memory new_day old_day m =
    if not (str_eq new_day "") && not (str_eq old_day "") && not (str_eq new_day old_day)
    then (let ids = keep (λ id. starts_with id (str_append new_day ":")) m.recent_ids in
        record { recent_ids = ids; id_set = ids })
    else m

-- `state.trading_day`, and the memory.
pub record TradeState : Type 0 where
  pub trading_day : String
  pub memory : TradeMemory

-- `datetime.strptime(day, "%Y%m%d")` gives a date that is written as the day. Among such days the
-- order of the dates is the order of the texts.
abbrev pub IsDate : Type 0
IsDate = String → Bool

-- The tests of `_advance_trading_day`, which raise where a day is no date or lies before the old one.
abbrev pub can_advance : IsDate → String → String → Bool
can_advance is_date new_day old_day =
    is_date new_day && (str_eq old_day "" || (is_date old_day && not (str_lt new_day old_day)))

abbrev pub with_memory : String → Outcome × TradeMemory → Outcome × TradeState
with_memory day (outcome, m) = (outcome, record { trading_day = day; memory = m })

-- `_handle_trade_event` up to the outcome: the trading day of the broker is taken over first.
unfoldable pub handle_trade : IsDate → TradeEvent → TradeState → Outcome × TradeState
unfolding roll_memory
handle_trade is_date e s =
    if can_advance is_date e.trading_day s.trading_day
    then with_memory e.trading_day (
        decide_trade (trade_identity e) (unqualified_trade_identity e) e.owned
          (roll_memory e.trading_day s.trading_day s.memory))
    else (undated, s)

-- `start` takes the identities from the loaded state.
abbrev pub load_memory : List String → TradeMemory
load_memory ids = record { recent_ids = ids; id_set = ids }

abbrev pub after_trade :
    String
    → Outcome × TradeState
    → (TradeState → List String × TradeState)
    → List String × TradeState
after_trade identity (applied, s) rest = let (ids, after) = rest s in (identity ∷ ids, after)
after_trade identity (_, s) rest = rest s

-- The trades of a run that are applied, and the state after it.
unfoldable pub handle_trades : IsDate → List TradeEvent → TradeState → List String × TradeState
unfolding handle_trade
handle_trades is_date [] s = ([], s)
handle_trades is_date (e ∷ es) s =
    after_trade (trade_identity e) (handle_trade is_date e s) (handle_trades is_date es)

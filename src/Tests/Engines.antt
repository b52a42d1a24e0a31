-- ===== src/Tests/Engines.antt =====
-- A broker that repeats a remembered trade and a new one.
use afuture.Prelude.Text.{str_eq}
use afuture.Prelude.{◌||◌, true, ◌≡◌, refl, arith, List, [], ◌∷◌, String}
use afuture.Engine.{
  TradeMemory, TradeEvent, TradeState, IsDate, undated, load_memory, handle_trade, roll_memory,
  handle_trades,
}
use afuture.Engine.Memory.{IsMemory, handle_trade-IsMemory}
use afuture.Engine.Once.{Once, handle_trades-Once}
use afuture.Store.Payload.{repeats}

abbrev trade : String → TradeEvent
trade id = record { trading_day = "20240105"; exchange = "SHFE"; trade_id = id; owned = true }

abbrev loaded : TradeMemory
loaded = load_memory ("20240105:SHFE:T1" ∷ [])

loaded-IsMemory : IsMemory loaded
unfolding repeats
loaded-IsMemory = record { distinct = refl; bounded = omega arith; same = λ s. refl }

-- The days of the run are dates.
abbrev is_date : IsDate
is_date day = str_eq day "20240105" || str_eq day "20240108"

abbrev before : TradeState
before = record { trading_day = "20240105"; memory = loaded }

abbrev events : List TradeEvent
events = trade "T1" ∷ trade "T2" ∷ trade "T2" ∷ []

-- T1 is remembered and T2 is applied once.
events_run : (handle_trades is_date events before).0 ≡ "20240105:SHFE:T2" ∷ []
unfolding handle_trades handle_trade roll_memory
events_run = refl

-- The next day drops the identities of the day before, and a day before it is refused.
next_day_run :
    ((handle_trade is_date
        (record (trade "T1") { trading_day = "20240108" })
        before).1.memory.recent_ids
      ≡ "20240108:SHFE:T1" ∷ [])
    × ((handle_trade is_date (trade "T2") (record before { trading_day = "20240108" })).0 ≡ undated)
unfolding handle_trade roll_memory
next_day_run = (refl, refl)

handle_trades-Once_example : Once loaded (handle_trades is_date events before)
handle_trades-Once_example =
    handle_trades-Once is_date "20240105" events loaded loaded-IsMemory (refl, (refl, (refl, tt)))
      (omega arith)

handle_trade-IsMemory_example :
    IsMemory (handle_trade is_date (trade "T2") before).1.memory
    × IsMemory (roll_memory "20240108" "20240105" loaded)
handle_trade-IsMemory_example =
    handle_trade-IsMemory is_date (trade "T2") "20240108" before loaded-IsMemory

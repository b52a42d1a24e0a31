-- ===== src/Engine/Modes.antt =====
-- engine.py: the runtime modes of `TradingEngine`, its kill switch, and the methods that change
-- them. What the broker, the journal, the alerts and the store do is `Calls`; the quality records are
-- left out.
pub mod Startup
pub mod Checks
pub mod Events
pub mod Polling
pub mod Locked
pub mod Kept
pub mod Handled
pub mod Recovery
pub mod Stopping
pub mod Audited
pub mod Reducing
use afuture.Prelude.{
  ℕ, suc, ◌+◌, length, String, Bool, true, false, not, ◌&&◌, ◌||◌, Option, none, some, List, [],
  ◌∷◌, ◌++◌, if◌then◌else◌,
}
use afuture.Dict.{Dict}
use afuture.Models.{ContractPosition}

-- models.py
pub data RuntimeMode : Type 0 where
  running reduce_only halted : RuntimeMode

abbrev pub is_running : RuntimeMode → Bool
is_running running = true
is_running reduce_only = false
is_running halted = false

abbrev pub is_reduce_only : RuntimeMode → Bool
is_reduce_only running = false
is_reduce_only reduce_only = true
is_reduce_only halted = false

abbrev pub is_halted : RuntimeMode → Bool
is_halted running = false
is_halted reduce_only = false
is_halted halted = true

-- The fields of `RuntimeState` that the modes depend on.
pub record EngineState (F : Type 0) : Type 0 where
  pub runtime_mode : RuntimeMode
  pub kill_switch : Bool
  pub kill_reason : String
  pub reduce_reason : String
  pub reconciled : Bool
  pub metadata_verified : Bool
  pub positions : List (ContractPosition F)

-- `stopped` is the attribute `halted`, `disk` is what the store saved last, and `cancelled` lists the
-- calls of `broker.cancel_order`; `calls_made` numbers the calls of `Calls`.
pub record TradingEngine (F : Type 0) : Type 0 where
  pub state : EngineState F
  pub stopped : Bool
  pub initialized : Bool
  pub metadata_verified_session : Bool
  pub metadata_trading_day : String
  pub imbalance_since : Dict String F
  pub disk : EngineState F
  pub cancelled : List String
  pub calls_made : ℕ

-- What the calls do, each by the number of calls that the engine made before it: `get_active_orders`
-- returns identities or raises, and `cancel_order`, `_record`, `alerts.critical` and
-- `state_store.save` return or raise.
pub record Calls : Type 0 where
  pub active_orders : ℕ → Option (List String)
  pub cancels : ℕ → String → Bool
  pub records : ℕ → Bool
  pub alerts : ℕ → Bool
  pub saves : ℕ → Bool

-- A method leaves the engine in a state, and returns a value or raises.
abbrev pub Done : Type 0 → Type 0 → Type 0
Done F A = TradingEngine F × Option A

-- The calls of `cancel_order` for these orders, and whether each of them returned.
abbrev pub cancel_ids : Calls → ℕ → List String → List String × Option (Unit {0})
cancel_ids c n [] = ([], some tt)
cancel_ids c n (id ∷ ids) =
    let rest = cancel_ids c (suc n) ids in
    if c.cancels n id then (id ∷ rest.0, rest.1) else (id ∷ [], none)

module _ {F : Type 0} where
  abbrev pub done : {A : Type 0} → A → TradingEngine F → Done F A
  done a e = (e, some a)

  -- The next statement, unless one before it raised.
  abbrev pub then_do : {A B : Type 0} → Done F A → (A → TradingEngine F → Done F B) → Done F B
  then_do (e, some a) f = f a e
  then_do (e, none) f = (e, none)

  -- `try: m finally: f`
  abbrev pub raise_again : {A : Type 0} → Option A → Done F A → Done F A
  raise_again (some a) d = d
  raise_again none (e, returned) = (e, none)

  abbrev pub finally_do : {A : Type 0} → Done F A → (TradingEngine F → Done F A) → Done F A
  finally_do (e, returned) f = raise_again returned (f e)

  abbrev pub count : ℕ → TradingEngine F → TradingEngine F
  count n e = record e { calls_made = e.calls_made + n }

  -- A call that returns nothing, or raises.
  abbrev pub call : (ℕ → Bool) → TradingEngine F → Done F (Unit {0})
  call returns e = if returns e.calls_made then (count 1 e, some tt) else (count 1 e, none)

  -- `for order in self.broker.get_active_orders(): self.broker.cancel_order(order.order_id)`
  abbrev pub cancel_listed : Calls → Option (List String) → TradingEngine F → Done F (Unit {0})
  cancel_listed c none e = (e, none)
  cancel_listed c (some ids) e =
      let (called, returned) = cancel_ids c e.calls_made ids in
      (record (count (length called) e) { cancelled = e.cancelled ++ called }, returned)

  abbrev pub cancel_active : Calls → TradingEngine F → Done F (Unit {0})
  cancel_active c e = cancel_listed c (c.active_orders e.calls_made) (count 1 e)

  -- The last line of `_persist`.
  abbrev pub persist : Calls → TradingEngine F → Done F (Unit {0})
  persist c e =
      if c.saves e.calls_made
      then (record (count 1 e) { disk = e.state }, some tt)
      else (count 1 e, none)

  -- `self.alerts.critical(...)` and `self._persist()`
  abbrev pub alert_and_persist : Calls → TradingEngine F → Done F (Unit {0})
  alert_and_persist c e = then_do (call c.alerts e) (λ _. persist c)

  -- The assignments in the `finally` block of `emergency_stop`.
  abbrev pub halt : String → TradingEngine F → TradingEngine F
  halt reason e = record e {
    stopped = true;
    state = record (e.state) {
      kill_switch = true;
      kill_reason = reason;
      reconciled = false;
      runtime_mode = halted;
    };
  }

  unfoldable pub emergency_stop : Calls → String → TradingEngine F → Done F (Unit {0})
  emergency_stop c reason e = then_do (call c.records e) (λ _ recorded.
      finally_do (cancel_active c recorded)
        (λ stopping. alert_and_persist c (halt reason stopping)))

  -- The assignments of `enter_reduce_only`.
  abbrev pub set_reduce_only : String → TradingEngine F → TradingEngine F
  set_reduce_only reason e = record e {
    stopped = false;
    state = record (e.state) {
      runtime_mode = reduce_only;
      reduce_reason = reason;
      kill_switch = true;
      kill_reason = reason;
    };
  }

  unfoldable pub enter_reduce_only : Calls → String → TradingEngine F → Done F (Unit {0})
  enter_reduce_only c reason e =
      if is_halted e.state.runtime_mode
      then done tt e
      else then_do (cancel_active c (set_reduce_only reason e)) (λ _. alert_and_persist c)

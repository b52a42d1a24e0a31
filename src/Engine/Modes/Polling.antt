-- ===== src/Engine/Modes/Polling.antt =====
-- engine.py: a round of `TradingEngine.run_once`.
use afuture.Prelude.{String, Bool, not, ◌&&◌, Option, none, some, List, if◌then◌else◌}
use afuture.Prelude.Text.{str_eq}
use afuture.Float.{FloatOps}
use afuture.Engine.Modes.{
  TradingEngine, Done, is_running, is_reduce_only, done, then_do, emergency_stop,
}
use afuture.Engine.Modes.Startup.{Session, initialize_once}
use afuture.Engine.Modes.Checks.{PairRepair, reduce_only_cycle}
use afuture.Engine.Modes.Events.{Round, PolledEvent, audit, handle_events}

-- What a round reads: the session, the error of the broker's health, the events, the reason of the
-- market's health, which is "" when there is none, and the pairs of the reduction.
pub record Polled (F : Type 0) : Type 0 where
  pub session : Session
  pub health_error : Option String
  pub events : List (PolledEvent F)
  pub market_reason : String
  pub auto_flatten : Bool
  pub repairs : List PairRepair

module _ {F : Type 0} ⦃fl : FloatOps F⦄ where
  -- The end of `run_once`.
  abbrev pub finish_round : Round F → Polled F → TradingEngine F → Done F (Unit {0})
  finish_round r p e = then_do (audit r e) (λ _ e.
      if is_reduce_only e.state.runtime_mode
      then reduce_only_cycle r.calls p.auto_flatten p.repairs e
      else done tt e)

  abbrev pub check_market : Round F → Polled F → TradingEngine F → Done F (Unit {0})
  check_market r p e =
      if not e.stopped && is_running e.state.runtime_mode && not (str_eq p.market_reason "")
      then emergency_stop r.calls p.market_reason e
      else finish_round r p e

  -- A health error of a stopped engine does not end the round.
  abbrev pub check_health : Round F → Polled F → TradingEngine F → Done F (Unit {0})
  check_health r p e =
      let rest = then_do (handle_events r p.events e) (λ _. check_market r p) in
      elim p.health_error [
        | none ↦ rest
        | some reason ↦ if e.stopped then rest else emergency_stop r.calls reason e
      ]

  unfoldable pub run_once : Round F → Polled F → TradingEngine F → Done F (Unit {0})
  run_once r p e =
      if not p.session.broker_ready
      then if e.initialized && not e.stopped
        then emergency_stop r.calls "broker session disconnected" e
        else done tt e
      else then_do (initialize_once r.calls p.session e) (λ _. check_health r p)

-- ===== src/Tests/Modes.antt =====
-- An engine that stops, stays stopped over a restart and a round, and is cleared.
use afuture.Prelude.{true, false, ◌≡◌, refl, none, some, List, [], ◌∷◌, ◌⊎◌}
use afuture.Prelude.Int.{ℤ, pos, ◌-ℤ◌}
use afuture.Dict.{lookup}
use afuture.Tests.Numbers.{whole}
use afuture.Reconcile.{compare_positions, normalized}
use afuture.Engine.Modes.{EngineState, TradingEngine, Calls, running, halted, emergency_stop}
use afuture.Engine.Modes.Startup.{
  Session, initialize_once, initialize_after_ready, start_engine, reconcile_startup,
  clear_kill_switch_after_reconcile,
}
use afuture.Engine.Modes.Checks.{audit_pairs, audit_pair_balance}
use afuture.Engine.Modes.Events.{Round, handle_events}
use afuture.Engine.Modes.Polling.{Polled, run_once}
use afuture.Engine.Modes.Locked.{Locked}
use afuture.Engine.Modes.Recovery.{
  Operation, restart, round, recovery, Gates, perform, perform_all, SomePasses,
  clear_kill_switch_after_reconcile-Gates, perform_all-Locked,
}
use afuture.Engine.Modes.Stopping.{Halts, emergency_stop-Halts}
use afuture.Engine.Modes.Reducing.{Reduces, audit_pair_balance-Reduces}

abbrev at_rest : EngineState ℤ
at_rest = record {
  runtime_mode = running;
  kill_switch = false;
  kill_reason = "";
  reduce_reason = "";
  reconciled = true;
  metadata_verified = true;
  positions = [];
}

abbrev going : TradingEngine ℤ
going = record {
  state = at_rest;
  stopped = false;
  initialized = true;
  metadata_verified_session = true;
  metadata_trading_day = "20240105";
  imbalance_since = [];
  disk = at_rest;
  cancelled = [];
  calls_made = 0;
}

-- Two orders are active, and every call returns.
abbrev returning : Calls
returning = record {
  active_orders = λ n. some ("A" ∷ "B" ∷ []);
  cancels = λ n id. true;
  records = λ n. true;
  alerts = λ n. true;
  saves = λ n. true;
}

-- The broker raises at the first order, and the store saves.
abbrev raising : Calls
raising = record returning { cancels = λ n id. false }

abbrev down : TradingEngine ℤ
unfolding emergency_stop
down = (emergency_stop raising "broker session disconnected" going).0

down_run : (down.cancelled ≡ "A" ∷ []) × (down.state.runtime_mode ≡ halted)
unfolding emergency_stop
down_run = (refl, refl)

down-Locked : Locked down
unfolding emergency_stop
down-Locked = record {
  memory = record { switched = refl; idle = refl };
  saved = record { switched = refl; idle = refl };
}

abbrev session : Session
session = record {
  broker_ready = true;
  requires_permit = false;
  discovery_error = none;
  account_error = none;
  metadata_refusal = none;
  account_refusal = none;
  account_day = "20240105";
  defer_empty_historical_day = false;
}

abbrev quiet_round : Round ℤ
quiet_round = record {
  calls = returning;
  now = λ n. pos 5;
  timeout = pos 2;
  balances = λ n. ("pair", false) ∷ [];
  require_live_metadata = false;
}

abbrev polled : Polled ℤ
polled = record {
  session = session;
  health_error = none;
  events = [];
  market_reason = "market quote timestamp is in the future";
  auto_flatten = true;
  repairs = [];
}

abbrev restarted : List (Operation ℤ)
restarted = restart returning session ∷ round quiet_round polled ∷ []

abbrev cleared : List (Operation ℤ)
cleared =
    restart returning session ∷ recovery returning session [] none ∷ round quiet_round polled ∷ []

restarted_run : (perform_all restarted down).state.runtime_mode ≡ halted
unfolding perform_all perform start_engine initialize_after_ready emergency_stop run_once
    handle_events audit_pair_balance
restarted_run = refl

-- The recovery passes, and the round after it stops the engine for the health of the market.
cleared_run :
    ((perform_all
        (restart returning session ∷ recovery returning session [] none ∷ [])
        down).state.runtime_mode
      ≡ running)
    × ((perform_all cleared down).state.runtime_mode ≡ halted)
unfolding perform_all perform start_engine initialize_after_ready emergency_stop run_once
    handle_events audit_pair_balance clear_kill_switch_after_reconcile reconcile_startup
    compare_positions normalized
cleared_run = (refl, refl)

perform_all-Locked_example : Locked (perform_all cleared down) ⊎ SomePasses cleared down
perform_all-Locked_example = perform_all-Locked cleared down down-Locked

clear_kill_switch_after_reconcile-Gates_example :
    Locked (clear_kill_switch_after_reconcile returning session [] none down).0
    ⊎ Gates session [] none (initialize_once returning session down).0
clear_kill_switch_after_reconcile-Gates_example =
    clear_kill_switch_after_reconcile-Gates returning session [] none down down-Locked

emergency_stop-Halts_example : Halts raising "stop" going (emergency_stop raising "stop" going)
emergency_stop-Halts_example = emergency_stop-Halts raising "stop" going refl

quiet_audit :
    (audit_pair_balance returning (pos 5) (pos 2) (("pair", false) ∷ []) going).0.state.runtime_mode
    ≡ running
unfolding audit_pair_balance audit_pairs lookup ◌-ℤ◌
quiet_audit = refl

-- The pair is unbalanced at 5 and at 8, and the timeout is 2.
audit_pair_balance-Reduces_example :
    Reduces
      (audit_pair_balance returning
        (pos 8)
        (pos 2)
        (("pair", false) ∷ [])
        (audit_pair_balance raising (pos 5) (pos 2) (("pair", false) ∷ []) going).0).0
unfolding audit_pair_balance audit_pairs lookup ◌-ℤ◌
audit_pair_balance-Reduces_example =
    audit_pair_balance-Reduces raising returning (pos 5) (pos 8) (pos 2) "pair"
      (("pair", false) ∷ []) (("pair", false) ∷ []) going refl refl refl refl refl refl refl

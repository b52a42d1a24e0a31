-- ===== src/Engine/Modes/Startup.antt =====
-- engine.py: how `TradingEngine` starts, and how it leaves the halt after a reconciliation.
use afuture.Prelude.{
  String, Bool, true, false, not, ◌&&◌, ◌||◌, Option, none, some, List, [], if◌then◌else◌, known,
}
use afuture.Prelude.Text.{str_append}
use afuture.Models.{ContractPosition}
use afuture.Reconcile.{compare_positions}
use afuture.Engine.Modes.{
  EngineState, TradingEngine, Calls, Done, running, done, then_do, persist, emergency_stop,
}

-- What `initialize_after_ready` and the recovery read: the broker ready, the permit required, the
-- error of the discovery, the error of the account or of its day, the refused metadata, and the
-- refusal of the account's risk. A missing text is a success. `account_day` is its trading day.
pub record Session : Type 0 where
  pub broker_ready : Bool
  pub requires_permit : Bool
  pub discovery_error : Option String
  pub account_error : Option String
  pub metadata_refusal : Option String
  pub account_refusal : Option String
  pub account_day : String
  pub defer_empty_historical_day : Bool

module _ {F : Type 0} where
  -- `result.matched` is written to the state before the test.
  unfoldable pub reconcile_startup :
      Calls → List (ContractPosition F) → TradingEngine F → Done F Bool
  reconcile_startup c remote e =
      let matched = compare_positions e.state.positions remote in
      let e = record e { state = record (e.state) { reconciled = matched } } in
      if not matched
      then then_do (emergency_stop c "position reconciliation failed" e) (λ _. done false)
      else then_do (persist c (record e { state = record (e.state) { positions = remote } }))
          (λ _. done true)

  abbrev pub set_initialized : TradingEngine F → TradingEngine F
  set_initialized e = record e { initialized = true }

  abbrev pub set_metadata : Bool → TradingEngine F → TradingEngine F
  set_metadata verified e = record e {
    metadata_verified_session = verified;
    state = record (e.state) { metadata_verified = verified };
  }

  -- The account's risk, at the end of `initialize_after_ready`.
  abbrev pub initialize_risk : Calls → Option String → TradingEngine F → Done F (Unit {0})
  initialize_risk c none e = persist c (set_initialized e)
  initialize_risk c (some reason) e = emergency_stop c reason (set_initialized e)

  abbrev pub initialize_metadata : Calls → Session → TradingEngine F → Done F (Unit {0})
  initialize_metadata c s e = elim s.metadata_refusal [
    | none ↦
        initialize_risk c s.account_refusal
          (record (set_metadata true e) { metadata_trading_day = s.account_day })
    | some reason ↦
        then_do (emergency_stop c reason (set_metadata false e))
          (λ _ stopped_engine. done tt (set_initialized stopped_engine))
  ]

  abbrev pub initialize_account : Calls → Session → TradingEngine F → Done F (Unit {0})
  initialize_account c s e = elim s.account_error [
    | none ↦ initialize_metadata c s e
    | some reason ↦
        emergency_stop c (str_append "invalid account snapshot: " reason) (set_initialized e)
  ]

  -- `RuntimeError("broker is not ready")` is the first raise.
  unfoldable pub initialize_after_ready : Calls → Session → TradingEngine F → Done F (Unit {0})
  initialize_after_ready c s e = if not s.broker_ready then (e, none) else elim s.discovery_error [
    | none ↦ initialize_account c s e
    | some reason ↦
        emergency_stop c (str_append "auto discovery initialization failed: " reason)
          (set_initialized e)
  ]

  abbrev pub initialize_once : Calls → Session → TradingEngine F → Done F (Unit {0})
  initialize_once c s e = if e.initialized then done tt e else initialize_after_ready c s e

  -- The loaded state in a new process; `broker.start` and the subscriptions return.
  abbrev pub load_engine : TradingEngine F → TradingEngine F
  load_engine e = record e {
    state = e.disk;
    stopped = e.disk.kill_switch;
    initialized = false;
    metadata_verified_session = false;
    metadata_trading_day = "";
    imbalance_since = [];
  }

  unfoldable pub start_engine : Calls → Session → TradingEngine F → Done F (Unit {0})
  start_engine c s e =
      if s.broker_ready && not s.defer_empty_historical_day && not s.requires_permit
      then initialize_after_ready c s (load_engine e)
      else done tt (load_engine e)

  abbrev pub can_clear_kill_switch : EngineState F → Bool
  can_clear_kill_switch state = state.kill_switch && state.reconciled && state.metadata_verified

  -- The assignments at the end of the recovery.
  abbrev pub clear : TradingEngine F → TradingEngine F
  clear e = record e {
    stopped = false;
    state = record (e.state) {
      kill_switch = false;
      kill_reason = "";
      runtime_mode = running;
      reduce_reason = "";
    };
  }

  -- The two last gates and the end; `refusal` is the refusal of the account's risk.
  abbrev pub clear_reconciled : Calls → Option String → Bool → TradingEngine F → Done F Bool
  clear_reconciled c refusal matched e =
      if not matched || not (can_clear_kill_switch e.state) || known refusal
      then done false e
      else then_do (persist c (clear e)) (λ _. done true)

  abbrev pub clear_initialized :
      Calls → List (ContractPosition F) → Option String → TradingEngine F → Done F Bool
  clear_initialized c remote refusal e =
      if not e.metadata_verified_session || not e.state.metadata_verified
      then done false e
      else then_do (reconcile_startup c remote e) (clear_reconciled c refusal)

  unfoldable pub clear_kill_switch_after_reconcile :
      Calls → Session → List (ContractPosition F) → Option String → TradingEngine F → Done F Bool
  clear_kill_switch_after_reconcile c s remote refusal e =
      if s.requires_permit || not s.broker_ready
      then done false e
      else then_do (initialize_once c s e) (λ _. clear_initialized c remote refusal)

-- ===== src/Lib.antt =====
-- afuture, a trading system for Chinese commodity futures: its accounting of positions, its risk
-- limits, its simulated broker, the lots that its directional policies hold, and its saved state.
--
-- An order passes the limits of the risk manager and goes to a broker, which fills it against the
-- quotes it is shown; a fill becomes a trade, and the position book turns a trade into a position
-- and into realized points. The pair executor sends the orders that reduce a broken pair, and the
-- local positions are compared with the remote ones. The directional policies turn weights of
-- products into target lots, fit them to margins and limits, freeze new risk, and plan the orders
-- that lead there. The runtime state is saved with a sequence and a checksum. The engine takes the
-- events of the broker, remembers the trades that it has applied, and stops, or only reduces, when the
-- account, the positions or the broker are not as they should be. The development models these parts. Files, and the code
-- they translate:
--
--   Models      afuture/models.py: OrderRequest, Order, Trade, Tick, ContractPosition,
--               AccountSnapshot, ContractSpec, and the `validate` of each
--   Position    afuture/position.py: Position.Book has the fills of PositionBook, Position.Plan has
--               plan_close; the other children are about them
--   Fees        afuture/fees.py: calculate_commission
--   Sim         afuture/broker/sim.py: Sim.State has the fields of SimBroker, Sim.Matching has
--               _match_order and _fill, Sim.Days has the trading day, Sim.Session has send_order,
--               cancel_order, publish_tick and poll_events, Sim.Queries has get_account and
--               get_active_orders; the other children are about them
--   Risk        afuture/risk.py: Risk.Limiter has OrderRateLimiter, Risk.Manager the state of
--               RiskManager and check_account, Risk.Sessions the session windows, Risk.Entry the
--               checks of quotes and entries, Risk.Sizing has size_pair, Risk.Batch
--               check_open_orders; the other children are about them
--   Reconcile   afuture/reconcile.py: compare_positions
--   Execution   afuture/execution.py: PairExecutor on any broker; Execution has _aggressive_price,
--               flatten_imbalance and _rollback_submitted, Execution.Legs the opening and closing
--               orders; the other children are about them
--   Economics   afuture/economics.py: the net edge of a pair
--   Directional afuture/directional.py and afuture/directional_stress90_planner.py: Directional has
--               build_rebalance_plan and _rebalance_from_lots, Directional.Targets build_target_lots,
--               Directional.Budget fit_target_lots_to_margin_budget, Directional.Margin the sizing
--               share and stabilize_one_lot_increases of afuture/directional_efficiency.py,
--               Directional.Freeze and Directional.Frozen freeze_new_risk_target,
--               Directional.Categories _action_categories, Directional.Scaling
--               scale_stress90_product_weights of afuture/stress90_risk_overlay.py,
--               Directional.Unavailable, Directional.Stages and Directional.Staging
--               build_stress90_rebalance_stages; the other children are about them
--   Store       afuture/state.py: Store has the JSON values, Store.Payload _state_from_payload,
--               Store.Disk _decode_verified, load_record, load_previous and save; the other children
--               are about them
--   Engine      afuture/engine.py: Engine has the memory of applied trades in TradingEngine,
--               Engine.Modes its modes, kill switch, emergency_stop and enter_reduce_only,
--               Engine.Modes.Startup start, reconcile_startup, initialize_after_ready and
--               clear_kill_switch_after_reconcile, Engine.Modes.Checks _reduce_only_cycle,
--               _audit_pair_balance and _reconcile_runtime_snapshot, Engine.Modes.Events on_tick and
--               the handlers of events, Engine.Modes.Polling run_once; the others are about them
--   Float, Dict, Prelude    floats, dictionaries, integers and texts as the program uses them
--   Tests       runs on concrete values
--
-- How Python is read. A method is a function of the state to a result and a state, so that what was
-- changed before a `raise` stays changed. A dictionary is an association list in insertion order.
-- An `int` is an unbounded integer. A `float` is any type F with the operations of `FloatOps`; what
-- a theorem needs of IEEE 754 is a hypothesis of type `FloatOrder`, which is about comparisons and
-- one subtraction, and holds with NaN among the values. A division by zero, which raises in Python,
-- has some value. A datetime is its instant and whether it has a time zone. Objects that the code
-- shares by reference, such as the order in an event, are named by their key. `isinstance` tests
-- hold by typing. All loops are over finite lists; nothing runs on fuel.
--
-- Not modelled: SimBroker with a state file (its stores, market batches and compaction), its
-- catalog and raw tick observer; check_pair_calendar and the texts of session windows, which are
-- given as their times; the time zone and the test that a text is a date, parameters; in the
-- directional policies the contract selector and the realized gross reductions; the case mapping
-- `upper`, the sample deviation, the JSON text and the checksum of a saved state, which are
-- parameters; two writers at once; execute_signal of the pair executor and the active orders in its
-- pair_is_balanced; in the trading engine the strategies and the auto pairs, whose results are
-- arguments, the quotes and the health of the market, the roll of the positions on a new day, the
-- quality records and the permit of an outside authority; the live brokers, the other
-- engines, the strategies, the research tools and the command line.
pub mod Prelude
pub mod Dict
pub mod Float
pub mod Models
pub mod Position
pub mod Fees
pub mod Risk
pub mod Reconcile
pub mod Execution
pub mod Economics
pub mod Directional
pub mod Store
pub mod Engine
pub mod Sim
mod Tests

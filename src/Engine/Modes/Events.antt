-- ===== src/Engine/Modes/Events.antt =====
-- engine.py: the handlers of `TradingEngine` for the broker's events. Left out are
-- the quotes, the roll of the positions on a new day (Position), the quality records, and the texts of
-- exceptions that the code writes into the reason.
use afuture.Prelude.{
  ℕ, String, Bool, true, false, not, ◌&&◌, ◌||◌, Option, none, some, List, [], ◌∷◌, Result, ok, err,
  if◌then◌else◌,
}
use afuture.Prelude.Int.{pos, ltb_ℤ}
use afuture.Prelude.Text.{str_eq, str_append}
use afuture.Float.{FloatOps, fzero}
use afuture.Models.{ContractPosition, Order, blank_ident}
use afuture.Engine.{Outcome, applied, repeated, ambiguous, undated, unowned}
use afuture.Engine.Modes.{
  TradingEngine, Calls, Done, count, call, is_running, done, then_do, persist, emergency_stop,
  enter_reduce_only,
}
use afuture.Engine.Modes.Startup.{set_metadata}
use afuture.Engine.Modes.Checks.{reconcile_runtime_snapshot, audit_pair_balance}

-- What a trade report comes to: no trade, a trade or a day that is not valid, or the decision on
-- its identity with the positions after it, or the error of the position book.
pub data TradeReport (F : Type 0) : Type 0 where
  not_a_trade : TradeReport F
  bad_trade : String → TradeReport F
  decided : Outcome → Result String (List (ContractPosition F)) → TradeReport F

-- An account report: the error of the account or of its day, the day, the refused metadata, which is
-- read only on a new day, and the refusal of the account's risk.
pub record AccountReport : Type 0 where
  pub account_error : Option String
  pub account_day : String
  pub metadata_refusal : Option String
  pub account_refusal : Option String

-- A pair in the loop of `on_tick`: no signal, an exception, or a signal that the executor has run.
pub data PairTick : Type 0 where
  no_signal raised : PairTick
  executed : Bool → Bool → String → PairTick

-- A tick: its validation, the refusal of the account's risk, and the pairs.
pub record TickReport : Type 0 where
  pub valid : Bool
  pub account_refusal : Option String
  pub pairs : List PairTick

-- An order event has the order, if its payload is one, and whether the broker owns it.
pub data PolledEvent (F : Type 0) : Type 0 where
  tick : TickReport → PolledEvent F
  trade : TradeReport F → PolledEvent F
  order : Option (Order F) → Bool → PolledEvent F
  position_snapshot : Option (List (ContractPosition F)) → PolledEvent F
  account_error broker_error : String → PolledEvent F
  account : AccountReport → PolledEvent F

-- What a round runs on: the calls, the clock of the audit and the balance of the pairs, each by the
-- number of calls before it, the timeout, and the setting `require_live_metadata`.
pub record Round (F : Type 0) : Type 0 where
  pub calls : Calls
  pub now : ℕ → F
  pub timeout : F
  pub balances : ℕ → List (String × Bool)
  pub require_live_metadata : Bool

abbrev unrecognized_trade : String
unrecognized_trade = "unrecognized trade detected; possible external account activity"

module _ {F : Type 0} where
  abbrev pub record_and_stop : Calls → String → TradingEngine F → Done F (Unit {0})
  record_and_stop c reason e = then_do (call c.records e) (λ _. emergency_stop c reason)

  -- `except Exception: self.emergency_stop(reason)`
  abbrev pub stop_if_raised : Calls → String → Done F (Unit {0}) → Done F Bool
  stop_if_raised c reason (e, some u) = done true e
  stop_if_raised c reason (e, none) = then_do (emergency_stop c reason e) (λ _. done false)

  -- `_apply_expected_trade` under its `try`: whether the handler goes on.
  abbrev pub apply_expected_trade :
      Calls → Result String (List (ContractPosition F)) → TradingEngine F → Done F Bool
  apply_expected_trade c (ok positions) e =
      stop_if_raised c "expected position update failed"
        (persist c (record e { state = record (e.state) { positions = positions } }))
  apply_expected_trade c (err reason) e =
      stop_if_raised c (str_append "expected position update failed: " reason) (e, none)

  -- The loop of `on_tick` over the pairs; an exception ends it.
  abbrev pub tick_pairs : Calls → List PairTick → TradingEngine F → Done F (Unit {0})
  tick_pairs c [] e = done tt e
  tick_pairs c (no_signal ∷ pairs) e = tick_pairs c pairs e
  tick_pairs c (raised ∷ pairs) e = (e, none)
  tick_pairs c (executed emergency accepted reason ∷ pairs) e =
      then_do (then_do (call c.records e) (λ _. persist c)) (λ _ e.
        then_do
          (if emergency && not accepted
            then enter_reduce_only c (str_append "emergency exit failed: " reason) e
            else done tt e)
          (λ _. tick_pairs c pairs))

  abbrev pub ignore : Done F Bool → Done F (Unit {0})
  ignore d = then_do d (λ _. done tt)

  -- The body of `on_tick` under its `try`.
  abbrev pub tick_body : Calls → TickReport → TradingEngine F → Done F (Unit {0})
  tick_body c t e =
      if not t.valid
      then (e, none)
      else if e.stopped || not (is_running e.state.runtime_mode)
      then done tt e
      else elim t.account_refusal [
        | some reason ↦ emergency_stop c reason e
        | none ↦ tick_pairs c t.pairs e
      ]

  unfoldable pub on_tick : Calls → TickReport → TradingEngine F → Done F (Unit {0})
  on_tick c t e = ignore (stop_if_raised c "engine exception" (tick_body c t e))

  -- The end of `_handle_account_event`.
  abbrev pub account_risk : Calls → AccountReport → TradingEngine F → Done F (Unit {0})
  account_risk c a e =
      let dated =
        if str_eq a.account_day "" then e else record e { metadata_trading_day = a.account_day } in
      then_do (persist c dated) (λ _ e. elim a.account_refusal [
        | none ↦ done tt e
        | some reason ↦ emergency_stop c reason e
      ])

  -- Its test of the contract metadata on a new day.
  abbrev pub account_metadata : Calls → AccountReport → TradingEngine F → Done F (Unit {0})
  account_metadata c a e = elim a.metadata_refusal [
    | none ↦ account_risk c a (set_metadata true e)
    | some reason ↦ emergency_stop c reason (set_metadata false e)
  ]

  unfoldable pub handle_account_event :
      Calls → Bool → AccountReport → TradingEngine F → Done F (Unit {0})
  handle_account_event c require_live_metadata a e = elim a.account_error [
    | some reason ↦ emergency_stop c (str_append "invalid account snapshot: " reason) e
    | none ↦
        if require_live_metadata
          && not (str_eq a.account_day "")
          && not (str_eq e.metadata_trading_day "")
          && not (str_eq a.account_day e.metadata_trading_day)
        then account_metadata c a e
        else account_risk c a e
  ]

module _ {F : Type 0} ⦃fl : FloatOps F⦄ where
  abbrev pub audit : Round F → TradingEngine F → Done F (Unit {0})
  audit r e =
      audit_pair_balance r.calls (r.now e.calls_made) r.timeout (r.balances e.calls_made)
        (count 1 e)

  abbrev pub audit_if : Round F → Bool → TradingEngine F → Done F (Unit {0})
  audit_if r applied_trade e =
      if applied_trade then then_do (call r.calls.records e) (λ _. audit r) else done tt e

  unfoldable pub handle_trade_event : Round F → TradeReport F → TradingEngine F → Done F (Unit {0})
  handle_trade_event r not_a_trade e = record_and_stop r.calls unrecognized_trade e
  handle_trade_event r (bad_trade reason) e =
      emergency_stop r.calls (str_append "invalid trade event: " reason) e
  handle_trade_event r (decided repeated update) e = done tt e
  handle_trade_event r (decided ambiguous update) e =
      emergency_stop r.calls
        "ambiguous unqualified trade identity; broker reconciliation is required" e
  handle_trade_event r (decided undated update) e = emergency_stop r.calls "invalid trade event" e
  handle_trade_event r (decided unowned update) e = record_and_stop r.calls unrecognized_trade e
  handle_trade_event r (decided applied update) e =
      then_do (apply_expected_trade r.calls update e) (audit_if r)

  -- The tests of `_handle_order_event`; the `isinstance` tests hold by the types of the fields.
  abbrev pub order_fields_valid : Order F → Bool
  order_fields_valid o =
      not (blank_ident o.order_id)
      && ltb_ℤ (pos 0) o.request.volume
      && fl.is_finite o.request.price
      && not (fl.le o.request.price fzero)
      && not (ltb_ℤ o.traded (pos 0))
      && not (ltb_ℤ o.request.volume o.traded)
      && fl.is_finite o.average_price
      && not (fl.lt o.average_price fzero)

  abbrev pub order_recorded :
      Round F → Option (Order F) → Bool → TradingEngine F → Done F (Unit {0})
  order_recorded r none owned e =
      emergency_stop r.calls "invalid order event: payload is not an Order" e
  order_recorded r (some o) owned e =
      if not (order_fields_valid o)
      then emergency_stop r.calls "invalid order event: order fields are invalid" e
      else if not owned
      then emergency_stop r.calls "unrecognized order detected; possible external account activity"
          e
      else then_do (persist r.calls e) (λ _. audit r)

  unfoldable pub handle_order_event :
      Round F → Option (Order F) → Bool → TradingEngine F → Done F (Unit {0})
  handle_order_event r o owned e = then_do (call r.calls.records e) (λ _. order_recorded r o owned)

  unfoldable pub handle_event : Round F → PolledEvent F → TradingEngine F → Done F (Unit {0})
  handle_event r (tick t) e = on_tick r.calls t e
  handle_event r (trade t) e = handle_trade_event r t e
  handle_event r (order o owned) e = handle_order_event r o owned e
  handle_event r (position_snapshot remote) e = reconcile_runtime_snapshot r.calls remote e
  handle_event r (account_error reason) e =
      emergency_stop r.calls (str_append "invalid account snapshot: " reason) e
  handle_event r (broker_error reason) e =
      emergency_stop r.calls (str_append "broker error: " reason) e
  handle_event r (account a) e = handle_account_event r.calls r.require_live_metadata a e

  unfoldable pub handle_events :
      Round F → List (PolledEvent F) → TradingEngine F → Done F (Unit {0})
  handle_events r [] e = done tt e
  handle_events r (event ∷ events) e =
      then_do (handle_event r event e) (λ _. handle_events r events)

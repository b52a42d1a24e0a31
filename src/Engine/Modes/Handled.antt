-- ===== src/Engine/Modes/Handled.antt =====
-- About what a round of events leaves of the kill switch.
use afuture.Prelude.{
  String, Bool, not, ◌&&◌, ◌||◌, refl, Option, none, some, List, [], ◌∷◌, Result, ok, err,
  Bool-cases, inl, inr, Option-cases,
}
use afuture.Prelude.Text.{str_eq}
use afuture.Float.{FloatOps}
use afuture.Dict.{Dict}
use afuture.Models.{ContractPosition, Order}
use afuture.Engine.{applied, repeated, ambiguous, undated, unowned}
use afuture.Engine.Modes.{
  TradingEngine, Calls, Done, call, then_do, count, is_running, is_reduce_only, done, persist,
  emergency_stop,
}
use afuture.Engine.Modes.Startup.{initialize_once}
use afuture.Engine.Modes.Checks.{audit_verdict, audit_pairs, audit_pair_balance}
use afuture.Engine.Modes.Events.{
  TradeReport, AccountReport, PairTick, TickReport, PolledEvent, Round, not_a_trade, bad_trade,
  decided, no_signal, raised, executed, tick, trade, order, position_snapshot, account_error,
  broker_error, account, stop_if_raised, apply_expected_trade, tick_pairs, tick_body, on_tick,
  account_risk, account_metadata, handle_account_event, audit, audit_if, handle_trade_event,
  order_fields_valid, order_recorded, record_and_stop, handle_order_event, handle_event,
  handle_events,
}
use afuture.Engine.Modes.Polling.{Polled, finish_round, check_market, check_health, run_once}
use afuture.Engine.Modes.Locked.{
  Locked, then_do-Locked, persist-Locked, call-Locked, count-Locked, emergency_stop-Locked,
  enter_reduce_only-Locked, same_state-Locked,
}
use afuture.Engine.Modes.Kept.{
  if-Locked, reduce_only_cycle-Locked, reconcile_runtime_snapshot-Locked, initialize_once-Locked,
}

module _ {F : Type 0} where
  record_and_stop-Locked :
      (c : Calls) (reason : String) (e : TradingEngine F)
      → Locked e
      → Locked (record_and_stop c reason e).0
  record_and_stop-Locked c reason e h =
      then_do-Locked (call c.records e) _ (call-Locked c.records e h)
        (λ _. emergency_stop-Locked c reason)

  stop_if_raised-Locked :
      (c : Calls) (reason : String) (d : Done F (Unit {0}))
      → Locked d.0
      → Locked (stop_if_raised c reason d).0
  stop_if_raised-Locked c reason (e, some u) h = h
  stop_if_raised-Locked c reason (e, none) h =
      then_do-Locked (emergency_stop c reason e) _ (emergency_stop-Locked c reason e h) (λ _ _ k. k)

  apply_expected_trade-Locked :
      (c : Calls) (update : Result String (List (ContractPosition F))) (e : TradingEngine F)
      → Locked e
      → Locked (apply_expected_trade c update e).0
  apply_expected_trade-Locked c (ok positions) e h =
      stop_if_raised-Locked c _ (persist c _)
        (persist-Locked c _ (same_state-Locked e _ refl refl refl h))
  apply_expected_trade-Locked c (err reason) e h = stop_if_raised-Locked c _ (e, none) h

  tick_pairs-Locked :
      (c : Calls) (pairs : List PairTick) (e : TradingEngine F)
      → Locked e
      → Locked (tick_pairs c pairs e).0
  tick_pairs-Locked c [] e h = h
  tick_pairs-Locked c (no_signal ∷ pairs) e h = tick_pairs-Locked c pairs e h
  tick_pairs-Locked c (raised ∷ pairs) e h = h
  tick_pairs-Locked c (executed emergency accepted reason ∷ pairs) e h =
      let saved =
        then_do-Locked (call c.records e) (λ _. persist c) (call-Locked c.records e h)
          (λ _. persist-Locked c) in
      then_do-Locked (then_do (call c.records e) (λ _. persist c)) _ saved (λ _ f k.
        then_do-Locked _ _
          (if-Locked (emergency && not accepted) _ (done tt f) (enter_reduce_only-Locked c _ f k) k)
          (λ _. tick_pairs-Locked c pairs))

  tick_body-Locked :
      (c : Calls) (t : TickReport) (e : TradingEngine F) → Locked e → Locked (tick_body c t e).0
  tick_body-Locked c t e h =
      if-Locked (not t.valid) (e, none) _ h
        (if-Locked (e.stopped || not (is_running e.state.runtime_mode)) (done tt e) _ h
          (elim (Option-cases t.account_refusal) [
            | inl fine ↦ rw fine (tick_pairs-Locked c t.pairs e h)
            | inr (reason, refused) ↦ rw refused (emergency_stop-Locked c reason e h)
          ]))

  on_tick-Locked :
      (c : Calls) (t : TickReport) (e : TradingEngine F) → Locked e → Locked (on_tick c t e).0
  unfolding on_tick
  on_tick-Locked c t e h =
      then_do-Locked (stop_if_raised c _ (tick_body c t e)) _
        (stop_if_raised-Locked c _ (tick_body c t e) (tick_body-Locked c t e h)) (λ _ _ k. k)

  account_risk-Locked :
      (c : Calls) (a : AccountReport) (e : TradingEngine F)
      → Locked e
      → Locked (account_risk c a e).0
  account_risk-Locked c a e h =
      then_do-Locked (persist c _) _
        (persist-Locked c _ (elim (Bool-cases (str_eq a.account_day "")) [
          | inl blank ↦ rw blank h
          | inr dated ↦ rw dated (same_state-Locked e _ refl refl refl h)
        ]))
        (λ _ f k. elim (Option-cases a.account_refusal) [
          | inl fine ↦ rw fine k
          | inr (reason, refused) ↦ rw refused (emergency_stop-Locked c reason f k)
        ])

  account_metadata-Locked :
      (c : Calls) (a : AccountReport) (e : TradingEngine F)
      → Locked e
      → Locked (account_metadata c a e).0
  account_metadata-Locked c a e h = elim (Option-cases a.metadata_refusal) [
    | inl fine ↦ rw fine (account_risk-Locked c a _ (same_state-Locked e _ refl refl refl h))
    | inr (reason, refused) ↦
        rw refused (emergency_stop-Locked c reason _ (same_state-Locked e _ refl refl refl h))
  ]

  handle_account_event-Locked :
      (c : Calls) (live : Bool) (a : AccountReport) (e : TradingEngine F)
      → Locked e
      → Locked (handle_account_event c live a e).0
  unfolding handle_account_event
  handle_account_event-Locked c live a e h = elim (Option-cases a.account_error) [
    | inl fine ↦ rw fine (
        if-Locked _ (account_metadata c a e) (account_risk c a e) (account_metadata-Locked c a e h)
          (account_risk-Locked c a e h))
    | inr (reason, bad) ↦ rw bad (emergency_stop-Locked c _ e h)
  ]

module _ {F : Type 0} ⦃fl : FloatOps F⦄ where
  audit_verdict-Locked :
      (c : Calls) (verdict : Dict String F × Option String) (e : TradingEngine F)
      → Locked e
      → Locked (audit_verdict c verdict e).0
  audit_verdict-Locked c (since, none) e h = same_state-Locked e _ refl refl refl h
  audit_verdict-Locked c (since, some id) e h =
      enter_reduce_only-Locked c _ _ (same_state-Locked e _ refl refl refl h)

  audit-Locked : (r : Round F) (e : TradingEngine F) → Locked e → Locked (audit r e).0
  unfolding audit_pair_balance
  audit-Locked r e h =
      let n = e.calls_made in
      let counted = count-Locked 1 e h in
      if-Locked (e.stopped || is_reduce_only e.state.runtime_mode) (done tt (count 1 e)) _ counted (
        audit_verdict-Locked r.calls
          (audit_pairs (r.now n) r.timeout (r.balances n) e.imbalance_since) (count 1 e) counted)

  handle_trade_event-Locked :
      (r : Round F) (t : TradeReport F) (e : TradingEngine F)
      → Locked e
      → Locked (handle_trade_event r t e).0
  unfolding handle_trade_event
  handle_trade_event-Locked r not_a_trade e h = record_and_stop-Locked r.calls _ e h
  handle_trade_event-Locked r (bad_trade reason) e h = emergency_stop-Locked r.calls _ e h
  handle_trade_event-Locked r (decided repeated update) e h = h
  handle_trade_event-Locked r (decided ambiguous update) e h = emergency_stop-Locked r.calls _ e h
  handle_trade_event-Locked r (decided unowned update) e h = record_and_stop-Locked r.calls _ e h
  handle_trade_event-Locked r (decided undated update) e h = emergency_stop-Locked r.calls _ e h
  handle_trade_event-Locked r (decided applied update) e h =
      then_do-Locked (apply_expected_trade r.calls update e) (audit_if r)
        (apply_expected_trade-Locked r.calls update e h)
        (λ went f k.
          if-Locked went _ (done tt f)
            (then_do-Locked (call r.calls.records f) (λ _. audit r)
              (call-Locked r.calls.records f k) (λ _. audit-Locked r))
            k)

  order_recorded-Locked :
      (r : Round F) (o : Option (Order F)) (owned : Bool) (e : TradingEngine F)
      → Locked e
      → Locked (order_recorded r o owned e).0
  order_recorded-Locked r none owned e h = emergency_stop-Locked r.calls _ e h
  order_recorded-Locked r (some o) owned e h =
      if-Locked (not (order_fields_valid o)) _ _ (emergency_stop-Locked r.calls _ e h) (
        if-Locked (not owned) _ _ (emergency_stop-Locked r.calls _ e h)
          (then_do-Locked (persist r.calls e) _ (persist-Locked r.calls e h) (λ _. audit-Locked r)))

  handle_order_event-Locked :
      (r : Round F) (o : Option (Order F)) (owned : Bool) (e : TradingEngine F)
      → Locked e
      → Locked (handle_order_event r o owned e).0
  unfolding handle_order_event
  handle_order_event-Locked r o owned e h =
      then_do-Locked (call r.calls.records e) _ (call-Locked r.calls.records e h)
        (λ _. order_recorded-Locked r o owned)

  handle_event-Locked :
      (r : Round F) (event : PolledEvent F) (e : TradingEngine F)
      → Locked e
      → Locked (handle_event r event e).0
  unfolding handle_event
  handle_event-Locked r (tick t) e h = on_tick-Locked r.calls t e h
  handle_event-Locked r (trade t) e h = handle_trade_event-Locked r t e h
  handle_event-Locked r (order o owned) e h = handle_order_event-Locked r o owned e h
  handle_event-Locked r (position_snapshot remote) e h =
      reconcile_runtime_snapshot-Locked r.calls remote e h
  handle_event-Locked r (account_error reason) e h = emergency_stop-Locked r.calls _ e h
  handle_event-Locked r (broker_error reason) e h = emergency_stop-Locked r.calls _ e h
  handle_event-Locked r (account a) e h =
      handle_account_event-Locked r.calls r.require_live_metadata a e h

  handle_events-Locked :
      (r : Round F) (events : List (PolledEvent F)) (e : TradingEngine F)
      → Locked e
      → Locked (handle_events r events e).0
  unfolding handle_events
  handle_events-Locked r [] e h = h
  handle_events-Locked r (event ∷ events) e h =
      then_do-Locked (handle_event r event e) _ (handle_event-Locked r event e h)
        (λ _. handle_events-Locked r events)

  check_market-Locked :
      (r : Round F) (p : Polled F) (e : TradingEngine F) → Locked e → Locked (check_market r p e).0
  check_market-Locked r p e h =
      if-Locked
        (not e.stopped && is_running e.state.runtime_mode && not (str_eq p.market_reason "")) _
        (finish_round r p e) (emergency_stop-Locked r.calls p.market_reason e h)
        (then_do-Locked (audit r e) _ (audit-Locked r e h) (λ _ f k.
          if-Locked (is_reduce_only f.state.runtime_mode) _ (done tt f)
            (reduce_only_cycle-Locked r.calls p.auto_flatten p.repairs f k) k))

  check_health-Locked :
      (r : Round F) (p : Polled F) (e : TradingEngine F) → Locked e → Locked (check_health r p e).0
  check_health-Locked r p e h =
      let rest =
        then_do-Locked (handle_events r p.events e) (λ _. check_market r p)
          (handle_events-Locked r p.events e h) (λ _. check_market-Locked r p) in
      elim (Option-cases p.health_error) [
        | inl fine ↦ rw fine rest
        | inr (reason, ill) ↦
            rw ill (if-Locked e.stopped _ _ rest (emergency_stop-Locked r.calls reason e h))
      ]

  pub run_once-Locked :
      (r : Round F) (p : Polled F) (e : TradingEngine F) → Locked e → Locked (run_once r p e).0
  unfolding run_once
  run_once-Locked r p e h =
      if-Locked (not p.session.broker_ready) _ _
        (if-Locked (e.initialized && not e.stopped) _ (done tt e)
          (emergency_stop-Locked r.calls _ e h) h)
        (then_do-Locked (initialize_once r.calls p.session e) _
          (initialize_once-Locked r.calls p.session e h) (λ _. check_health-Locked r p))

-- ===== src/Engine/Modes/Locked.antt =====
-- About the engine while its kill switch is set.
use afuture.Prelude.{
  ℕ, Bool, String, true, false, ◌≡◌, refl, Option, none, some, List, Bool-cases, inl, inr,
}
use afuture.Engine.Modes.{
  EngineState, TradingEngine, Calls, Done, is_running, is_halted, then_do, raise_again,
  cancel_listed, cancel_active, persist, halt, count, call, alert_and_persist, set_reduce_only,
  emergency_stop, enter_reduce_only,
}

-- The kill switch is set and the mode is not RUNNING.
pub record Stops {F : Type 0} (s : EngineState F) : Type 0 where
  pub switched : s.kill_switch ≡ true
  pub idle : is_running s.runtime_mode ≡ false

-- This is so in memory and on the disk.
pub record Locked {F : Type 0} (e : TradingEngine F) : Type 0 where
  pub memory : Stops e.state
  pub saved : Stops e.disk

module _ {F : Type 0} where
  pub then_do-Locked :
      {A B : Type 0} (d : Done F A) (f : A → TradingEngine F → Done F B)
      → Locked d.0
      → ((a : A) (e : TradingEngine F) → Locked e → Locked (f a e).0)
      → Locked (then_do d f).0
  then_do-Locked (e, some a) f h k = k a e h
  then_do-Locked (e, none) f h k = h

  pub raise_again-0 : {A : Type 0} (o : Option A) (d : Done F A) → (raise_again o d).0 ≡ d.0
  raise_again-0 (some a) d = refl
  raise_again-0 none d = refl

  -- Only the mode, the kill switch and what is saved matter.
  pub same_state-Locked :
      (e f : TradingEngine F)
      → f.state.kill_switch ≡ e.state.kill_switch
      → f.state.runtime_mode ≡ e.state.runtime_mode
      → f.disk ≡ e.disk
      → Locked e
      → Locked f
  same_state-Locked e f k m d h = record {
    memory = record { switched = rw k h.memory.switched; idle = rw m h.memory.idle };
    saved = rw d h.saved;
  }

  -- A number more of calls changes nothing.
  pub count-Locked : (n : ℕ) (e : TradingEngine F) → Locked e → Locked (count n e)
  count-Locked n e h = record { memory = h.memory; saved = h.saved }

  pub call-Locked :
      (returns : ℕ → Bool) (e : TradingEngine F) → Locked e → Locked (call returns e).0
  call-Locked returns e h = elim (Bool-cases (returns e.calls_made)) [
    | inl yes_returns ↦ rw yes_returns (count-Locked 1 e h)
    | inr fails ↦ rw fails (count-Locked 1 e h)
  ]

  pub persist-Locked : (c : Calls) (e : TradingEngine F) → Locked e → Locked (persist c e).0
  persist-Locked c e h = elim (Bool-cases (c.saves e.calls_made)) [
    | inl saves ↦ rw saves (record { memory = h.memory; saved = h.memory })
    | inr fails ↦ rw fails (count-Locked 1 e h)
  ]

  alert_and_persist-Locked :
      (c : Calls) (e : TradingEngine F) → Locked e → Locked (alert_and_persist c e).0
  alert_and_persist-Locked c e h =
      then_do-Locked (call c.alerts e) (λ _. persist c) (call-Locked c.alerts e h)
        (λ _. persist-Locked c)

  cancel_listed-Locked :
      (c : Calls) (ids : Option (List String)) (e : TradingEngine F)
      → Locked e
      → Locked (cancel_listed c ids e).0
  cancel_listed-Locked c none e h = h
  cancel_listed-Locked c (some ids) e h = record { memory = h.memory; saved = h.saved }

  cancel_active-Locked : (c : Calls) (e : TradingEngine F) → Locked e → Locked (cancel_active c e).0
  cancel_active-Locked c e h =
      cancel_listed-Locked c (c.active_orders e.calls_made) (count 1 e) (count-Locked 1 e h)

  halt-Locked : (reason : String) (e : TradingEngine F) → Locked e → Locked (halt reason e)
  halt-Locked reason e h = record {
    memory = record { switched = refl; idle = refl };
    saved = h.saved;
  }

  pub emergency_stop-Locked :
      (c : Calls) (reason : String) (e : TradingEngine F)
      → Locked e
      → Locked (emergency_stop c reason e).0
  unfolding emergency_stop
  emergency_stop-Locked c reason e h =
      then_do-Locked (call c.records e) _ (call-Locked c.records e h) (λ _ f k.
        let stopping = halt reason (cancel_active c f).0 in
        rw (raise_again-0 (cancel_active c f).1 (alert_and_persist c stopping)) (
          alert_and_persist-Locked c stopping
            (halt-Locked reason (cancel_active c f).0 (cancel_active-Locked c f k))))

  set_reduce_only-Locked :
      (reason : String) (e : TradingEngine F) → Locked e → Locked (set_reduce_only reason e)
  set_reduce_only-Locked reason e h = record {
    memory = record { switched = refl; idle = refl };
    saved = h.saved;
  }

  pub enter_reduce_only-Locked :
      (c : Calls) (reason : String) (e : TradingEngine F)
      → Locked e
      → Locked (enter_reduce_only c reason e).0
  unfolding enter_reduce_only
  enter_reduce_only-Locked c reason e h = elim (Bool-cases (is_halted e.state.runtime_mode)) [
    | inl over ↦ rw over h
    | inr going ↦ rw going (
        then_do-Locked (cancel_active c (set_reduce_only reason e)) (λ _. alert_and_persist c)
          (cancel_active-Locked c (set_reduce_only reason e) (set_reduce_only-Locked reason e h))
          (λ _. alert_and_persist-Locked c))
  ]

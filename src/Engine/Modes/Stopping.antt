-- ===== src/Engine/Modes/Stopping.antt =====
-- About the emergency stop, when the broker or the store raise.
use afuture.Prelude.{
  ℕ, suc, ◌+◌, ◌⊎◌, String, true, false, ◌≡◌, refl, sym, ap, ◌∙◌, Option, none, some, List, [], ◌∷◌,
  ◌++◌, Bool-cases, inl, inr,
}
use afuture.Engine.Modes.{
  halted, TradingEngine, Calls, Done, raise_again, cancel_ids, cancel_listed, cancel_active,
  alert_and_persist, count, halt, emergency_stop,
}
use afuture.Engine.Modes.Locked.{raise_again-0}

-- What an `emergency_stop` that has written its record leaves, whether it returns or raises.
pub record Halts {F : Type 0} (c : Calls) (reason : String) (e : TradingEngine F)
    (after : Done F (Unit {0})) : Type 0 where
  pub stopped : after.0.stopped ≡ true
  pub mode : after.0.state.runtime_mode ≡ halted
  pub kill_switch : after.0.state.kill_switch ≡ true
  pub kill_reason : after.0.state.kill_reason ≡ reason
  pub reconciled : after.0.state.reconciled ≡ false
  pub saved :
      (after.0.disk ≡ after.0.state) ⊎ ((n : ℕ) × ((c.alerts n ≡ false) ⊎ (c.saves n ≡ false)))
  pub orders :
      after.1 ≡ some tt
      → (n : ℕ) × (ids : List String) × (c.active_orders n ≡ some ids)
        × (after.0.cancelled ≡ e.cancelled ++ ids)

cancel_ids-all :
    (c : Calls) (n : ℕ) (ids : List String)
    → (cancel_ids c n ids).1 ≡ some tt
    → (cancel_ids c n ids).0 ≡ ids
cancel_ids-all c n [] h = refl
cancel_ids-all c n (id ∷ ids) h = elim (Bool-cases (c.cancels n id)) [
  | inl returns ↦
      rw returns (ap (λ rest. id ∷ rest) (cancel_ids-all c (suc n) ids (rw returns at (h))))
  | inr raises ↦ cc
]

module _ {F : Type 0} where
  cancel_listed-all :
      (c : Calls) (listed : Option (List String)) (e : TradingEngine F)
      → (cancel_listed c listed e).1 ≡ some tt
      → (ids : List String) × (listed ≡ some ids)
        × ((cancel_listed c listed e).0.cancelled ≡ e.cancelled ++ ids)
  cancel_listed-all c none e h = cc
  cancel_listed-all c (some ids) e h =
      (ids, refl, ap (λ called. e.cancelled ++ called) (cancel_ids-all c e.calls_made ids h))

  -- `alert_and_persist` changes the disk only.
  record Persists (c : Calls) (e after : TradingEngine F) : Type 0 where
    same_state : after.state ≡ e.state
    same_stopped : after.stopped ≡ e.stopped
    same_cancelled : after.cancelled ≡ e.cancelled
    on_disk : (after.disk ≡ e.state) ⊎ ((n : ℕ) × ((c.alerts n ≡ false) ⊎ (c.saves n ≡ false)))

  alert_and_persist-Persists :
      (c : Calls) (e : TradingEngine F) → Persists c e (alert_and_persist c e).0
  alert_and_persist-Persists c e = elim (Bool-cases (c.alerts e.calls_made)) [
    | inr silent ↦ rw silent (record {
      same_state = refl;
      same_stopped = refl;
      same_cancelled = refl;
      on_disk = inr (e.calls_made, inl silent);
    })
    | inl sent ↦ elim (Bool-cases (c.saves (e.calls_made + 1))) [
      | inl saves ↦
          rw (sent, saves)
            (record {
              same_state = refl;
              same_stopped = refl;
              same_cancelled = refl;
              on_disk = inl refl;
            })
      | inr fails ↦
          rw (sent, fails)
            (record {
              same_state = refl;
              same_stopped = refl;
              same_cancelled = refl;
              on_disk = inr (e.calls_made + 1, inr fails);
            })
    ]
  ]

  returned_again :
      (returned : Option (Unit {0})) (d : Done F (Unit {0}))
      → (raise_again returned d).1 ≡ some tt
      → returned ≡ some tt
  returned_again (some tt) d h = refl
  returned_again none d h = cc

  halting :
      (c : Calls) (reason : String) (e cancelling : TradingEngine F) (returned : Option (Unit {0}))
      → (returned ≡ some tt
          → (n : ℕ) × (ids : List String) × (c.active_orders n ≡ some ids)
            × (cancelling.cancelled ≡ e.cancelled ++ ids))
      → Halts c reason e (raise_again returned (alert_and_persist c (halt reason cancelling)))
  halting c reason e cancelling returned all =
      let d = alert_and_persist c (halt reason cancelling) in
      let kept = alert_and_persist-Persists c (halt reason cancelling) in
      let same : (raise_again returned d).0 ≡ d.0 = raise_again-0 returned d in
      let state : (raise_again returned d).0.state ≡ (halt reason cancelling).state =
        ap (λ f. f.state) same ∙ kept.same_state in
      record {
        stopped = ap (λ f. f.stopped) same ∙ kept.same_stopped;
        mode = ap (λ s. s.runtime_mode) state;
        kill_switch = ap (λ s. s.kill_switch) state;
        kill_reason = ap (λ s. s.kill_reason) state;
        reconciled = ap (λ s. s.reconciled) state;
        saved = elim kept.on_disk [
          | inl saved ↦ inl (ap (λ f. f.disk) same ∙ saved ∙ sym state)
          | inr failed ↦ inr failed
        ];
        orders = λ again.
            let (n, ids, listed, called) = all (returned_again returned d again) in
            (n, ids, listed, ap (λ f. f.cancelled) same ∙ kept.same_cancelled ∙ called);
      }

  -- An emergency stop whose own journal record is written leaves the engine halted, with the kill switch
  -- set for the given reason and the positions no longer reconciled, also when the broker raises while
  -- the orders are read or cancelled, or the alert or the store raise. Unless the alert or the store
  -- raises, the disk holds that state; and where the stop returns, it has called `cancel_order` for
  -- every active order. (The code writes the record before its `try`: if that raises, nothing is done.)
  pub emergency_stop-Halts :
      (c : Calls) (reason : String) (e : TradingEngine F)
      → c.records e.calls_made ≡ true
      → Halts c reason e (emergency_stop c reason e)
  unfolding emergency_stop
  emergency_stop-Halts c reason e recorded =
      let f = count 1 e in
      rw recorded (
        halting c reason e (cancel_active c f).0 (cancel_active c f).1 (λ returned.
          let (ids, listed, called) =
            cancel_listed-all c (c.active_orders f.calls_made) (count 1 f) returned in
          (f.calls_made, ids, listed, called)))

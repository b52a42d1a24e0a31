-- ===== src/Engine/Modes/Kept.antt =====
-- About what each method of the engine leaves of its kill switch.
use afuture.Prelude.{
  String, Bool, true, false, not, ◌&&◌, refl, Option, none, some, List, if◌then◌else◌, Bool-cases,
  inl, inr, Option-cases,
}
use afuture.Models.{ContractPosition}
use afuture.Reconcile.{compare_positions}
use afuture.Engine.Modes.{TradingEngine, Calls, Done, persist, emergency_stop}
use afuture.Engine.Modes.Startup.{
  Session, reconcile_startup, initialize_after_ready, initialize_account, initialize_metadata,
  initialize_risk, initialize_once, load_engine, start_engine,
}
use afuture.Engine.Modes.Checks.{
  PairRepair, recovered, reduce_only_cycle, reconcile_runtime_snapshot,
}
use afuture.Engine.Modes.Locked.{
  Locked, then_do-Locked, persist-Locked, emergency_stop-Locked, same_state-Locked,
}

module _ {F : Type 0} where
  -- Both branches of a test, and of a text that may be missing.
  pub if-Locked :
      {A : Type 0} (b : Bool) (x y : Done F A)
      → Locked x.0
      → Locked y.0
      → Locked (if b then x else y).0
  if-Locked true x y h k = h
  if-Locked false x y h k = k

  pub reduce_only_cycle-Locked :
      (c : Calls) (flatten : Bool) (pairs : List PairRepair) (e : TradingEngine F)
      → Locked e
      → Locked (reduce_only_cycle c flatten pairs e).0
  unfolding reduce_only_cycle
  reduce_only_cycle-Locked c flatten pairs e h = elim (Bool-cases (recovered pairs)) [
    | inl over ↦ rw over (
        persist-Locked c _
          (record { memory = record { switched = refl; idle = refl }; saved = h.saved }))
    | inr going ↦ rw going (record {
      memory = record { switched = h.memory.switched; idle = h.memory.idle };
      saved = h.saved;
    })
  ]

  pub reconcile_runtime_snapshot-Locked :
      (c : Calls) (payload : Option (List (ContractPosition F))) (e : TradingEngine F)
      → Locked e
      → Locked (reconcile_runtime_snapshot c payload e).0
  unfolding reconcile_runtime_snapshot
  reconcile_runtime_snapshot-Locked c none e h =
      if-Locked e.stopped _ _ h (emergency_stop-Locked c _ e h)
  reconcile_runtime_snapshot-Locked c (some remote) e h = if-Locked e.stopped _ _ h (
      if-Locked (not (compare_positions e.state.positions remote)) _ _
        (emergency_stop-Locked c _ e h)
        (persist-Locked c _ (same_state-Locked e _ refl refl refl h)))

  pub reconcile_startup-Locked :
      (c : Calls) (remote : List (ContractPosition F)) (e : TradingEngine F)
      → Locked e
      → Locked (reconcile_startup c remote e).0
  unfolding reconcile_startup
  reconcile_startup-Locked c remote e h =
      if-Locked (not (compare_positions e.state.positions remote)) _ _
        (then_do-Locked (emergency_stop c _ _) _
          (emergency_stop-Locked c _ _ (same_state-Locked e _ refl refl refl h)) (λ _ _ k. k))
        (then_do-Locked (persist c _) _
          (persist-Locked c _ (same_state-Locked e _ refl refl refl h)) (λ _ _ k. k))

  initialize_risk-Locked :
      (c : Calls) (refusal : Option String) (e : TradingEngine F)
      → Locked e
      → Locked (initialize_risk c refusal e).0
  initialize_risk-Locked c none e h = persist-Locked c _ (same_state-Locked e _ refl refl refl h)
  initialize_risk-Locked c (some reason) e h =
      emergency_stop-Locked c reason _ (same_state-Locked e _ refl refl refl h)

  initialize_metadata-Locked :
      (c : Calls) (s : Session) (e : TradingEngine F)
      → Locked e
      → Locked (initialize_metadata c s e).0
  initialize_metadata-Locked c s e h = elim (Option-cases s.metadata_refusal) [
    | inl fine ↦
        rw fine
          (initialize_risk-Locked c s.account_refusal _ (same_state-Locked e _ refl refl refl h))
    | inr (reason, refused) ↦ rw refused (
        then_do-Locked (emergency_stop c reason _) _
          (emergency_stop-Locked c reason _ (same_state-Locked e _ refl refl refl h))
          (λ _ f k. same_state-Locked f _ refl refl refl k))
  ]

  initialize_account-Locked :
      (c : Calls) (s : Session) (e : TradingEngine F)
      → Locked e
      → Locked (initialize_account c s e).0
  initialize_account-Locked c s e h = elim (Option-cases s.account_error) [
    | inl fine ↦ rw fine (initialize_metadata-Locked c s e h)
    | inr (reason, bad) ↦
        rw bad (emergency_stop-Locked c _ _ (same_state-Locked e _ refl refl refl h))
  ]

  pub initialize_after_ready-Locked :
      (c : Calls) (s : Session) (e : TradingEngine F)
      → Locked e
      → Locked (initialize_after_ready c s e).0
  unfolding initialize_after_ready
  initialize_after_ready-Locked c s e h = elim (Bool-cases s.broker_ready) [
    | inr down ↦ rw down h
    | inl ready ↦ rw ready (elim (Option-cases s.discovery_error) [
      | inl fine ↦ rw fine (initialize_account-Locked c s e h)
      | inr (reason, bad) ↦
          rw bad (emergency_stop-Locked c _ _ (same_state-Locked e _ refl refl refl h))
    ])
  ]

  pub initialize_once-Locked :
      (c : Calls) (s : Session) (e : TradingEngine F) → Locked e → Locked (initialize_once c s e).0
  initialize_once-Locked c s e h =
      if-Locked e.initialized _ _ h (initialize_after_ready-Locked c s e h)

  -- A restart takes what the disk has.
  pub start_engine-Locked :
      (c : Calls) (s : Session) (e : TradingEngine F) → Locked e → Locked (start_engine c s e).0
  unfolding start_engine
  start_engine-Locked c s e h =
      let loaded : Locked (load_engine e) = record { memory = h.saved; saved = h.saved } in
      if-Locked (s.broker_ready && not s.defer_empty_historical_day && not s.requires_permit) _ _
        (initialize_after_ready-Locked c s (load_engine e) loaded) loaded

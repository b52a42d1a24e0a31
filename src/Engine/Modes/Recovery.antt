-- ===== src/Engine/Modes/Recovery.antt =====
-- About runs of the engine, and the gates of its recovery.
use afuture.Prelude.{
  String, Bool, true, false, not, ◌||◌, ◌≡◌, refl, Option, none, some, List, [], ◌∷◌, ◌⊎◌, inl, inr,
  Bool-cases, arith, known,
}
use afuture.Float.{FloatOps}
use afuture.Models.{ContractPosition}
use afuture.Reconcile.{compare_positions}
use afuture.Engine.Modes.{
  TradingEngine, Calls, Done, done, then_do, emergency_stop, enter_reduce_only,
}
use afuture.Engine.Modes.Startup.{
  Session, reconcile_startup, initialize_once, start_engine, can_clear_kill_switch,
  clear_reconciled, clear_initialized, clear_kill_switch_after_reconcile,
}
use afuture.Engine.Modes.Events.{Round}
use afuture.Engine.Modes.Polling.{Polled, run_once}
use afuture.Engine.Modes.Locked.{Locked, emergency_stop-Locked, enter_reduce_only-Locked}
use afuture.Engine.Modes.Kept.{
  reconcile_startup-Locked, initialize_once-Locked, start_engine-Locked,
}
use afuture.Engine.Modes.Handled.{run_once-Locked}

-- A call from outside: a restart of the process, a round, a stop, a reduction or a recovery. The
-- activation by an outside permit is not among them.
pub data Operation (F : Type 0) : Type 0 where
  restart : Calls → Session → Operation F
  round : Round F → Polled F → Operation F
  stop : Calls → String → Operation F
  reduction : Calls → String → Operation F
  recovery : Calls → Session → List (ContractPosition F) → Option String → Operation F

-- The gates of a recovery, for the engine after its initialisation.
pub record Gates {F : Type 0} (s : Session) (remote : List (ContractPosition F))
    (refusal : Option String) (e : TradingEngine F) : Type 0 where
  pub no_permit : s.requires_permit ≡ false
  pub ready : s.broker_ready ≡ true
  pub session_metadata : e.metadata_verified_session ≡ true
  pub metadata : e.state.metadata_verified ≡ true
  pub matched : compare_positions e.state.positions remote ≡ true
  pub allowed : known refusal ≡ false

module _ {F : Type 0} where
  -- The first part leaves the engine locked, and the rest does or has what opens it.
  then_do-either :
      {A B : Type 0} (C : Type 0) (d : Done F A) (f : A → TradingEngine F → Done F B)
      → Locked d.0
      → ((a : A) → d.1 ≡ some a → Locked (f a d.0).0 ⊎ C)
      → Locked (then_do d f).0 ⊎ C
  then_do-either C (e, some a) f h k = k a refl
  then_do-either C (e, none) f h k = inl h

  then_done :
      {A B : Type 0} (d : Done F A) (b : B) {c : B} → (then_do d (λ _. done b)).1 ≡ some c → c ≡ b
  then_done (e, some a) b h = cc
  then_done (e, none) b h = cc

  unmatched :
      (c : Calls) (remote : List (ContractPosition F)) (e : TradingEngine F) {matched : Bool}
      → compare_positions e.state.positions remote ≡ false
      → (reconcile_startup c remote e).1 ≡ some matched
      → matched ≡ false
  unfolding reconcile_startup
  unmatched c remote e differs h = then_done _ false (rw differs at (h))

  clear_reconciled-either :
      (c : Calls) (refusal : Option String) (matched : Bool) (e : TradingEngine F)
      → Locked e
      → Locked (clear_reconciled c refusal matched e).0
        ⊎ ((matched ≡ true) × (known refusal ≡ false))
  clear_reconciled-either c refusal matched e h =
      elim (Bool-cases (not matched || not (can_clear_kill_switch e.state) || known refusal)) [
        | inl closed ↦ rw closed (inl h)
        | inr passed ↦ inr (ground (arith, passed))
      ]

  clear_initialized-either :
      (c : Calls) (s : Session) (remote : List (ContractPosition F)) (refusal : Option String)
      (e : TradingEngine F)
      → s.requires_permit ≡ false
      → s.broker_ready ≡ true
      → Locked e
      → Locked (clear_initialized c remote refusal e).0 ⊎ Gates s remote refusal e
  clear_initialized-either c s remote refusal e permit ready h =
      elim (Bool-cases (not e.metadata_verified_session || not e.state.metadata_verified)) [
        | inl closed ↦ rw closed (inl h)
        | inr verified ↦ rw verified (
            then_do-either (Gates s remote refusal e) (reconcile_startup c remote e)
              (clear_reconciled c refusal) (reconcile_startup-Locked c remote e h)
              (λ matched returned.
                elim (clear_reconciled-either c refusal matched (reconcile_startup c remote e).0
                  (reconcile_startup-Locked c remote e h)) [
                    | inl locked ↦ inl locked
                    | inr passed ↦ inr (record {
                      no_permit = permit;
                      ready = ready;
                      session_metadata = ground (arith, verified);
                      metadata = ground (arith, verified);
                      matched = elim (Bool-cases (compare_positions e.state.positions remote)) [
                        | inl same ↦ same
                        | inr different ↦
                            ground (arith, unmatched c remote e different returned, passed)
                      ];
                      allowed = passed.1;
                    })
                  ]))
      ]

-- A recovery of a locked engine leaves it locked, in memory and on the disk, or every gate was
-- passed: no permit is required, the broker is ready, the metadata was verified in this session and
-- in the state, the broker's positions are the local ones, and the account's risk is not refused.
pub clear_kill_switch_after_reconcile-Gates :
    {F : Type 0} (c : Calls) (s : Session) (remote : List (ContractPosition F))
    (refusal : Option String) (e : TradingEngine F)
    → Locked e
    → Locked (clear_kill_switch_after_reconcile c s remote refusal e).0
      ⊎ Gates s remote refusal (initialize_once c s e).0
unfolding clear_kill_switch_after_reconcile
clear_kill_switch_after_reconcile-Gates c s remote refusal e h =
    elim (Bool-cases (s.requires_permit || not s.broker_ready)) [
      | inl closed ↦ rw closed (inl h)
      | inr passed ↦ rw passed (
          then_do-either (Gates s remote refusal (initialize_once c s e).0) (initialize_once c s e)
            (λ _. clear_initialized c remote refusal) (initialize_once-Locked c s e h)
            (λ _ _.
              clear_initialized-either c s remote refusal (initialize_once c s e).0
                (ground (arith, passed)) (ground (arith, passed)) (initialize_once-Locked c s e h)))
    ]

module _ {F : Type 0} ⦃fl : FloatOps F⦄ where
  -- The engine after a call; what the call returns or raises goes to the caller.
  unfoldable pub perform : Operation F → TradingEngine F → TradingEngine F
  perform (restart c s) e = (start_engine c s e).0
  perform (round r p) e = (run_once r p e).0
  perform (stop c reason) e = (emergency_stop c reason e).0
  perform (reduction c reason) e = (enter_reduce_only c reason e).0
  perform (recovery c s remote refusal) e =
      (clear_kill_switch_after_reconcile c s remote refusal e).0

  unfoldable pub perform_all : List (Operation F) → TradingEngine F → TradingEngine F
  perform_all [] e = e
  perform_all (op ∷ ops) e = perform_all ops (perform op e)

  -- The call is a recovery that passes the gates.
  abbrev pub Passes : Operation F → TradingEngine F → Type 0
  Passes (recovery c s remote refusal) e = Gates s remote refusal (initialize_once c s e).0
  Passes _ e = ⊥

  -- Some call of the run does.
  abbrev pub SomePasses : List (Operation F) → TradingEngine F → Type 0
  SomePasses [] e = ⊥
  SomePasses (op ∷ ops) e = Passes op e ⊎ SomePasses ops (perform op e)

  perform-Locked :
      (op : Operation F) (e : TradingEngine F) → Locked e → Locked (perform op e) ⊎ Passes op e
  unfolding perform
  perform-Locked (restart c s) e h = inl (start_engine-Locked c s e h)
  perform-Locked (round r p) e h = inl (run_once-Locked r p e h)
  perform-Locked (stop c reason) e h = inl (emergency_stop-Locked c reason e h)
  perform-Locked (reduction c reason) e h = inl (enter_reduce_only-Locked c reason e h)
  perform-Locked (recovery c s remote refusal) e h =
      clear_kill_switch_after_reconcile-Gates c s remote refusal e h

  -- When the kill switch is set and the mode is not RUNNING, in memory and on the disk, then this is
  -- still so after every run of restarts, rounds with whatever events and errors, stops, reductions
  -- and recoveries, or some recovery of the run passed every gate.
  pub perform_all-Locked :
      (ops : List (Operation F)) (e : TradingEngine F)
      → Locked e
      → Locked (perform_all ops e) ⊎ SomePasses ops e
  unfolding perform_all
  perform_all-Locked [] e h = inl h
  perform_all-Locked (op ∷ ops) e h = elim (perform-Locked op e h) [
    | inr passes ↦ inr (inl passes)
    | inl locked ↦ elim (perform_all-Locked ops (perform op e) locked) [
      | inl still ↦ inl still
      | inr passes ↦ inr (inr passes)
    ]
  ]

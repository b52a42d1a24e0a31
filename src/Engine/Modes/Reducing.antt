-- ===== src/Engine/Modes/Reducing.antt =====
-- About the audit of the pairs and the mode that only reduces.
use afuture.Prelude.{
  String, Bool, true, false, ◌≡◌, refl, ◌∙◌, Option, none, some, List, inl, inr, Bool-cases, known,
  arith,
}
use afuture.Float.{FloatOps}
use afuture.Dict.{Dict, lookup, string_eq}
use afuture.Engine.Modes.{
  RuntimeMode, reduce_only, TradingEngine, Calls, Done, is_halted, is_running, is_reduce_only,
  then_do, persist, alert_and_persist, count, set_reduce_only, cancel_listed, cancel_active,
  enter_reduce_only,
}
use afuture.Engine.Modes.Checks.{first_seen, audit_pairs, audit_verdict, audit_pair_balance}
use afuture.Engine.Modes.Audited.{once, unbalanced, audit_pairs-finds}

-- The engine only reduces, and its kill switch is set.
pub record Reduces {F : Type 0} (e : TradingEngine F) : Type 0 where
  pub mode : e.state.runtime_mode ≡ reduce_only
  pub kill_switch : e.state.kill_switch ≡ true

module _ {F : Type 0} where
  persist-Reduces : (c : Calls) (e : TradingEngine F) → Reduces e → Reduces (persist c e).0
  persist-Reduces c e h = elim (Bool-cases (c.saves e.calls_made)) [
    | inl saves ↦ rw saves (record { mode = h.mode; kill_switch = h.kill_switch })
    | inr fails ↦ rw fails (record { mode = h.mode; kill_switch = h.kill_switch })
  ]

  alert_and_persist-Reduces :
      (c : Calls) (e : TradingEngine F) → Reduces e → Reduces (alert_and_persist c e).0
  alert_and_persist-Reduces c e h = elim (Bool-cases (c.alerts e.calls_made)) [
    | inl sent ↦
        rw sent
          (persist-Reduces c (count 1 e) (record { mode = h.mode; kill_switch = h.kill_switch }))
    | inr silent ↦ rw silent (record { mode = h.mode; kill_switch = h.kill_switch })
  ]

  then_persist-Reduces :
      (c : Calls) (d : Done F (Unit {0}))
      → Reduces d.0
      → Reduces (then_do d (λ _. alert_and_persist c)).0
  then_persist-Reduces c (e, some u) h = alert_and_persist-Reduces c e h
  then_persist-Reduces c (e, none) h = h

  cancel_listed-Reduces :
      (c : Calls) (listed : Option (List String)) (e : TradingEngine F)
      → Reduces e
      → Reduces (cancel_listed c listed e).0
  cancel_listed-Reduces c none e h = h
  cancel_listed-Reduces c (some ids) e h = record { mode = h.mode; kill_switch = h.kill_switch }

  enter_reduce_only-Reduces :
      (c : Calls) (reason : String) (e : TradingEngine F)
      → is_halted e.state.runtime_mode ≡ false
      → Reduces (enter_reduce_only c reason e).0
  unfolding enter_reduce_only
  enter_reduce_only-Reduces c reason e h = rw h (
      then_persist-Reduces c (cancel_active c (set_reduce_only reason e)) (
        cancel_listed-Reduces c (c.active_orders e.calls_made) (count 1 (set_reduce_only reason e))
          (record { mode = refl; kill_switch = refl })))

  audit_verdict-Reduces :
      (c : Calls) (verdict : Dict String F × Option String) (e : TradingEngine F)
      → is_halted e.state.runtime_mode ≡ false
      → known verdict.1 ≡ true
      → Reduces (audit_verdict c verdict e).0
  audit_verdict-Reduces c (since, none) e h k = cc
  audit_verdict-Reduces c (since, some id) e h k = enter_reduce_only-Reduces c _ _ h

running_not_halted :
    (m : RuntimeMode) → is_running m ≡ true → (is_halted m ≡ false) × (is_reduce_only m ≡ false)
running_not_halted m h = ground arith

not_running :
    {F : Type 0} (e : TradingEngine F) → Reduces e → is_running e.state.runtime_mode ≡ true → ⊥
not_running e h runs = ground (arith, h.mode, runs)

-- An audit that found no pair overdue.
record Quiet {F : Type 0} (verdict : Dict String F × Option String) (e after : TradingEngine F)
    : Type 0 where
  quiet : verdict.1 ≡ none
  since : after.imbalance_since ≡ verdict.0
  stopped : after.stopped ≡ e.stopped

audit_verdict-Quiet :
    {F : Type 0} (c : Calls) (verdict : Dict String F × Option String) (e : TradingEngine F)
    → is_halted e.state.runtime_mode ≡ false
    → is_running (audit_verdict c verdict e).0.state.runtime_mode ≡ true
    → Quiet verdict e (audit_verdict c verdict e).0
audit_verdict-Quiet c (since, none) e h runs = record { quiet = refl; since = refl; stopped = refl }
audit_verdict-Quiet c (since, some id) e h runs =
    elim (not_running _ (audit_verdict-Reduces c (since, some id) e h refl) runs) [ ]

module _ {F : Type 0} ⦃fl : FloatOps F⦄ where
  audits :
      (c : Calls) (now timeout : F) (pairs : List (String × Bool)) (e : TradingEngine F)
      → e.stopped ≡ false
      → is_running e.state.runtime_mode ≡ true
      → audit_pair_balance c now timeout pairs e
        ≡ audit_verdict c (audit_pairs now timeout pairs e.imbalance_since) e
  unfolding audit_pair_balance
  audits c now timeout pairs e going runs =
      rw (going, (running_not_halted e.state.runtime_mode runs).1) refl

  -- A pair that stays unbalanced ends the normal mode: when an engine that runs audits its pairs twice
  -- and still runs after the first audit, a pair that both audits see unbalanced makes the second one
  -- enter the mode that only reduces, with the kill switch set, if the timeout has passed since the
  -- pair was first seen unbalanced. This is so also when the broker or the store raise.
  pub audit_pair_balance-Reduces :
      (c d : Calls) (now later timeout : F) (id : String) (pairs next : List (String × Bool))
      (e : TradingEngine F)
      → e.stopped ≡ false
      → is_running e.state.runtime_mode ≡ true
      → is_running (audit_pair_balance c now timeout pairs e).0.state.runtime_mode ≡ true
      → once id pairs ≡ true
      → unbalanced id pairs ≡ true
      → unbalanced id next ≡ true
      → fl.le timeout (fl.sub later (first_seen now (lookup id e.imbalance_since))) ≡ true
      → Reduces
          (audit_pair_balance d later timeout next (audit_pair_balance c now timeout pairs e).0).0
  audit_pair_balance-Reduces c d now later timeout id pairs next e going runs runs_on one u still
        late =
      let first = audits c now timeout pairs e going runs in
      let after = (audit_verdict c (audit_pairs now timeout pairs e.imbalance_since) e).0 in
      let on : is_running after.state.runtime_mode ≡ true = rw first at (runs_on) in
      let calm =
        audit_verdict-Quiet c (audit_pairs now timeout pairs e.imbalance_since) e
          (running_not_halted e.state.runtime_mode runs).0 on in
      rw (first, audits d later timeout next after (calm.stopped ∙ going) on)
        (audit_verdict-Reduces d (audit_pairs later timeout next after.imbalance_since) after
          (running_not_halted after.state.runtime_mode on).0
          (rw calm.since (
            audit_pairs-finds now later timeout id pairs next e.imbalance_since one u calm.quiet
              still late)))

-- ===== src/Engine/Modes/Checks.antt =====
-- engine.py: the checks of `TradingEngine` on its positions: the mode that only reduces, the snapshot of
-- the broker, and the audit of the pairs.
use afuture.Prelude.{
  String, Bool, true, not, ◌&&◌, ◌||◌, Option, none, some, List, [], ◌∷◌, all, if◌then◌else◌,
}
use afuture.Prelude.Text.{str_eq, str_append}
use afuture.Float.{FloatOps}
use afuture.Dict.{Dict, lookup, insert, string_eq}
use afuture.Models.{ContractPosition}
use afuture.Reconcile.{compare_positions}
use afuture.Engine.Modes.{
  TradingEngine, Calls, Done, halted, is_reduce_only, done, persist, emergency_stop,
  enter_reduce_only,
}

-- A pair in `_reduce_only_cycle`: balanced or not when the loop reaches it, the quotes of both legs
-- known, the exception that the repair raised, and balanced or not after the loop.
pub record PairRepair : Type 0 where
  pub balanced : Bool
  pub quoted : Bool
  pub failure : Option String
  pub balanced_after : Bool

-- f"{self.state.reduce_reason}; repair failed: {exc}"
abbrev pub note_failure : Option String → String → String
note_failure none reason = reason
note_failure (some failure) reason = str_append reason (str_append "; repair failed: " failure)

-- The loop over the pairs in `_reduce_only_cycle`, on the reason so far.
abbrev pub repair_pairs : Bool → List PairRepair → String → String
repair_pairs flatten [] reason = reason
repair_pairs flatten (p ∷ ps) reason =
    repair_pairs flatten ps
      (if not p.balanced && flatten && p.quoted then note_failure p.failure reason else reason)

-- `self.state.reduce_reason or "..."`
abbrev pub reason_or_default : String → String
reason_or_default reason =
    if str_eq reason "" then "reduce-only recovery completed; manual review required" else reason

-- `not any_risk or all_balanced`
abbrev pub recovered : List PairRepair → Bool
recovered pairs = all (λ p. p.balanced) pairs || all (λ p. p.balanced_after) pairs

module _ {F : Type 0} where
  abbrev pub end_reduction : TradingEngine F → TradingEngine F
  end_reduction e = record e {
    stopped = true;
    state = record (e.state) {
      runtime_mode = halted;
      kill_switch = true;
      kill_reason = reason_or_default e.state.reduce_reason;
    };
  }

  unfoldable pub reduce_only_cycle :
      Calls → Bool → List PairRepair → TradingEngine F → Done F (Unit {0})
  reduce_only_cycle c flatten pairs e =
      let repaired = record e {
        state = record (e.state) {
          reduce_reason = repair_pairs flatten pairs e.state.reduce_reason;
        };
      } in
      if recovered pairs then persist c (end_reduction repaired) else done tt repaired

  -- `_reconcile_runtime_snapshot`; `none` is a payload that is no list of positions.
  unfoldable pub reconcile_runtime_snapshot :
      Calls → Option (List (ContractPosition F)) → TradingEngine F → Done F (Unit {0})
  reconcile_runtime_snapshot c none e =
      if e.stopped
      then done tt e
      else emergency_stop c "invalid position snapshot received from broker" e
  reconcile_runtime_snapshot c (some remote) e =
      if e.stopped
      then done tt e
      else if not (compare_positions e.state.positions remote)
      then emergency_stop c "runtime position drift detected" e
      else persist c
          (record e { state = record (e.state) { positions = remote; reconciled = true } })

-- `self._imbalance_since.pop(pair_id, None)`
abbrev pub forget_pair : {F : Type 0} → String → Dict String F → Dict String F
forget_pair id [] = []
forget_pair id ((other, since) ∷ d) =
    let rest = forget_pair id d in if str_eq other id then rest else (other, since) ∷ rest

-- `setdefault(pair_id, now)`: the time that is found, and the table after it.
abbrev pub first_seen : {F : Type 0} → F → Option F → F
first_seen now none = now
first_seen now (some since) = since

module _ {F : Type 0} where
  -- The end of `_audit_pair_balance`, for the result of its loop.
  abbrev pub audit_verdict :
      Calls → Dict String F × Option String → TradingEngine F → Done F (Unit {0})
  audit_verdict c (since, none) e = done tt (record e { imbalance_since = since })
  audit_verdict c (since, some id) e =
      enter_reduce_only c (str_append "pair imbalance detected: " id)
        (record e { imbalance_since = since })

module _ {F : Type 0} ⦃fl : FloatOps F⦄ where
  -- The loop of `_audit_pair_balance` over the pairs and whether each is balanced: the table after
  -- it, and the pair that has been unbalanced for too long.
  unfoldable pub audit_pairs :
      F → F → List (String × Bool) → Dict String F → Dict String F × Option String
  audit_pairs now timeout [] since = (since, none)
  audit_pairs now timeout ((id, balanced) ∷ pairs) since =
      let seen = first_seen now (lookup id since) in
      let calm = audit_pairs now timeout pairs (forget_pair id since) in
      let waiting = audit_pairs now timeout pairs (insert id seen since) in
      if balanced
      then calm
      else if fl.le timeout (fl.sub now seen)
      then (insert id seen since, some id)
      else waiting

  unfoldable pub audit_pair_balance :
      Calls → F → F → List (String × Bool) → TradingEngine F → Done F (Unit {0})
  audit_pair_balance c now timeout pairs e =
      if e.stopped || is_reduce_only e.state.runtime_mode
      then done tt e
      else audit_verdict c (audit_pairs now timeout pairs e.imbalance_since) e

-- ===== src/Risk/Watermark.antt =====
-- The equity high watermark of `RiskManager`, over sequences of its calls.
use afuture.Prelude.{
  String, Bool, true, false, ◌&&◌, ◌≡◌, inl, inr, Bool-cases, Option, none, some, List, [], ◌∷◌,
  Result, ok, err, if◌then◌else◌,
}
use afuture.Float.{FloatOps, FloatOrder, fzero, fmax, fmax-keeps}
use afuture.Models.{Error, AccountSnapshot, bad_snapshot}
use afuture.Risk.Manager.{
  RiskManager, or_value, bad_equity, restore_high_watermark, set_day_start_equity, new_day, judge,
  judge_started, check_account,
}

-- A call that may change the watermark.
pub data RiskCall (F : Type 0) : Type 0 where
  restore_call : F → RiskCall F
  day_call : F → String → RiskCall F
  account_call : AccountSnapshot F → RiskCall F

module _ {F : Type 0} ⦃fl : FloatOps F⦄ where
  unfoldable pub risk_call : RiskCall F → RiskManager F → RiskManager F
  risk_call (restore_call equity) m = restore_high_watermark equity m
  risk_call (day_call equity day) m = (set_day_start_equity equity day m).1
  risk_call (account_call a) m = (check_account a m).1

  unfoldable pub risk_calls : List (RiskCall F) → RiskManager F → RiskManager F
  risk_calls [] m = m
  risk_calls (c ∷ cs) m = risk_calls cs (risk_call c m)

  -- The watermark is there, and is not below the equity.
  abbrev pub AtLeast : F → Option F → Type 0
  AtLeast x none = ⊥
  AtLeast x (some w) = fl.lt w x ≡ false

module _ {F : Type 0} ⦃fl : FloatOps F⦄ (order : FloatOrder F fl) (x : F)
    (positive : fl.lt fzero x ≡ true) where
  or_value-AtLeast : (o : Option F) (d : F) → AtLeast x o → fl.lt (or_value o d) x ≡ false
  or_value-AtLeast none d h = absurd h
  or_value-AtLeast (some w) d h = elim (Bool-cases (fl.eq w fzero)) [
    | inl zero ↦ cc (order.eq_lt w fzero x zero positive)
    | inr other ↦ rw other h
  ]

  raise-AtLeast : (o : Option F) (d e : F) → AtLeast x o → AtLeast x (some (fmax (or_value o d) e))
  raise-AtLeast o d e h = fmax-keeps order x (or_value o d) e (or_value-AtLeast o d h)

  restore-AtLeast :
      (e : F) (m : RiskManager F)
      → AtLeast x m.high_watermark
      → AtLeast x (restore_high_watermark e m).high_watermark
  unfolding restore_high_watermark
  restore-AtLeast e m h = elim (Bool-cases (fl.is_finite e && fl.lt fzero e)) [
    | inl good ↦ rw good (raise-AtLeast m.high_watermark fzero e h)
    | inr bad ↦ rw bad h
  ]

  set_day-AtLeast :
      (e : F) (day : String) (m : RiskManager F)
      → AtLeast x m.high_watermark
      → AtLeast x (set_day_start_equity e day m).1.high_watermark
  unfolding set_day_start_equity
  set_day-AtLeast e day m h = elim (Bool-cases (bad_equity e)) [
    | inl bad ↦ rw bad h
    | inr good ↦ rw good (raise-AtLeast m.high_watermark e e h)
  ]

  judge-AtLeast :
      (a : AccountSnapshot F) (m : RiskManager F) (start : Option F)
      → AtLeast x m.high_watermark
      → AtLeast x (judge a m start).1.high_watermark
  judge-AtLeast a m none h = h
  judge-AtLeast a m (some s) h = raise-AtLeast m.high_watermark a.equity a.equity h

  judge_started-AtLeast :
      (a : AccountSnapshot F) (r : Result Error (Unit {0}) × RiskManager F)
      → AtLeast x r.1.high_watermark
      → AtLeast x (judge_started a r).1.high_watermark
  judge_started-AtLeast a (err e, m) h = h
  judge_started-AtLeast a (ok _, m) h = judge-AtLeast a m m.day_start_equity h

  started-AtLeast :
      (a : AccountSnapshot F) (m : RiskManager F) (b : Bool)
      → AtLeast x m.high_watermark
      → AtLeast x
          (if b then set_day_start_equity a.equity a.trading_day m else (ok tt, m)).1.high_watermark
  started-AtLeast a m true h = set_day-AtLeast a.equity a.trading_day m h
  started-AtLeast a m false h = h

  pub check_account-AtLeast :
      (a : AccountSnapshot F) (m : RiskManager F)
      → AtLeast x m.high_watermark
      → AtLeast x (check_account a m).1.high_watermark
  unfolding check_account
  check_account-AtLeast a m h = elim (Bool-cases (bad_snapshot a)) [
    | inl bad ↦ rw bad h
    | inr good ↦ rw good (judge_started-AtLeast a _ (started-AtLeast a m (new_day a m) h))
  ]

  pub risk_calls-AtLeast :
      (cs : List (RiskCall F)) (m : RiskManager F)
      → AtLeast x m.high_watermark
      → AtLeast x (risk_calls cs m).high_watermark
  unfolding risk_calls risk_call
  risk_calls-AtLeast [] m h = h
  risk_calls-AtLeast (restore_call e ∷ cs) m h = risk_calls-AtLeast cs _ (restore-AtLeast e m h)
  risk_calls-AtLeast (day_call e day ∷ cs) m h = risk_calls-AtLeast cs _ (set_day-AtLeast e day m h)
  risk_calls-AtLeast (account_call a ∷ cs) m h =
      risk_calls-AtLeast cs _ (check_account-AtLeast a m h)

-- ===== src/Risk/Drawdown.antt =====
-- What an allowed account has passed in `RiskManager.check_account`.
use afuture.Prelude.{
  true, false, ◌≡◌, refl, inl, inr, Bool-cases, arith, Option, none, some, List, Result, ok, err,
  known,
}
use afuture.Prelude.Text.{str_eq_iff}
use afuture.Float.{FloatOps, FloatOrder, fzero, fmax, fmax-right}
use afuture.Models.{Error, AccountSnapshot, bad_snapshot, RiskDecision}
use afuture.Risk.Config.{RiskConfig}
use afuture.Risk.Manager.{
  RiskManager, or_value, bad_equity, raise_watermark, set_day_start_equity, new_day, loss,
  judge_account, judge, check_account,
}
use afuture.Risk.Watermark.{
  RiskCall, risk_calls, AtLeast, risk_calls-AtLeast, check_account-AtLeast,
}

-- A check that returned, and allowed.
abbrev pub Allowed : Result Error RiskDecision → Type 0
Allowed (ok d) = d.allowed ≡ true
Allowed (err e) = ⊥

module _ {F : Type 0} ⦃fl : FloatOps F⦄ where
  -- The account is inside every limit, measured from the start of the day and from the watermark
  -- that the manager holds.
  pub record WithinLimits (a : AccountSnapshot F) (m : RiskManager F) : Type 0 where
    pub start : F
    pub watermark : F
    pub started : m.day_start_equity ≡ some start
    pub kept : m.high_watermark ≡ some watermark
    pub day : m.trading_day ≡ a.trading_day
    pub peak : fl.lt watermark a.equity ≡ false
    pub daily : fl.le m.config.max_daily_loss_ratio (loss start a.equity) ≡ false
    pub drawdown : fl.le m.config.max_total_drawdown_ratio (loss watermark a.equity) ≡ false
    pub margin : fl.lt m.config.max_margin_ratio (fl.div a.margin a.equity) ≡ false
    pub available : fl.lt (fl.div a.available a.equity) m.config.min_available_ratio ≡ false

  sound_equity : (a : AccountSnapshot F) → bad_snapshot a ≡ false → bad_equity a.equity ≡ false
  unfolding bad_snapshot
  sound_equity a h = ground arith

  judge_account-limits :
      (c : RiskConfig F) (a : AccountSnapshot F) (start watermark : F)
      → (judge_account c a start watermark).allowed ≡ true
      → (fl.le c.max_daily_loss_ratio (loss start a.equity) ≡ false)
        × (fl.le c.max_total_drawdown_ratio (loss watermark a.equity) ≡ false)
        × (fl.lt c.max_margin_ratio (fl.div a.margin a.equity) ≡ false)
        × (fl.lt (fl.div a.available a.equity) c.min_available_ratio ≡ false)
  judge_account-limits c a start watermark h = ground arith

module _ {F : Type 0} ⦃fl : FloatOps F⦄ (order : FloatOrder F fl) where
  judge-WithinLimits :
      (a : AccountSnapshot F) (m : RiskManager F) (start : Option F)
      → m.day_start_equity ≡ start
      → m.trading_day ≡ a.trading_day
      → Allowed (judge a m start).0
      → WithinLimits a (judge a m start).1
  judge-WithinLimits a m none same day h = absurd h
  judge-WithinLimits a m (some s) same day h =
      let w = fmax (or_value m.high_watermark a.equity) a.equity in
      let l = judge_account-limits m.config a s w h in
      record {
        start = s;
        watermark = w;
        started = same;
        kept = refl;
        day = day;
        peak = fmax-right order (or_value m.high_watermark a.equity) a.equity;
        daily = l.0;
        drawdown = l.1;
        margin = l.2;
        available = l.3;
      }

  pub check_account-WithinLimits :
      (a : AccountSnapshot F) (m : RiskManager F)
      → Allowed (check_account a m).0
      → WithinLimits a (check_account a m).1
  unfolding check_account set_day_start_equity
  check_account-WithinLimits a m h = elim (Bool-cases (bad_snapshot a)) [
    | inl bad ↦ cc (rw bad at h)
    | inr good ↦ elim (Bool-cases (new_day a m)) [
      | inl new ↦
          rw (good, new, sound_equity a good)
            (judge-WithinLimits a
              (raise_watermark a.equity
                (record m { day_start_equity = some a.equity; trading_day = a.trading_day }))
              (some a.equity) refl refl (rw (good, new, sound_equity a good) at h))
      | inr going ↦
          rw (good, going)
            (judge-WithinLimits a m m.day_start_equity refl (same_day m a going)
              (rw (good, going) at h))
    ]
  ]
    where
      same_day :
          (m : RiskManager F) (a : AccountSnapshot F)
          → new_day a m ≡ false
          → m.trading_day ≡ a.trading_day
      same_day m a h = (str_eq_iff m.trading_day a.trading_day).0 (ground arith)

  judge-seen :
      (a : AccountSnapshot F) (m : RiskManager F) (start : Option F)
      → known start ≡ true
      → AtLeast a.equity (judge a m start).1.high_watermark
  judge-seen a m none h = cc
  judge-seen a m (some s) h = fmax-right order (or_value m.high_watermark a.equity) a.equity

  check_account-seen :
      (a : AccountSnapshot F) (m : RiskManager F)
      → bad_snapshot a ≡ false
      → AtLeast a.equity (check_account a m).1.high_watermark
  unfolding check_account set_day_start_equity
  check_account-seen a m good = elim (Bool-cases (new_day a m)) [
    | inl new ↦
        rw (good, new, sound_equity a good)
          (judge-seen a
            (raise_watermark a.equity
              (record m { day_start_equity = some a.equity; trading_day = a.trading_day }))
            (some a.equity) refl)
    | inr going ↦ rw (good, going) (judge-seen a m m.day_start_equity (begun m a going))
  ]
    where
      begun :
          (m : RiskManager F) (a : AccountSnapshot F)
          → new_day a m ≡ false
          → known m.day_start_equity ≡ true
      begun m a h = ground arith

  positive_equity : (a : AccountSnapshot F) → bad_snapshot a ≡ false → fl.lt fzero a.equity ≡ true
  positive_equity a good =
      order.finite_total a.equity fzero (ground (arith, sound_equity a good))
        (order.small_finite 0 (omega arith)) (ground (arith, sound_equity a good))

  -- Once `check_account` has seen a valid account, then after any restores, new days and further
  -- checks, an account that it allows is inside the daily loss, drawdown, margin and cash limits, and
  -- its drawdown is measured from a watermark that is not below the equity seen back then.
  pub check_account-peak :
      (seen a : AccountSnapshot F) (m : RiskManager F) (cs : List (RiskCall F))
      → bad_snapshot seen ≡ false
      → Allowed (check_account a (risk_calls cs (check_account seen m).1)).0
      → let after = (check_account a (risk_calls cs (check_account seen m).1)).1 in
        WithinLimits a after × AtLeast seen.equity after.high_watermark
  check_account-peak seen a m cs good h =
      let positive = positive_equity seen good in
      let before = risk_calls cs (check_account seen m).1 in
      (
        check_account-WithinLimits a before h,
        check_account-AtLeast order seen.equity positive a before (
            risk_calls-AtLeast order seen.equity positive cs (check_account seen m).1
              (check_account-seen seen m good)),
      )

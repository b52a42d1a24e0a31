-- ===== src/Risk/Manager.antt =====
-- The state of `RiskManager` of risk.py, and its checks of an account and of quotes.
use afuture.Prelude.{
  String, Bool, not, ◌&&◌, ◌||◌, Option, none, some, Result, ok, err, ◌>>◌, if◌then◌else◌, known,
}
use afuture.Prelude.Text.{str_eq}
use afuture.Float.{FloatOps, fzero, fmax}
use afuture.Models.{
  Error, bad_equity_value, AccountSnapshot, bad_snapshot, RiskDecision, allow_it, refuse,
}
use afuture.Risk.Config.{RiskConfig, validate_config}

pub record RiskManager (F : Type 0) : Type 0 where
  pub config : RiskConfig F
  pub day_start_equity : Option F
  pub trading_day : String
  pub high_watermark : Option F

-- `__init__`
unfoldable pub new_manager :
    {F : Type 0} ⦃fl : FloatOps F⦄ → RiskConfig F → Result Error (RiskManager F)
new_manager config =
    validate_config config
    >> ok (record {
      config = config;
      day_start_equity = none;
      trading_day = "";
      high_watermark = none;
    })

module _ {F : Type 0} ⦃fl : FloatOps F⦄ where
  -- `value or default`: None and 0.0 count as missing.
  abbrev pub or_value : Option F → F → F
  or_value none default = default
  or_value (some v) default = if fl.eq v fzero then default else v

  abbrev pub bad_equity : F → Bool
  bad_equity equity = not (fl.is_finite equity) || fl.le equity fzero

  -- `restore_high_watermark`
  unfoldable pub restore_high_watermark : F → RiskManager F → RiskManager F
  restore_high_watermark equity m =
      if fl.is_finite equity && fl.lt fzero equity
      then record m { high_watermark = some (fmax (or_value m.high_watermark fzero) equity) }
      else m

  -- `max(self._high_watermark or equity, equity)`
  abbrev pub raise_watermark : F → RiskManager F → RiskManager F
  raise_watermark equity m = record m {
    high_watermark = some (fmax (or_value m.high_watermark equity) equity);
  }

  -- `set_day_start_equity`
  unfoldable pub set_day_start_equity :
      F → String → RiskManager F → Result Error (Unit {0}) × RiskManager F
  set_day_start_equity equity day m = if bad_equity equity then (err bad_equity_value, m) else (
    ok tt,
    raise_watermark equity (record m { day_start_equity = some equity; trading_day = day }),
  )

  -- `self._day_start_equity is None or self._trading_day != account.trading_day`
  abbrev pub new_day : AccountSnapshot F → RiskManager F → Bool
  new_day a m = not (known m.day_start_equity) || not (str_eq m.trading_day a.trading_day)

  -- The share of `from` that is lost at `equity`; `from` is positive wherever this is computed.
  abbrev pub loss : F → F → F
  loss from equity = fl.div (fmax fzero (fl.sub from equity)) from

  -- The four limits, once the start of the day and the watermark are known.
  abbrev pub judge_account : RiskConfig F → AccountSnapshot F → F → F → RiskDecision
  judge_account c a start watermark =
      if fl.le c.max_daily_loss_ratio (loss start a.equity)
      then refuse "daily loss limit reached"
      else if fl.le c.max_total_drawdown_ratio (loss watermark a.equity)
      then refuse "drawdown limit reached"
      else if fl.lt c.max_margin_ratio (fl.div a.margin a.equity)
      then refuse "margin ratio limit reached"
      else if fl.lt (fl.div a.available a.equity) c.min_available_ratio
      then refuse "available cash reserve too low"
      else allow_it

  -- `assert self._day_start_equity is not None`, and what follows it.
  abbrev pub judge :
      AccountSnapshot F → RiskManager F → Option F → Result Error RiskDecision × RiskManager F
  judge a m none = (err bad_equity_value, m)
  judge a m (some start) =
      let watermark = fmax (or_value m.high_watermark a.equity) a.equity in
      (ok (judge_account m.config a start watermark), record m { high_watermark = some watermark })

  abbrev pub judge_started :
      AccountSnapshot F
      → Result Error (Unit {0}) × RiskManager F
      → Result Error RiskDecision × RiskManager F
  judge_started a (err e, m) = (err e, m)
  judge_started a (ok _, m) = judge a m m.day_start_equity

  -- `check_account`; the reason for an invalid snapshot leaves out the text of the exception.
  unfoldable pub check_account :
      AccountSnapshot F → RiskManager F → Result Error RiskDecision × RiskManager F
  unfolding set_day_start_equity
  check_account a m =
      if bad_snapshot a
      then (ok (refuse "invalid account snapshot"), m)
      else judge_started a
          (if new_day a m then set_day_start_equity a.equity a.trading_day m else (ok tt, m))

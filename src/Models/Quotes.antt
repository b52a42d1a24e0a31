-- ===== src/Models/Quotes.antt =====
-- `Tick` and `RiskDecision` of models.py.
use afuture.Prelude.{String, Bool, ◌&&◌, ◌||◌, not, Result, raise_if}
use afuture.Float.{FloatOps, fzero}
use afuture.Models.Enums.{Error, bad_quote}
use afuture.Models.Orders.{Timestamp}

pub record Tick (F : Type 0) : Type 0 where
  pub symbol : String
  pub exchange : String
  pub timestamp : Timestamp
  pub bid_price : F
  pub ask_price : F
  pub last_price : F
  pub bid_volume : F
  pub ask_volume : F
  pub trading_day : String
  pub limit_up : F
  pub limit_down : F
  pub volume : F
  pub open_interest : F
  pub open_price : F
  pub source_trading_day : String
  pub source_action_day : String
  pub source_trading_day_verified : Bool

pub record RiskDecision : Type 0 where
  pub allowed : Bool
  pub reason : String

-- `RiskDecision(True)` and `RiskDecision(False, reason)`
abbrev pub allow_it : RiskDecision
allow_it = record { allowed = Bool.true; reason = "" }

abbrev pub refuse : String → RiskDecision
refuse reason = record { allowed = Bool.false; reason = reason }

module _ {F : Type 0} ⦃fl : FloatOps F⦄ where
  abbrev not_positive : F → Bool
  not_positive v = not (fl.is_finite v) || fl.le v fzero

  abbrev is_negative : F → Bool
  is_negative v = not (fl.is_finite v) || fl.lt v fzero

  -- The truth value of a float.
  abbrev truthy : F → Bool
  truthy v = not (fl.eq v fzero)

  -- What `Tick.validate` rejects, its tests in the order of the source.
  unfoldable pub bad_tick : Tick F → Bool
  bad_tick t =
      not t.timestamp.aware
      || not_positive t.bid_price
      || not_positive t.ask_price
      || not_positive t.last_price
      || fl.lt t.ask_price t.bid_price
      || not_positive t.bid_volume
      || not_positive t.ask_volume
      || is_negative t.limit_up
      || is_negative t.limit_down
      || (truthy t.limit_up && truthy t.limit_down && fl.le t.limit_up t.limit_down)
      || is_negative t.open_price
      || is_negative t.volume
      || is_negative t.open_interest

  -- `Tick.validate`; every `raise` of it is one error here.
  unfoldable pub validate_tick : Tick F → Result Error (Unit {0})
  unfolding bad_tick
  validate_tick t = raise_if (bad_tick t) bad_quote

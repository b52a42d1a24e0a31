-- ===== src/Models/Accounts.antt =====
-- `AccountSnapshot`, `FeeSpec` and `ContractSpec` of models.py.
use afuture.Prelude.{String, Bool, ◌&&◌, ◌||◌, not, Option, none, some, Result, raise_if}
use afuture.Prelude.Int.{ℤ, pos, ltb_ℤ}
use afuture.Float.{FloatOps, fzero}
use afuture.Models.Enums.{Error, bad_account}

pub record FeeSpec (F : Type 0) : Type 0 where
  pub open_fixed : F
  pub open_rate : F
  pub close_fixed : F
  pub close_rate : F
  pub close_today_fixed : F
  pub close_today_rate : F

pub record ContractSpec (F : Type 0) : Type 0 where
  pub symbol : String
  pub exchange : String
  pub multiplier : F
  pub price_tick : F
  pub margin_rate_long : F
  pub margin_rate_short : F
  pub fee : FeeSpec F

pub record AccountSnapshot (F : Type 0) : Type 0 where
  pub balance : F
  pub equity : F
  pub available : F
  pub margin : F
  pub realized_pnl : F
  pub unrealized_pnl : F
  pub trading_day : String
  pub deposit : F
  pub withdrawal : F
  pub cash_flow_verified : Bool
  pub previous_settlement_equity : Option F
  pub settlement_verified : Bool
  pub settlement_id : Option ℤ

abbrev is_none : {A : Type 0} → Option A → Bool
is_none none = Bool.true
is_none (some _) = Bool.false

abbrev bad_settlement_id : Option ℤ → Bool
bad_settlement_id none = Bool.false
bad_settlement_id (some v) = ltb_ℤ v (pos 0)

module _ {F : Type 0} ⦃fl : FloatOps F⦄ where
  -- `previous is not None and (not isfinite(previous) or previous <= 0)`
  abbrev bad_settlement_equity : Option F → Bool
  bad_settlement_equity none = Bool.false
  bad_settlement_equity (some v) = not (fl.is_finite v) || fl.le v fzero

  -- What `AccountSnapshot.validate` rejects, its tests in the order of the source.
  unfoldable pub bad_snapshot : AccountSnapshot F → Bool
  bad_snapshot a =
      not (fl.is_finite a.balance)
      || not (fl.is_finite a.equity)
      || not (fl.is_finite a.available)
      || not (fl.is_finite a.margin)
      || not (fl.is_finite a.realized_pnl)
      || not (fl.is_finite a.unrealized_pnl)
      || not (fl.is_finite a.deposit)
      || not (fl.is_finite a.withdrawal)
      || fl.le a.balance fzero
      || fl.le a.equity fzero
      || fl.lt a.available fzero
      || fl.lt a.margin fzero
      || fl.lt a.deposit fzero
      || fl.lt a.withdrawal fzero
      || bad_settlement_equity a.previous_settlement_equity
      || (a.settlement_verified && is_none a.previous_settlement_equity)
      || bad_settlement_id a.settlement_id
      || (a.settlement_verified && is_none a.settlement_id)

  -- `AccountSnapshot.validate`; every `raise` of it is one error here.
  unfoldable pub validate_account : AccountSnapshot F → Result Error (Unit {0})
  unfolding bad_snapshot
  validate_account a = raise_if (bad_snapshot a) bad_account

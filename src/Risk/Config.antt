-- ===== src/Risk/Config.antt =====
-- `RiskConfig` of risk.py and its validation.
use afuture.Prelude.{Bool, not, ◌||◌, [], ◌∷◌, any, Result, raise_if, ◌>>◌}
use afuture.Prelude.Int.{ℤ, pos, leb_ℤ, ltb_ℤ}
use afuture.Float.{FloatOps, fzero}
use afuture.Models.{Error, bad_limit}

pub record RiskConfig (F : Type 0) : Type 0 where
  pub max_margin_ratio : F
  pub max_daily_loss_ratio : F
  pub max_total_drawdown_ratio : F
  pub max_open_pairs : ℤ
  pub max_contract_volume : ℤ
  pub max_quote_age_seconds : F
  pub max_leg_skew_seconds : F
  pub expiry_blackout_days : ℤ
  pub min_available_ratio : F
  pub margin_estimate_buffer : F
  pub max_orders_per_minute : ℤ
  pub min_depth_multiple : F
  pub max_bid_ask_ticks : F
  pub limit_distance_ticks : F
  pub risk_budget_ratio : F
  pub risk_sigma_multiplier : F
  pub open_cooldown_minutes : ℤ
  pub close_blackout_minutes : ℤ

module _ {F : Type 0} ⦃fl : FloatOps F⦄ where
  abbrev one : F
  one = fl.of_int (pos 1)

  abbrev not_a_ratio : F → Bool
  not_a_ratio v = fl.le v fzero || fl.le one v

  -- `RiskConfig.validate`. The fields that `require_integer` tests are integers here.
  unfoldable pub validate_config : RiskConfig F → Result Error (Unit {0})
  validate_config c = do
    raise_if
        (any (λ v. not (fl.is_finite v))
          (c.max_margin_ratio ∷ c.max_daily_loss_ratio ∷ c.max_total_drawdown_ratio
            ∷ c.max_quote_age_seconds ∷ c.max_leg_skew_seconds ∷ c.min_available_ratio
            ∷ c.margin_estimate_buffer ∷ c.min_depth_multiple ∷ c.max_bid_ask_ticks
            ∷ c.limit_distance_ticks ∷ c.risk_budget_ratio ∷ c.risk_sigma_multiplier ∷ []))
        bad_limit
    raise_if
        (any not_a_ratio (
          c.max_margin_ratio ∷ c.max_daily_loss_ratio ∷ c.max_total_drawdown_ratio
          ∷ c.min_available_ratio ∷ c.risk_budget_ratio ∷ []))
        bad_limit
    raise_if (fl.lt c.margin_estimate_buffer one) bad_limit
    raise_if (fl.lt c.min_depth_multiple one) bad_limit
    raise_if (fl.lt c.risk_sigma_multiplier one) bad_limit
    raise_if (leb_ℤ c.max_open_pairs (pos 0) || leb_ℤ c.max_contract_volume (pos 0)) bad_limit
    raise_if (fl.le c.max_quote_age_seconds fzero) bad_limit
    raise_if (fl.le c.max_leg_skew_seconds fzero) bad_limit
    raise_if (leb_ℤ c.max_orders_per_minute (pos 0)) bad_limit
    raise_if (ltb_ℤ c.expiry_blackout_days (pos 0)) bad_limit
    raise_if (fl.le c.max_bid_ask_ticks fzero) bad_limit
    raise_if (fl.lt c.limit_distance_ticks fzero) bad_limit
    raise_if (ltb_ℤ c.open_cooldown_minutes (pos 0)) bad_limit
    raise_if (ltb_ℤ c.close_blackout_minutes (pos 0)) bad_limit

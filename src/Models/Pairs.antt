-- ===== src/Models/Pairs.antt =====
-- `PairConfig` of models.py.
use afuture.Prelude.{ℕ, String, Bool, List}
use afuture.Prelude.Int.{ℤ}

-- A trading session "HH:MM-HH:MM", as its two times.
pub record SessionWindow : Type 0 where
  pub start_hour : ℕ
  pub start_minute : ℕ
  pub end_hour : ℕ
  pub end_minute : ℕ

pub record PairConfig (F : Type 0) : Type 0 where
  pub pair_id : String
  pub near_symbol : String
  pub far_symbol : String
  pub exchange : String
  pub volume : ℤ
  pub lookback : ℤ
  pub entry_z : F
  pub exit_z : F
  pub stop_z : F
  pub sample_seconds : ℤ
  pub expiry_near : String
  pub expiry_far : String
  pub max_holding_samples : ℤ
  pub structural_mean_shift_z : F
  pub structural_vol_ratio : F
  pub min_net_edge : F
  pub legging_buffer : F
  pub risk_group : String
  pub session_windows : List SessionWindow
  pub signal_transform : String
  pub confirm_entry : Bool
  pub confirmation_retrace_z : F
  pub min_confirmed_entry_z : F
  pub entry_trend_window : ℤ
  pub max_entry_z_slope : F
  pub min_mean_reversion_score : F
  pub max_half_life : F
  pub daily_sample_window : String

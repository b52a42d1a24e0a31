-- ===== src/Tests/Risks.antt =====
-- The limits of risk.py on concrete accounts, quotes and orders.
use afuture.Prelude.{String, ◌≡◌, refl, true, false, none, some, List, [], ◌∷◌, arith, ◌⊎◌}
use afuture.Prelude.Int.{ℤ, pos, ◌+ℤ◌, ◌-ℤ◌, ◌*ℤ◌, ◌<ℤ◌, ◌≤ℤ◌}
use afuture.Dict.{Dict, lookup, insert}
use afuture.Models.{
  buy, sell, opening, limit, OrderRequest, AccountSnapshot, PairConfig, bad_snapshot, bad_tick,
  SessionWindow, Timestamp, long_spread, Tick, ContractSpec,
}
use afuture.Risk.Limiter.{OrderRateLimiter, new_limiter, allow, drop_expired}
use afuture.Risk.Rates.{allow_all, decide_all, allow_all-eq-decide_all}
use afuture.Risk.Config.{RiskConfig}
use afuture.Risk.Manager.{RiskManager, check_account, set_day_start_equity, restore_high_watermark}
use afuture.Risk.Watermark.{RiskCall, restore_call, day_call, risk_calls, risk_call, AtLeast}
use afuture.Risk.Drawdown.{WithinLimits, check_account-peak}
use afuture.Risk.Sizing.{size_pair, risk_lots, depth_lots, Capped, size_pair-Capped}
use afuture.Risk.Batch.{check_open_batch, check_open_orders, check_orders}
use afuture.Risk.Opening.{BatchWithin, check_open_batch-Safe}
use afuture.Risk.Sessions.{
  LocalTime, inside_window, inside_sessions, inside_open_close_buffer, inside_sessions-buffer,
}
use afuture.Risk.Entry.{check_quotes, check_market_entry, check_contract_entry}
use afuture.Risk.Legs.{opens_long, check_market_entry-legs}
use afuture.Tests.Numbers.{whole, whole_order}
use afuture.Tests.Sims.{rebar, quote, asked}

abbrev limiter : OrderRateLimiter ℤ
limiter = record { max_orders_per_minute = pos 2; timestamps = [] }

abbrev times : List ℤ
times = pos 100 ∷ pos 110 ∷ pos 120 ∷ pos 165 ∷ pos 169 ∷ pos 170 ∷ []

times_run : allow_all limiter times ≡ true ∷ true ∷ false ∷ true ∷ false ∷ true ∷ []
unfolding allow_all allow drop_expired ◌-ℤ◌
times_run = refl

allow_all-eq-decide_all_example : allow_all limiter times ≡ decide_all (pos 2) [] times
unfolding new_limiter
allow_all-eq-decide_all_example = allow_all-eq-decide_all whole_order (pos 2) limiter times refl (
  (refl, (refl, (refl, (refl, (refl, tt))))),
  (
    (refl, (refl, (refl, (refl, tt)))),
    ((refl, (refl, (refl, tt))), ((refl, (refl, tt)), ((refl, tt), (tt, tt)))),
  ),
)

abbrev limits : RiskConfig ℤ
limits = record {
  max_margin_ratio = pos 0;
  max_daily_loss_ratio = pos 1;
  max_total_drawdown_ratio = pos 1;
  max_open_pairs = pos 3;
  max_contract_volume = pos 10;
  max_quote_age_seconds = pos 10;
  max_leg_skew_seconds = pos 2;
  expiry_blackout_days = pos 5;
  min_available_ratio = pos 0;
  margin_estimate_buffer = pos 1;
  max_orders_per_minute = pos 20;
  min_depth_multiple = pos 2;
  max_bid_ask_ticks = pos 4;
  limit_distance_ticks = pos 3;
  risk_budget_ratio = pos 1;
  risk_sigma_multiplier = pos 2;
  open_cooldown_minutes = pos 0;
  close_blackout_minutes = pos 0;
}

abbrev manager : RiskManager ℤ
manager = record {
  config = limits;
  day_start_equity = none;
  trading_day = "";
  high_watermark = none;
}

abbrev account : ℤ → AccountSnapshot ℤ
account equity = record {
  balance = equity;
  equity = equity;
  available = equity;
  margin = pos 0;
  realized_pnl = pos 0;
  unrealized_pnl = pos 0;
  trading_day = "20240105";
  deposit = pos 0;
  withdrawal = pos 0;
  cash_flow_verified = true;
  previous_settlement_equity = some equity;
  settlement_verified = true;
  settlement_id = some (pos 1);
}

-- A restart that restores a lower watermark, and a new day, between two checks.
abbrev between : List (RiskCall ℤ)
between = restore_call (pos 50) ∷ day_call (pos 90) "20240108" ∷ []

check_account-peak_example :
    let after =
      (check_account
        (account (pos 95))
        (risk_calls between (check_account (account (pos 100)) manager).1)).1 in
    WithinLimits (account (pos 95)) after × AtLeast (pos 100) after.high_watermark
unfolding bad_snapshot check_account risk_calls risk_call restore_high_watermark
    set_day_start_equity ◌-ℤ◌
check_account-peak_example =
    check_account-peak whole_order (account (pos 100)) (account (pos 95)) manager between refl refl

abbrev pub pair : PairConfig ℤ
pair = record {
  pair_id = "rb";
  near_symbol = "rb2501";
  far_symbol = "rb2501";
  exchange = "SHFE";
  volume = pos 4;
  lookback = pos 60;
  entry_z = pos 2;
  exit_z = pos 1;
  stop_z = pos 4;
  sample_seconds = pos 0;
  expiry_near = "";
  expiry_far = "";
  max_holding_samples = pos 120;
  structural_mean_shift_z = pos 3;
  structural_vol_ratio = pos 3;
  min_net_edge = pos 0;
  legging_buffer = pos 0;
  risk_group = "";
  session_windows = [];
  signal_transform = "spread";
  confirm_entry = false;
  confirmation_retrace_z = pos 0;
  min_confirmed_entry_z = pos 0;
  entry_trend_window = pos 6;
  max_entry_z_slope = pos 999;
  min_mean_reversion_score = pos 0;
  max_half_life = pos 999;
  daily_sample_window = "";
}

size_pair-Capped_example :
    (pos 0 ≤ℤ pos 2)
    × ((pos 2 ≤ℤ pos 0)
        ⊎ Capped limits
            (account (pos 1000))
            pair
            (("rb2501", rebar) ∷ [])
            quote
            quote
            (pos 1)
            (pos 2))
unfolding size_pair risk_lots depth_lots lookup ◌*ℤ◌
size_pair-Capped_example =
    size_pair-Capped whole_order limits (account (pos 1000)) pair (("rb2501", rebar) ∷ []) quote
      quote (pos 1) (pos 2) refl

-- Two orders that open one contract; three lots are held.
abbrev batch : List (OrderRequest ℤ)
batch = asked buy opening limit (pos 2) (pos 100) ∷ asked sell opening limit (pos 5) (pos 99) ∷ []

check_open_batch-Safe_example :
    let after =
      (check_open_batch
        (pos 1)
        (account (pos 100000))
        batch
        (("rb2501", rebar) ∷ [])
        (("rb2501", pos 3) ∷ [])
        manager).1 in
    (pos 1 <ℤ after.config.max_open_pairs)
    × (after.config ≡ limits)
    × WithinLimits (account (pos 100000)) after
    × BatchWithin after.config
        (("rb2501", rebar) ∷ [])
        (("rb2501", pos 3) ∷ [])
        (account (pos 100000))
        batch
unfolding check_open_batch check_open_orders check_orders check_account bad_snapshot
    set_day_start_equity lookup insert ◌+ℤ◌ ◌-ℤ◌ ◌*ℤ◌
check_open_batch-Safe_example =
    check_open_batch-Safe whole_order (pos 1) (account (pos 100000)) batch (("rb2501", rebar) ∷ [])
      (("rb2501", pos 3) ∷ []) manager refl

-- The day session and the night session that crosses midnight.
abbrev sessions : List SessionWindow
sessions =
    record { start_hour = 9; start_minute = 0; end_hour = 15; end_minute = 0 }
    ∷ record { start_hour = 21; start_minute = 0; end_hour = 2; end_minute = 30 }
    ∷ []

abbrev past_midnight : LocalTime
past_midnight = record { hour = 2; minute = 29; second = 59; microsecond = 0 }

inside_sessions-buffer_example : inside_open_close_buffer 0 0 149 sessions ≡ true
unfolding inside_sessions inside_window
inside_sessions-buffer_example =
    inside_sessions-buffer past_midnight sessions
      (record {
        hour = omega arith;
        minute = omega arith;
        second = omega arith;
        microsecond = omega arith;
      })
      (omega arith, (omega arith, tt)) refl

abbrev noon : Timestamp → LocalTime
noon t = record { hour = 10; minute = 0; second = 0; microsecond = 0 }

-- Two contracts of one instant, in the night session.
abbrev far_quote : Tick ℤ
far_quote = record quote { symbol = "rb2505" }

abbrev night_pair : PairConfig ℤ
night_pair = record pair { far_symbol = "rb2505"; session_windows = sessions }

abbrev contracts : Dict String (ContractSpec ℤ)
contracts = ("rb2501", rebar) ∷ ("rb2505", record rebar { symbol = "rb2505" }) ∷ []

check_market_entry-legs_example :
    ((check_contract_entry noon limits quote buy (pos 2) rebar sessions).allowed ≡ true)
    × ((check_contract_entry noon limits far_quote sell
          (pos 2)
          (record rebar { symbol = "rb2505" })
          sessions).allowed
        ≡ true)
unfolding check_market_entry check_quotes bad_tick lookup ◌-ℤ◌ ◌*ℤ◌ inside_sessions inside_window
    inside_open_close_buffer
check_market_entry-legs_example =
    check_market_entry-legs whole_order noon limits night_pair quote far_quote long_spread buy sell
      (pos 2) contracts rebar (record rebar { symbol = "rb2505" }) opens_long refl refl refl refl
      refl refl

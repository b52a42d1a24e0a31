-- ===== src/Risk/Entry.antt =====
-- `check_quotes`, `check_market_entry` and `check_contract_entry` of risk.py.
use afuture.Prelude.{
  String, Bool, not, ◌&&◌, ◌||◌, Option, none, some, List, [], ◌∷◌, all, map, if◌then◌else◌,
}
use afuture.Prelude.Int.{ℤ, pos, negsuc, ◌-ℤ◌, leb_ℤ, ltb_ℤ, min_ℤ, max_ℤ, pos_part}
use afuture.Prelude.Text.{str_eq}
use afuture.Dict.{Dict, string_eq, lookup}
use afuture.Float.{FloatOps, fzero, fmin}
use afuture.Models.{
  OrderSide, buy, sell, SignalAction, long_spread, short_spread, Timestamp, Tick, bad_tick,
  ContractSpec, PairConfig, SessionWindow, RiskDecision, allow_it, refuse,
}
use afuture.Risk.Config.{RiskConfig}
use afuture.Risk.Sessions.{LocalTime, minutes, inside_sessions, inside_open_close_buffer}

-- The first refusal of a sequence of tests.
abbrev pub decide : Option String → RiskDecision → RiskDecision
decide (some reason) rest = refuse reason
decide none rest = rest

-- The timestamp that Python's `max(a, b)` gives: the first one on a tie.
abbrev pub later_of : Timestamp → Timestamp → Timestamp
later_of a b = if ltb_ℤ a.instant b.instant then b else a

abbrev pub newest : ℤ → List ℤ → ℤ
newest t [] = t
newest t (u ∷ us) = newest (max_ℤ t u) us

abbrev pub oldest : ℤ → List ℤ → ℤ
oldest t [] = t
oldest t (u ∷ us) = oldest (min_ℤ t u) us

module _ {F : Type 0} ⦃fl : FloatOps F⦄ where
  -- `total_seconds` of a difference.
  abbrev pub seconds_between : ℤ → ℤ → F
  seconds_between later earlier = fl.div (fl.of_int (later -ℤ earlier)) (fl.of_int (pos 1000000))

  -- One round of the loop of `check_quotes`; the reason leaves out the text of the exception.
  abbrev pub quote_refusal : RiskConfig F → Timestamp → Tick F → Option String
  quote_refusal c now tick =
      let age = seconds_between now.instant tick.timestamp.instant in
      if bad_tick tick
      then some "invalid quote"
      else if fl.lt age (fl.of_int (negsuc 1))
      then some "quote timestamp is in the future"
      else if fl.lt c.max_quote_age_seconds age
      then some "stale quote"
      else none

  abbrev pub check_each : RiskConfig F → Timestamp → List (Tick F) → RiskDecision → RiskDecision
  check_each c now [] rest = rest
  check_each c now (tick ∷ ticks) rest =
      let later = check_each c now ticks rest in decide (quote_refusal c now tick) later

  abbrev pub instants : List (Tick F) → List ℤ
  instants ticks = map (λ (t : Tick F). t.timestamp.instant) ticks

  abbrev pub check_skew : RiskConfig F → List ℤ → RiskDecision
  check_skew c [] = allow_it
  check_skew c (t ∷ []) = allow_it
  check_skew c (t ∷ u ∷ us) =
      if fl.lt c.max_leg_skew_seconds (seconds_between (newest t (u ∷ us)) (oldest t (u ∷ us)))
      then refuse "cross-leg quote skew limit exceeded"
      else allow_it

  -- `check_quotes`, at a given time.
  unfoldable pub check_quotes : RiskConfig F → List (Tick F) → Timestamp → RiskDecision
  check_quotes c [] now = refuse "missing quotes"
  check_quotes c (tick ∷ ticks) now =
      if not (all (λ (t : Tick F). str_eq tick.trading_day t.trading_day) ticks)
      then refuse "quotes belong to different trading days"
      else check_each c now (tick ∷ ticks) (check_skew c (instants (tick ∷ ticks)))

  abbrev pub too_wide : RiskConfig F → F → Tick F → Bool
  too_wide c price_tick tick =
      fl.lt c.max_bid_ask_ticks (fl.div (fl.sub tick.ask_price tick.bid_price) price_tick)

  abbrev pub leg_depth : OrderSide → Tick F → F
  leg_depth buy tick = tick.ask_volume
  leg_depth sell tick = tick.bid_volume

  -- A leg that is too close to the daily limit on its side, where there is one.
  abbrev pub limit_refusal : RiskConfig F → F → OrderSide → Tick F → Option String
  limit_refusal c price_tick buy tick =
      if fl.lt fzero tick.limit_up
        && fl.lt (fl.div (fl.sub tick.limit_up tick.ask_price) price_tick) c.limit_distance_ticks
      then some "buy leg is too close to upper limit"
      else none
  limit_refusal c price_tick sell tick =
      if fl.lt fzero tick.limit_down
        && fl.lt (fl.div (fl.sub tick.bid_price tick.limit_down) price_tick) c.limit_distance_ticks
      then some "sell leg is too close to lower limit"
      else none

  -- `spec.price_tick if spec else 1.0`
  abbrev pub tick_size : Option (ContractSpec F) → F
  tick_size none = fl.of_int (pos 1)
  tick_size (some spec) = spec.price_tick

  abbrev pub needed_depth : RiskConfig F → ℤ → F
  needed_depth c volume = fl.mul (fl.of_int volume) c.min_depth_multiple

  abbrev pub session_refusal : RiskConfig F → LocalTime → List SessionWindow → Option String
  session_refusal c t [] = none
  session_refusal c t (w ∷ windows) =
      if not (inside_sessions t (w ∷ windows))
      then some "outside configured trading session"
      else if not (
          inside_open_close_buffer (pos_part c.open_cooldown_minutes)
            (pos_part c.close_blackout_minutes) (minutes t) (w ∷ windows))
      then some "inside session open/close safety window"
      else none

-- `clock` is the time zone library: the time of day of an instant in Asia/Shanghai.
module _ {F : Type 0} ⦃fl : FloatOps F⦄ (clock : Timestamp → LocalTime) where
  -- `check_market_entry` for the two sides of the legs.
  abbrev pub check_legs :
      RiskConfig F
      → PairConfig F
      → Tick F
      → Tick F
      → OrderSide
      → OrderSide
      → ℤ
      → Dict String (ContractSpec F)
      → RiskDecision
  check_legs c pair near far near_side far_side volume specs =
      let near_tick = tick_size (lookup near.symbol specs) in
      let far_tick = tick_size (lookup far.symbol specs) in
      decide
        (session_refusal c (clock (later_of near.timestamp far.timestamp)) pair.session_windows)
        (if too_wide c near_tick near || too_wide c far_tick far
          then refuse "bid/ask spread too wide"
          else if fl.lt (fmin (leg_depth near_side near) (leg_depth far_side far))
              (needed_depth c volume)
          then refuse "top-of-book depth is insufficient"
          else decide (limit_refusal c near_tick near_side near)
              (decide (limit_refusal c far_tick far_side far) allow_it))

  -- `check_market_entry`; only the two opening actions are tested.
  unfoldable pub check_market_entry :
      RiskConfig F
      → PairConfig F
      → Tick F
      → Tick F
      → SignalAction
      → ℤ
      → Dict String (ContractSpec F)
      → RiskDecision
  check_market_entry c pair near far long_spread volume specs =
      if leb_ℤ volume (pos 0)
      then refuse "requested volume is not positive"
      else check_legs c pair near far buy sell volume specs
  check_market_entry c pair near far short_spread volume specs =
      if leb_ℤ volume (pos 0)
      then refuse "requested volume is not positive"
      else check_legs c pair near far sell buy volume specs
  check_market_entry c pair near far _ volume specs = allow_it

  -- `check_contract_entry`
  unfoldable pub check_contract_entry :
      RiskConfig F → Tick F → OrderSide → ℤ → ContractSpec F → List SessionWindow → RiskDecision
  unfolding check_quotes
  check_contract_entry c tick side volume spec windows =
      let quotes = check_quotes c (tick ∷ []) tick.timestamp in
      if leb_ℤ volume (pos 0)
      then refuse "requested volume is not positive"
      else if not quotes.allowed
      then quotes
      else decide (session_refusal c (clock tick.timestamp) windows) (
          if too_wide c spec.price_tick tick
          then refuse "bid/ask spread too wide"
          else if fl.lt (leg_depth side tick) (needed_depth c volume)
          then refuse "top-of-book depth is insufficient"
          else decide (limit_refusal c spec.price_tick side tick) allow_it)

-- ===== src/Models/Enums.antt =====
-- The enumerations of models.py, and what a validation reports.
use afuture.Prelude.{Bool, true, false}

pub data OrderSide : Type 0 where
  buy sell : OrderSide

-- `Offset`; OPEN is `opening`.
pub data Offset : Type 0 where
  opening close close_today close_yesterday : Offset

pub data OrderType : Type 0 where
  limit fak fok : OrderType

pub data OrderStatus : Type 0 where
  submitting not_traded part_traded filled cancelled rejected : OrderStatus

pub data SignalAction : Type 0 where
  long_spread short_spread exit emergency_exit hold : SignalAction

-- `offset is Offset.OPEN`
abbrev pub is_opening : Offset → Bool
is_opening opening = true
is_opening _ = false

abbrev pub is_buy : OrderSide → Bool
is_buy buy = true
is_buy sell = false

-- `Order.active`, as a test on the status.
abbrev pub is_active : OrderStatus → Bool
is_active submitting = true
is_active not_traded = true
is_active part_traded = true
is_active _ = false

-- The exceptions of the modelled code, one constructor for each `raise`.
pub data Error : Type 0 where
  blank_identity : Error
  bad_volume : Error
  bad_price : Error
  naive_timestamp : Error
  bad_commission : Error
  bad_buckets : Error
  unpriced_position : Error
  ambiguous_symbol : Error
  close_exceeds_bucket : Error
  bad_account : Error
  bad_quote : Error
  zero_division : Error
  not_started : Error
  unknown_contract : Error
  invalid_request : Error
  bad_trading_day : Error
  bad_settlement : Error
  bad_limit : Error
  bad_equity_value : Error
  not_finite : Error
  missing_product : Error
  bad_transition : Error
  opposing_lots : Error
  bad_state : Error
  concurrent_change : Error
  missing_evidence : Error
  file_error : Error
  bad_scale : Error

-- `order_type in {OrderType.FAK, OrderType.FOK}`
abbrev pub is_ioc : OrderType → Bool
is_ioc limit = false
is_ioc _ = true

abbrev pub is_fok : OrderType → Bool
is_fok fok = true
is_fok _ = false

-- ===== src/Store/Payload.antt =====
-- `StateStore._state_from_payload` of state.py: what a persisted state must be.
use afuture.Prelude.{
  String, Bool, true, false, not, ◌&&◌, ◌||◌, Option, none, some, List, [], ◌∷◌, ◌++◌, map,
  if◌then◌else◌, any, all, length, leb, Result, ok, err,
}
use afuture.Prelude.Int.{ℤ}
use afuture.Prelude.Sets.{member}
use afuture.Dict.{Key, key_beq}
use afuture.Float.{FloatOps}
use afuture.Models.{Error, bad_state, ContractPosition, validate_position}
use afuture.Store.{
  Json, integer, float, string, object, Fields, RuntimeState, field_at, names, field_values,
  elements, has_names, is_bool, is_text, is_object, is_list, items_of, values_of, is_settlement_id,
  is_named_text, text_of, is_mode,
}

-- The names of the fields, by the kind of their values.
abbrev pub bool_fields : List String
bool_fields =
    "kill_switch" ∷ "reconciled" ∷ "metadata_verified" ∷ "last_account_cash_flow_verified" ∷ []

abbrev pub string_fields : List String
string_fields =
    "kill_reason" ∷ "trading_day" ∷ "runtime_mode" ∷ "reduce_reason" ∷ "last_order_id"
    ∷ "last_trade_id" ∷ "directional_daily_circuit_day" ∷ "last_account_trading_day" ∷ []

abbrev pub number_fields : List String
number_fields =
    "day_start_equity" ∷ "equity_high_watermark" ∷ "last_account_equity" ∷ "last_account_deposit"
    ∷ "last_account_withdrawal" ∷ []

abbrev pub list_fields : List String
list_fields = "positions" ∷ "recent_daily_returns" ∷ "recent_trade_ids" ∷ []

abbrev pub object_fields : List String
object_fields = "strategy_states" ∷ "auto_pairs" ∷ []

-- `RuntimeState.__dataclass_fields__`
abbrev pub state_fields : List String
state_fields =
    "last_account_settlement_id" ∷ bool_fields
    ++ string_fields
    ++ number_fields
    ++ list_fields
    ++ object_fields

abbrev pub position_fields : List String
position_fields =
    "symbol" ∷ "exchange" ∷ "long_today" ∷ "long_yesterday" ∷ "short_today" ∷ "short_yesterday"
    ∷ "long_price" ∷ "short_price" ∷ []

-- `len(set(xs)) != len(xs)`
unfoldable pub repeats : List String → Bool
repeats [] = false
repeats (x ∷ xs) = member x xs || repeats xs

unfoldable pub repeats_key : List Key → Bool
repeats_key [] = false
repeats_key (k ∷ ks) = any (key_beq k) ks || repeats_key ks

abbrev with_part : {A B : Type 0} → Option A → (A → Option B) → Option B
with_part none next = none
with_part (some a) next = next a

abbrev returned : {E A : Type 0} → Result E A → Bool
returned (ok a) = true
returned (err e) = false

module _ {F : Type 0} ⦃fl : FloatOps F⦄ where
  abbrev pub is_finite_number : Json F → Bool
  is_finite_number (integer n) = true
  is_finite_number (float x) = fl.is_finite x
  is_finite_number _ = false

  abbrev text : Json F → Option String
  text (string s) = some s
  text _ = none

  abbrev bucket : Json F → Option ℤ
  bucket (integer n) = some n
  bucket _ = none

  abbrev price : Json F → Option F
  price (integer n) = some (fl.of_int n)
  price (float x) = some x
  price _ = none

  -- `ContractPosition(**item)`, where the values have the types that `validate` demands.
  unfoldable pub position_of : Fields F → Option (ContractPosition F)
  unfolding field_at
  position_of item = with_part (text (field_at "symbol" item)) λ symbol.
      with_part (text (field_at "exchange" item)) λ exchange.
        with_part (bucket (field_at "long_today" item)) λ long_today.
          with_part (bucket (field_at "long_yesterday" item)) λ long_yesterday.
            with_part (bucket (field_at "short_today" item)) λ short_today.
              with_part (bucket (field_at "short_yesterday" item)) λ short_yesterday.
                with_part (price (field_at "long_price" item)) λ long_price.
                  with_part (price (field_at "short_price" item)) λ short_price. some (record {
                    symbol = symbol;
                    exchange = exchange;
                    long_today = long_today;
                    long_yesterday = long_yesterday;
                    short_today = short_today;
                    short_yesterday = short_yesterday;
                    long_price = long_price;
                    short_price = short_price;
                  })

  abbrev pub valid_position : Option (ContractPosition F) → Bool
  valid_position none = false
  valid_position (some p) = returned (validate_position p)

  abbrev pub is_position : Json F → Bool
  is_position (object item) = has_names position_fields item && valid_position (position_of item)
  is_position _ = false

  -- `(str(item["symbol"]), str(item["exchange"]))`
  abbrev pub saved_position_key : Json F → Key
  saved_position_key (object item) = record {
    symbol = text_of (field_at "symbol" item);
    exchange = text_of (field_at "exchange" item);
  }
  saved_position_key _ = record { symbol = ""; exchange = "" }

  -- The tests of `_state_from_payload` on the values of the fields, those of one kind together.
  unfoldable pub valid_payload : Fields F → Bool
  unfolding field_at names field_values elements position_of repeats repeats_key
  valid_payload payload =
      let at = λ (name : String). field_at name payload in
      all (λ name. is_bool (at name)) bool_fields
      && all (λ name. is_text (at name)) string_fields
      && all (λ name. is_finite_number (at name)) number_fields
      && is_settlement_id (at "last_account_settlement_id")
      && all (λ name. is_list (at name)) list_fields
      && all (λ name. is_object (at name)) object_fields
      && all is_position (items_of (at "positions"))
      && not (repeats_key (map saved_position_key (items_of (at "positions"))))
      && all (λ name. all is_object (values_of (at name))) object_fields
      && all is_finite_number (items_of (at "recent_daily_returns"))
      && leb (length (items_of (at "recent_trade_ids"))) 10000
      && all is_named_text (items_of (at "recent_trade_ids"))
      && not (repeats (map text_of (items_of (at "recent_trade_ids"))))
      && is_mode (at "runtime_mode")

  -- `_state_from_payload`
  unfoldable pub state_from_payload : Fields F → Result Error (RuntimeState F)
  unfolding valid_payload
  state_from_payload payload =
      if has_names state_fields payload && valid_payload payload then ok payload else err bad_state

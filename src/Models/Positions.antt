-- ===== src/Models/Positions.antt =====
-- `ContractPosition` of models.py.
use afuture.Prelude.{String, Bool, ◌&&◌, ◌||◌, not, Result, raise_if, ◌>>◌}
use afuture.Prelude.Int.{ℤ, pos, ◌+ℤ◌, ◌-ℤ◌, ltb_ℤ, eqb_ℤ}
use afuture.Prelude.Text.{is_blank}
use afuture.Float.{FloatOps, fzero}
use afuture.Models.Enums.{Error, blank_identity, bad_buckets, bad_price, unpriced_position}

pub record ContractPosition (F : Type 0) : Type 0 where
  pub symbol : String
  pub exchange : String
  pub long_today : ℤ
  pub long_yesterday : ℤ
  pub short_today : ℤ
  pub short_yesterday : ℤ
  pub long_price : F
  pub short_price : F

module _ {F : Type 0} where
  abbrev pub long_total : ContractPosition F → ℤ
  long_total p = p.long_today +ℤ p.long_yesterday

  abbrev pub short_total : ContractPosition F → ℤ
  short_total p = p.short_today +ℤ p.short_yesterday

  unfoldable pub net_volume : ContractPosition F → ℤ
  net_volume p = long_total p -ℤ short_total p

  -- The property `empty`.
  unfoldable pub is_empty : ContractPosition F → Bool
  is_empty p = eqb_ℤ (long_total p) (pos 0) && eqb_ℤ (short_total p) (pos 0)

module _ {F : Type 0} ⦃fl : FloatOps F⦄ where
  -- `ContractPosition(symbol, exchange)`, with the field defaults.
  unfoldable pub new_position : String → String → ContractPosition F
  new_position symbol exchange = record {
    symbol = symbol;
    exchange = exchange;
    long_today = pos 0;
    long_yesterday = pos 0;
    short_today = pos 0;
    short_yesterday = pos 0;
    long_price = fzero;
    short_price = fzero;
  }

  -- One round of the loop over the two sides in `validate`.
  unfoldable pub validate_side : F → ℤ → Result Error (Unit {0})
  validate_side price volume = do
    raise_if (not (fl.is_finite price) || fl.lt price fzero) bad_price
    raise_if (ltb_ℤ (pos 0) volume && fl.le price fzero) unpriced_position

  -- `ContractPosition.validate`; the `isinstance` tests hold by the types of the fields.
  unfoldable pub validate_position : ContractPosition F → Result Error (Unit {0})
  validate_position p = do
    raise_if (is_blank p.symbol || is_blank p.exchange) blank_identity
    raise_if
        (ltb_ℤ p.long_today (pos 0)
          || ltb_ℤ p.long_yesterday (pos 0)
          || ltb_ℤ p.short_today (pos 0)
          || ltb_ℤ p.short_yesterday (pos 0))
        bad_buckets
    validate_side p.long_price (long_total p)
    validate_side p.short_price (short_total p)

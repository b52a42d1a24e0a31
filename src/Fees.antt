-- ===== src/Fees.antt =====
-- fees.py: the commission of a fill.
use afuture.Prelude.Int.{ℤ}
use afuture.Float.{FloatOps}
use afuture.Models.{Offset, opening, close_today, ContractSpec}

module _ {F : Type 0} ⦃fl : FloatOps F⦄ where
  abbrev pub charge : F → F → F → ℤ → F
  charge fixed rate turnover volume =
      fl.add (fl.mul fixed (fl.of_int volume)) (fl.mul rate turnover)

  abbrev pub turnover : ContractSpec F → F → ℤ → F
  turnover spec price volume = fl.mul (fl.mul price spec.multiplier) (fl.of_int volume)

  unfoldable pub calculate_commission : ContractSpec F → Offset → F → ℤ → F
  calculate_commission spec opening price volume =
      charge spec.fee.open_fixed spec.fee.open_rate (turnover spec price volume) volume
  calculate_commission spec close_today price volume =
      charge spec.fee.close_today_fixed spec.fee.close_today_rate (turnover spec price volume)
        volume
  calculate_commission spec _ price volume =
      charge spec.fee.close_fixed spec.fee.close_rate (turnover spec price volume) volume

-- ===== src/Sim/Days.antt =====
-- The trading day of `SimBroker` and the value of its account.
use Prim.Native.Char.{code}
use afuture.Prelude.{
  ℕ, ◌+◌, ◌-◌, ◌*◌, ◌%◌, String, Bool, true, false, not, ◌&&◌, ◌||◌, Option, none, some, List, [],
  ◌∷◌, Result, ok, err, raise_if, ◌>>=◌, ◌>>◌, if◌then◌else◌, leb, ◌==◌,
}
use afuture.Prelude.Int.{ℤ, pos, ◌+ℤ◌}
use afuture.Prelude.Text.{str_eq}
use afuture.Dict.{Dict, string_eq, lookup}
use afuture.Float.{FloatOps, fzero, fmax}
use afuture.Models.{
  Error, unknown_contract, bad_trading_day, bad_settlement, ident_eq, Tick, ContractPosition,
  long_total, short_total, ContractSpec,
}
use afuture.Position.Book.{PositionBook, roll_trading_day, all_positions}
use afuture.Sim.State.{SimConfig, SimState, Method}

-- The digits of a text, if it is made of ASCII digits.
unfoldable pub digits_of : String → Option (List ℕ)
digits_of String.[] = some []
digits_of (String.◌∷◌ c s) =
    let rest = digits_of s in
    if leb 48 (code c) && leb (code c) 57
    then elim rest [ none ↦ none | some ds ↦ some ((code c - 48) ∷ ds) ]
    else none

abbrev pub leap_year : ℕ → Bool
leap_year y = (y % 4 == 0 && not (y % 100 == 0)) || y % 400 == 0

abbrev pub days_in_month : ℕ → ℕ → ℕ
days_in_month y m =
    if m == 2
    then (if leap_year y then 29 else 28)
    else if m == 4 || m == 6 || m == 9 || m == 11
    then 30
    else 31

-- `_validated_trading_day`: a real date as YYYYMMDD, whose year prints in four digits.
abbrev pub real_date : Option (List ℕ) → Bool
real_date (some (a ∷ b ∷ c ∷ d ∷ e ∷ f ∷ g ∷ h ∷ [])) =
    let y = a * 1000 + b * 100 + c * 10 + d in
    let m = e * 10 + f in
    let day = g * 10 + h in
    leb 1000 y && leb 1 m && leb m 12 && leb 1 day && leb day (days_in_month y m)
real_date _ = false

unfoldable pub validated_trading_day : String → Result Error String
unfolding digits_of
validated_trading_day value =
    raise_if (not (real_date (digits_of value))) bad_trading_day >> ok value

module _ {F : Type 0} ⦃fl : FloatOps F⦄ where
  -- The fold of `_account_values` over the positions: unrealized profit and margin.
  abbrev pub mark_of : Option (Tick F) → ContractPosition F → F
  mark_of (some tick) p = tick.last_price
  mark_of none p = fmax (fmax p.long_price p.short_price) fzero

  abbrev pub add_position :
      Option (ContractSpec F) → Option (Tick F) → ContractPosition F → F × F → Result Error (F × F)
  add_position none tick p totals = err unknown_contract
  add_position (some spec) tick p (unrealized, margin) =
      let mark = mark_of tick p in
      let scaled = λ (x : F) (volume : ℤ). fl.mul (fl.mul x (fl.of_int volume)) spec.multiplier in
      ok (
        fl.add (fl.add unrealized (scaled (fl.sub mark p.long_price) (long_total p)))
            (scaled (fl.sub p.short_price mark) (short_total p)),
        fl.add margin (
            fl.mul (fl.mul mark spec.multiplier) (
              fl.add (fl.mul (fl.of_int (long_total p)) spec.margin_rate_long)
                (fl.mul (fl.of_int (short_total p)) spec.margin_rate_short))),
      )

  unfoldable pub mark_positions :
      SimConfig F → Dict String (Tick F) → List (ContractPosition F) → F × F → Result Error (F × F)
  mark_positions cfg ticks [] totals = ok totals
  mark_positions cfg ticks (p ∷ ps) totals =
      add_position (lookup p.symbol cfg.specs) (lookup p.symbol ticks) p totals
      >>= mark_positions cfg ticks ps

  -- `_account_values`: unrealized profit, margin and equity.
  unfoldable pub account_values : SimConfig F → SimState F → Result Error (F × F × F)
  unfolding mark_positions
  account_values cfg st = do
    (unrealized, margin) ← mark_positions cfg st.ticks (all_positions st.book) (fzero, fzero)
    ok (unrealized, margin, fl.add st.balance unrealized)

  abbrev pub bad_equity : F → Bool
  bad_equity equity = not (fl.is_finite equity) || fl.le equity fzero

  abbrev pub settle_day :
      String → F → Result Error (Unit {0}) × PositionBook F → Method F (Unit {0})
  settle_day day equity (err e, book) st = (err e, record st { book = book })
  settle_day day equity (ok _, book) st = (
    ok tt,
    record st {
      book = book;
      previous_settlement_equity = some equity;
      settlement_verified = true;
      settlement_id = st.settlement_id +ℤ pos 1;
      trading_day = day;
    },
  )

  -- The settlement of the day that ends, which needs its equity.
  abbrev pub end_day : String → Option F → Method F (Unit {0})
  end_day day none st = (err bad_settlement, st)
  end_day day (some equity) st =
      if bad_equity equity
      then (err bad_settlement, st)
      else settle_day day equity (roll_trading_day st.book) st

  -- `_apply_trading_day` without a state file. Deposits and withdrawals stay 0.0 throughout.
  unfoldable pub apply_trading_day : String → Option F → Method F (Unit {0})
  apply_trading_day day equity st =
      if str_eq st.trading_day ""
      then (ok tt, record st { trading_day = day })
      else if str_eq day st.trading_day
      then (ok tt, st)
      else end_day day equity st

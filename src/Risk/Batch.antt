-- ===== src/Risk/Batch.antt =====
-- `check_open_orders` and `check_open_batch` of risk.py.
use afuture.Prelude.{
  String, not, Option, none, some, List, [], ◌∷◌, Result, ok, err, if◌then◌else◌, or_else,
}
use afuture.Prelude.Int.{ℤ, pos, ◌+ℤ◌, leb_ℤ, ltb_ℤ}
use afuture.Dict.{Dict, string_eq, lookup, insert}
use afuture.Float.{FloatOps, fzero}
use afuture.Models.{
  Error, OrderSide, buy, sell, is_opening, OrderRequest, AccountSnapshot, ContractSpec,
  RiskDecision, allow_it, refuse,
}
use afuture.Risk.Config.{RiskConfig}
use afuture.Risk.Manager.{RiskManager, check_account}

-- `table.get(symbol, 0)`
abbrev pub volume_of : String → Dict String ℤ → ℤ
volume_of symbol table = or_else (lookup symbol table) (pos 0)

module _ {F : Type 0} ⦃fl : FloatOps F⦄ where
  abbrev pub margin_rate : OrderSide → ContractSpec F → F
  margin_rate buy spec = spec.margin_rate_long
  margin_rate sell spec = spec.margin_rate_short

  abbrev pub order_margin : OrderRequest F → ContractSpec F → F
  order_margin order spec =
      fl.mul (fl.mul (fl.mul order.price spec.multiplier) (margin_rate order.side spec))
        (fl.of_int order.volume)

  -- The end of a round of the loop; an `err` is a `return` of the method.
  abbrev pub add_margin : OrderRequest F → F → Option (ContractSpec F) → Result RiskDecision F
  add_margin order margin none = err (refuse "missing contract spec")
  add_margin order margin (some spec) = ok (fl.add margin (order_margin order spec))

  abbrev pub next_order :
      (Dict String ℤ → F → Result RiskDecision F)
      → Dict String ℤ
      → Result RiskDecision F
      → Result RiskDecision F
  next_order rest requested (err d) = err d
  next_order rest requested (ok margin) = rest requested margin

  -- The loop of `check_open_orders`, with the volumes requested so far and their margin. The reason
  -- for a missing spec leaves out the symbol.
  unfoldable pub check_orders :
      RiskConfig F
      → Dict String (ContractSpec F)
      → Dict String ℤ
      → List (OrderRequest F)
      → Dict String ℤ
      → F
      → Result RiskDecision F
  check_orders c specs current [] requested margin = ok margin
  check_orders c specs current (o ∷ orders) requested margin =
      let wanted = volume_of o.symbol requested +ℤ o.volume in
      let rest = check_orders c specs current orders in
      if not (is_opening o.offset)
      then rest requested margin
      else if leb_ℤ o.volume (pos 0)
      then err (refuse "contract volume must be positive")
      else if ltb_ℤ c.max_contract_volume (volume_of o.symbol current +ℤ wanted)
      then err (refuse "contract volume limit reached")
      else next_order rest (insert o.symbol wanted requested)
          (add_margin o margin (lookup o.symbol specs))

  -- The margin and the cash that the batch would leave.
  abbrev pub check_margin : RiskConfig F → AccountSnapshot F → Result RiskDecision F → RiskDecision
  check_margin c account (err d) = d
  check_margin c account (ok estimated) =
      let post_margin = fl.add account.margin (fl.mul estimated c.margin_estimate_buffer) in
      if fl.lt c.max_margin_ratio (fl.div post_margin account.equity)
      then refuse "combined margin ratio would exceed limit"
      else if fl.lt (fl.div (fl.sub account.equity post_margin) account.equity)
          c.min_available_ratio
      then refuse "combined cash reserve would fall below limit"
      else allow_it

  abbrev pub check_batch :
      AccountSnapshot F
      → List (OrderRequest F)
      → Dict String (ContractSpec F)
      → Dict String ℤ
      → Result Error RiskDecision × RiskManager F
      → Result Error RiskDecision × RiskManager F
  check_batch account orders specs current (err e, m) = (err e, m)
  check_batch account orders specs current (ok d, m) = if not d.allowed then (ok d, m) else (
    ok (check_margin m.config account (check_orders m.config specs current orders [] fzero)),
    m,
  )

  -- `check_open_orders`
  unfoldable pub check_open_orders :
      AccountSnapshot F
      → List (OrderRequest F)
      → Dict String (ContractSpec F)
      → Dict String ℤ
      → RiskManager F
      → Result Error RiskDecision × RiskManager F
  unfolding check_orders
  check_open_orders account orders specs current m =
      check_batch account orders specs current (check_account account m)

  -- `check_open_batch`
  unfoldable pub check_open_batch :
      ℤ
      → AccountSnapshot F
      → List (OrderRequest F)
      → Dict String (ContractSpec F)
      → Dict String ℤ
      → RiskManager F
      → Result Error RiskDecision × RiskManager F
  unfolding check_open_orders
  check_open_batch open_pair_count account orders specs current m =
      if leb_ℤ m.config.max_open_pairs open_pair_count
      then (ok (refuse "open pair limit reached"), m)
      else check_open_orders account orders specs current m

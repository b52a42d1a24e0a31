-- ===== src/Execution.antt =====
-- execution.py: how the pair executor prices its orders, and its two ways out of a broken pair.
mod Closing
pub mod Reducing
pub mod Legs
pub mod Balance
use afuture.Prelude.{
  String, Bool, true, false, not, ◌&&◌, ◌||◌, Option, none, some, List, [], ◌∷◌, ◌++◌, map, Result,
  ok, err, ◌>>=◌, if◌then◌else◌,
}
use afuture.Prelude.Int.{ℤ, pos, ◌+ℤ◌, leb_ℤ, min_ℤ}
use afuture.Prelude.Text.{str_eq, str_append}
use afuture.Dict.{Dict, string_eq, lookup}
use afuture.Float.{FloatOps, fzero, fmin, fmax}
use afuture.Models.{
  Error, unknown_contract, OrderSide, buy, sell, is_opening, fak, Ident, OrderRequest, Order,
  ContractPosition, long_total, short_total, ContractSpec, Tick, PairConfig,
}
use afuture.Position.Book.{PositionBook, new_book, get}
use afuture.Position.Plan.{plan_close}

-- What the executor uses of a broker with the state B.
pub record BrokerOps (F B : Type 0) : Type 0 where
  pub get_positions : B → List (ContractPosition F)
  pub get_order : Ident → B → Option (Order F)
  pub send_order : OrderRequest F → B → Result Error Ident × B
  pub cancel_order : Ident → B → Result Error (Unit {0}) × B

-- The fields of `PairExecutor` that are read here.
pub record PairExecutor (F : Type 0) : Type 0 where
  pub specs : Dict String (ContractSpec F)
  pub aggressive_ticks : ℤ
  pub close_today_first : Bool

abbrev pub opposite : OrderSide → OrderSide
opposite buy = sell
opposite sell = buy

-- A step on a state that stays changed where it raises.
abbrev pub and_then :
    {S A C : Type 0} → Result Error A × S → (A → S → Result Error C × S) → Result Error C × S
and_then (ok a, s) next = next a s
and_then (err e, s) next = (err e, s)

abbrev pub raising :
    {S A C : Type 0} → Result Error A → S → (A → S → Result Error C × S) → Result Error C × S
raising (ok a) s next = next a s
raising (err e) s next = (err e, s)

module _ {F : Type 0} ⦃fl : FloatOps F⦄ where
  abbrev pub price_with :
      PairExecutor F → Tick F → OrderSide → Option (ContractSpec F) → Result Error F
  price_with ex tick side none = err unknown_contract
  price_with ex tick buy (some spec) =
      let price = fl.add tick.ask_price (fl.mul (fl.of_int ex.aggressive_ticks) spec.price_tick) in
      ok (if fl.lt fzero tick.limit_up then fmin price tick.limit_up else price)
  price_with ex tick sell (some spec) =
      let price = fl.sub tick.bid_price (fl.mul (fl.of_int ex.aggressive_ticks) spec.price_tick) in
      ok (if fl.lt fzero tick.limit_down then fmax price tick.limit_down else price)

  -- `_aggressive_price`
  unfoldable pub aggressive_price : PairExecutor F → Tick F → OrderSide → Result Error F
  aggressive_price ex tick side = price_with ex tick side (lookup tick.symbol ex.specs)

  -- `replace(child, order_type=OrderType.FAK)`
  abbrev pub as_fak : OrderRequest F → OrderRequest F
  as_fak request = record request { order_type = fak }

  abbrev pub with_book :
      {B A : Type 0} → Result Error A × PositionBook F → B → Result Error A × (PositionBook F × B)
  with_book (r, book) b = (r, (book, b))

  abbrev pub with_broker :
      {B A : Type 0} → PositionBook F → Result Error A × B → Result Error A × (PositionBook F × B)
  with_broker book (r, b) = (r, (book, b))

  -- The children of a close of `volume`, priced to trade at once.
  unfoldable pub plan_reduction :
      {B : Type 0}
      → PairExecutor F
      → String
      → String
      → Tick F
      → String
      → OrderSide
      → ℤ
      → PositionBook F × B
      → Result Error (List (OrderRequest F)) × (PositionBook F × B)
  plan_reduction ex symbol exchange tick reference side volume (book, b) =
      raising (aggressive_price ex tick side) (book, b)
        λ price s.
          with_book
            (plan_close symbol exchange side volume ex.close_today_first price reference s.0) s.1

  -- What a close on the side can take.
  abbrev pub held_against : OrderSide → ContractPosition F → ℤ
  held_against sell position = long_total position
  held_against buy position = short_total position

  -- `tick_map[symbol]`
  abbrev pub tick_for : Tick F → Tick F → String → Result Error (Tick F)
  tick_for near far symbol =
      if str_eq far.symbol symbol
      then ok far
      else if str_eq near.symbol symbol
      then ok near
      else err unknown_contract

  -- What is left of the local book when it goes out of scope: the broker.
  abbrev pub without_book :
      {A B : Type 0} → Result Error A × (PositionBook F × B) → Result Error A × B
  without_book (r, (book, b)) = (r, b)

module _ {F B : Type 0} ⦃fl : FloatOps F⦄ (ops : BrokerOps F B) (ex : PairExecutor F) where
  -- The inner loop of `flatten_imbalance`, which stops where the broker raises.
  unfoldable pub send_each : List (OrderRequest F) → B → Result Error (List Ident) × B
  send_each [] b = (ok [], b)
  send_each (r ∷ rs) b =
      and_then (ops.send_order (as_fak r) b)
        λ id b1. and_then (send_each rs b1) (λ ids b2. (ok (id ∷ ids), b2))

  -- One side of one leg of `flatten_imbalance`.
  abbrev pub flatten_side :
      PairConfig F
      → String
      → Tick F
      → String
      → OrderSide
      → ℤ
      → PositionBook F × B
      → Result Error (List Ident) × (PositionBook F × B)
  flatten_side pair symbol tick reference side volume s =
      if leb_ℤ volume (pos 0)
      then (ok [], s)
      else and_then (plan_reduction ex symbol pair.exchange tick reference side volume s)
          λ children s1. with_broker s1.0 (send_each children s1.1)

  -- One leg: what is long is sold, and what is short is bought.
  unfoldable pub flatten_leg :
      PairConfig F
      → String
      → Tick F
      → String
      → PositionBook F × B
      → Result Error (List Ident) × (PositionBook F × B)
  unfolding send_each plan_reduction
  flatten_leg pair symbol tick reference (book, b) =
      and_then (with_book (get symbol pair.exchange book) b) λ position s.
        and_then (flatten_side pair symbol tick reference sell (long_total position) s) λ sold s1.
          and_then (flatten_side pair symbol tick reference buy (short_total position) s1)
            λ bought s2. (ok (sold ++ bought), s2)

  abbrev pub both_legs :
      PairConfig F
      → Tick F
      → Tick F
      → PositionBook F
      → B
      → Result Error (List Ident) × (PositionBook F × B)
  both_legs pair near far book b =
      let reference = str_append pair.pair_id ":repair" in
      and_then (flatten_leg pair pair.near_symbol near reference (book, b)) λ ids s.
        and_then (flatten_leg pair pair.far_symbol far reference s)
          λ more s1. (ok (ids ++ more), s1)

  -- `flatten_imbalance`
  unfoldable pub flatten_imbalance :
      PairConfig F → Tick F → Tick F → B → Result Error (List Ident) × B
  unfolding flatten_leg
  flatten_imbalance pair near far b =
      raising (new_book (ops.get_positions b)) b
        λ book b1. without_book (both_legs pair near far book b1)

  abbrev pub cancel_all : List Ident → B → Result Error (Unit {0}) × B
  cancel_all [] b = (ok tt, b)
  cancel_all (id ∷ ids) b = and_then (ops.cancel_order id b) (λ _ b1. cancel_all ids b1)

  -- The sends of a rollback, where an exception is logged and the loop goes on.
  unfoldable pub send_quietly : List (OrderRequest F) → B → B
  send_quietly [] b = b
  send_quietly (r ∷ rs) b = send_quietly rs (ops.send_order (as_fak r) b).1

  -- The rollback of one filled opening order, by at most what is still held.
  abbrev pub roll_back :
      Tick F
      → Tick F
      → Order F
      → ContractPosition F
      → PositionBook F × B
      → Result Error (Unit {0}) × (PositionBook F × B)
  roll_back near far order position s =
      let request = order.request in
      let side = opposite request.side in
      let volume = min_ℤ order.traded (held_against side position) in
      if leb_ℤ volume (pos 0)
      then (ok tt, s)
      else raising (tick_for near far request.symbol) s λ tick s1.
        and_then
          (plan_reduction ex request.symbol request.exchange tick
            (str_append request.reference ":rollback") side volume s1)
          λ children s2. (ok tt, (s2.0, send_quietly children s2.1))

  -- One round of the loop of `_rollback_submitted`.
  abbrev pub roll_back_found :
      Tick F
      → Tick F
      → Option (Order F)
      → PositionBook F × B
      → Result Error (Unit {0}) × (PositionBook F × B)
  roll_back_found near far none s = (ok tt, s)
  roll_back_found near far (some order) (book, b) =
      if leb_ℤ order.traded (pos 0) || not (is_opening order.request.offset)
      then (ok tt, (book, b))
      else and_then (with_book (get order.request.symbol order.request.exchange book) b)
          (roll_back near far order)

  abbrev pub roll_back_all :
      Tick F
      → Tick F
      → List Ident
      → PositionBook F × B
      → Result Error (Unit {0}) × (PositionBook F × B)
  roll_back_all near far [] s = (ok tt, s)
  roll_back_all near far (id ∷ ids) s =
      and_then (roll_back_found near far (ops.get_order id s.1) s)
        (λ _ s1. roll_back_all near far ids s1)

  -- `_rollback_submitted`
  unfoldable pub rollback_submitted : List Ident → Tick F → Tick F → B → Result Error (Unit {0}) × B
  unfolding send_quietly plan_reduction
  rollback_submitted ids near far b = and_then (cancel_all ids b) λ _ b1.
      raising (new_book (ops.get_positions b1)) b1
        λ book b2. without_book (roll_back_all near far ids (book, b2))

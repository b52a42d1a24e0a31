-- ===== src/Execution/Legs.antt =====
-- The orders that open and close the two legs of a pair, of execution.py.
use mathlib.Core.Path.{subst}
use afuture.Prelude.{
  String, ok_eq, Bool, true, false, not, ◌&&◌, ◌||◌, ◌≡◌, ◌≢◌, refl, Option, none, some, List, [],
  ◌∷◌, ◌++◌, map, Result, ok, err, ◌>>=◌, if◌then◌else◌,
}
use afuture.Prelude.Int.{ℤ, pos, eqb_ℤ, min_ℤ}
use afuture.Dict.{string_eq, lookup}
use afuture.Float.{FloatOps, FloatOrder, fzero, fmin-right, fmax-right}
use afuture.Models.{
  Error, OrderSide, buy, sell, opening, fak, SignalAction, long_spread, short_spread, exit,
  emergency_exit, hold, OrderRequest, ContractPosition, is_empty, long_total, short_total,
  ContractSpec, Tick, PairConfig,
}
use afuture.Position.Book.{PositionBook, new_book, get}
use afuture.Execution.{
  PairExecutor, aggressive_price, price_with, as_fak, and_then, opposite, plan_reduction,
}

-- `near_side`; the far leg trades the other side.
abbrev pub near_side : SignalAction → OrderSide
near_side long_spread = buy
near_side _ = sell

module _ {F : Type 0} where
  -- The side that closes the near leg and the volume of both, where the two legs face each other.
  abbrev pub closing_legs : ContractPosition F → ContractPosition F → Option (OrderSide × ℤ)
  closing_legs near far =
      if not (eqb_ℤ (long_total near) (pos 0)) && not (eqb_ℤ (short_total far) (pos 0))
      then some (sell, min_ℤ (long_total near) (short_total far))
      else if not (eqb_ℤ (short_total near) (pos 0)) && not (eqb_ℤ (long_total far) (pos 0))
      then some (buy, min_ℤ (short_total near) (long_total far))
      else none

  -- `pair_is_balanced` where the pair has no active order, on its two positions.
  unfoldable pub legs_balanced : ContractPosition F → ContractPosition F → Bool
  legs_balanced near far =
      (is_empty near && is_empty far)
      || (eqb_ℤ (long_total near) (short_total far)
          && eqb_ℤ (short_total near) (pos 0)
          && eqb_ℤ (long_total far) (pos 0))
      || (eqb_ℤ (short_total near) (long_total far)
          && eqb_ℤ (long_total near) (pos 0)
          && eqb_ℤ (short_total far) (pos 0))

module _ {F : Type 0} ⦃fl : FloatOps F⦄ where
  abbrev pub open_request : PairConfig F → String → OrderSide → ℤ → F → OrderRequest F
  open_request pair symbol side volume price = record {
    symbol = symbol;
    exchange = pair.exchange;
    side = side;
    offset = opening;
    volume = volume;
    price = price;
    order_type = fak;
    reference = pair.pair_id;
  }

  -- `_build_open_orders`
  unfoldable pub build_open_orders :
      PairExecutor F
      → PairConfig F
      → SignalAction
      → Tick F
      → Tick F
      → ℤ
      → Result Error (List (OrderRequest F))
  build_open_orders ex pair action near far volume =
      let side = near_side action in
      aggressive_price ex near side >>= λ near_price.
      aggressive_price ex far (opposite side) >>= λ far_price. ok (
        open_request pair pair.near_symbol side volume near_price
        ∷ open_request pair pair.far_symbol (opposite side) volume far_price
        ∷ [])

  -- The children of one leg; the book here is local to the method.
  abbrev pub leg_children :
      PairExecutor F
      → PairConfig F
      → String
      → Tick F
      → OrderSide
      → ℤ
      → PositionBook F
      → Result Error (List (OrderRequest F)) × PositionBook F
  leg_children ex pair symbol tick side volume book =
      let r = plan_reduction ex symbol pair.exchange tick pair.pair_id side volume (book, tt) in
      (r.0 >>= λ children. ok (map as_fak children), r.1.0)

  abbrev pub close_legs :
      PairExecutor F
      → PairConfig F
      → Tick F
      → Tick F
      → Option (OrderSide × ℤ)
      → PositionBook F
      → Result Error (List (OrderRequest F)) × PositionBook F
  close_legs ex pair near far none book = (ok [], book)
  close_legs ex pair near far (some (side, volume)) book =
      and_then (leg_children ex pair pair.near_symbol near side volume book) λ first book1.
        and_then (leg_children ex pair pair.far_symbol far (opposite side) volume book1)
          λ second book2. (ok (first ++ second), book2)

  -- `_build_close_orders`, on the broker's positions.
  unfoldable pub build_close_orders :
      PairExecutor F
      → PairConfig F
      → List (ContractPosition F)
      → Tick F
      → Tick F
      → Result Error (List (OrderRequest F))
  unfolding plan_reduction
  build_close_orders ex pair positions near far = new_book positions >>= λ book.
      (and_then (get pair.near_symbol pair.exchange book) λ near_position book1.
        and_then (get pair.far_symbol pair.exchange book1) λ far_position book2.
          close_legs ex pair near far (closing_legs near_position far_position) book2).0

  -- The price does not cross the daily limit on the side of the order, where the tick has one.
  abbrev pub InsideLimit : OrderSide → Tick F → F → Type 0
  InsideLimit buy tick price = fl.lt fzero tick.limit_up ≡ true → fl.lt tick.limit_up price ≡ false
  InsideLimit sell tick price =
      fl.lt fzero tick.limit_down ≡ true → fl.lt price tick.limit_down ≡ false

  -- A FAK order that opens the volume on the side of one leg, for the pair.
  pub record OpensLeg (pair : PairConfig F) (symbol : String) (side : OrderSide) (volume : ℤ)
      (tick : Tick F) (request : OrderRequest F) : Type 0 where
    pub symbol_of : request.symbol ≡ symbol
    pub exchange_of : request.exchange ≡ pair.exchange
    pub side_of : request.side ≡ side
    pub offset_of : request.offset ≡ opening
    pub volume_of : request.volume ≡ volume
    pub type_of : request.order_type ≡ fak
    pub reference_of : request.reference ≡ pair.pair_id
    pub inside : InsideLimit side tick request.price

-- The sides of the near and the far leg.
pub data LegSides : SignalAction → OrderSide → OrderSide → Type 0 where
  buys_near : LegSides long_spread buy sell
  sells_near : (action : SignalAction) → action ≢ long_spread → LegSides action sell buy

leg_sides :
    (action : SignalAction) → LegSides action (near_side action) (opposite (near_side action))
leg_sides long_spread = buys_near
leg_sides short_spread = sells_near short_spread (λ h. cc)
leg_sides exit = sells_near exit (λ h. cc)
leg_sides emergency_exit = sells_near emergency_exit (λ h. cc)
leg_sides hold = sells_near hold (λ h. cc)

-- The two opening orders of a pair.
pub data Opening {F : Type 0} ⦃fl : FloatOps F⦄ (pair : PairConfig F) (near far : Tick F)
    (action : SignalAction) (volume : ℤ) : List (OrderRequest F) → Type 0 where
  both_legs :
      (near_leg far_leg : OrderSide) (first second : OrderRequest F)
      → LegSides action near_leg far_leg
      → OpensLeg pair pair.near_symbol near_leg volume near first
      → OpensLeg pair pair.far_symbol far_leg volume far second
      → Opening pair near far action volume (first ∷ second ∷ [])

module _ {F : Type 0} ⦃fl : FloatOps F⦄ (order : FloatOrder F fl) where
  price_with-InsideLimit :
      (ex : PairExecutor F) (tick : Tick F) (side : OrderSide) (spec : Option (ContractSpec F))
      (p : F)
      → price_with ex tick side spec ≡ ok p
      → InsideLimit side tick p
  price_with-InsideLimit ex tick side none p h = cc
  price_with-InsideLimit ex tick buy (some spec) p h = λ limited.
      subst (λ x. fl.lt tick.limit_up x ≡ false)
        (ok_eq _ p (price_with ex tick buy (some spec)) refl h)
        (rw limited (fmin-right order _ tick.limit_up))
  price_with-InsideLimit ex tick sell (some spec) p h = λ limited.
      subst (λ x. fl.lt x tick.limit_down ≡ false)
        (ok_eq _ p (price_with ex tick sell (some spec)) refl h)
        (rw limited (fmax-right order _ tick.limit_down))

  leg_opens :
      (pair : PairConfig F) (symbol : String) (side : OrderSide) (volume : ℤ) (tick : Tick F)
      (p : F)
      → InsideLimit side tick p
      → OpensLeg pair symbol side volume tick (open_request pair symbol side volume p)
  leg_opens pair symbol side volume tick p inside = record {
    symbol_of = refl;
    exchange_of = refl;
    side_of = refl;
    offset_of = refl;
    volume_of = refl;
    type_of = refl;
    reference_of = refl;
    inside = inside;
  }

  priced :
      (pair : PairConfig F) (near far : Tick F) (action : SignalAction) (volume : ℤ)
      (p q : Result Error F) (rs : List (OrderRequest F))
      → ((x : F) → p ≡ ok x → InsideLimit (near_side action) near x)
      → ((x : F) → q ≡ ok x → InsideLimit (opposite (near_side action)) far x)
      → (p >>= λ x. q >>= λ y. ok (
          open_request pair pair.near_symbol (near_side action) volume x
          ∷ open_request pair pair.far_symbol (opposite (near_side action)) volume y
          ∷ []))
        ≡ ok rs
      → Opening pair near far action volume rs
  priced pair near far action volume (err e) q rs hp hq h = cc
  priced pair near far action volume (ok x) (err e) rs hp hq h = cc
  priced pair near far action volume (ok x) (ok y) rs hp hq h =
      subst (Opening pair near far action volume) (ok_eq _ rs (ok _) refl h) (
        both_legs (near_side action) (opposite (near_side action)) _ _ (leg_sides action)
          (leg_opens pair pair.near_symbol (near_side action) volume near x (hp x refl))
          (leg_opens pair pair.far_symbol (opposite (near_side action)) volume far y (hq y refl)))

  -- Where both legs can be priced, the opening orders of a pair are two FAK orders that open the same
  -- volume on opposite sides under the pair's id, the near leg bought for a long spread and sold
  -- otherwise, and neither price crosses the daily limit of its own leg.
  pub build_open_orders-Opening :
      (ex : PairExecutor F) (pair : PairConfig F) (action : SignalAction) (near far : Tick F)
      (volume : ℤ) (rs : List (OrderRequest F))
      → build_open_orders ex pair action near far volume ≡ ok rs
      → Opening pair near far action volume rs
  unfolding build_open_orders aggressive_price
  build_open_orders-Opening ex pair action near far volume rs h =
      priced pair near far action volume (aggressive_price ex near (near_side action))
        (aggressive_price ex far (opposite (near_side action))) rs
        (λ x k. price_with-InsideLimit ex near (near_side action) (lookup near.symbol ex.specs) x k)
        (λ x k.
          price_with-InsideLimit ex far (opposite (near_side action)) (lookup far.symbol ex.specs) x
            k)
        h

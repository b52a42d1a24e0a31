-- ===== src/Execution/Reducing.antt =====
-- The ways out of a broken pair only reduce positions.
use afuture.Prelude.{
  String, false, not, ◌||◌, ◌≡◌, inl, inr, Bool-cases, Option, none, some, List, [], ◌∷◌, All,
  Result, ok, err,
}
use afuture.Prelude.Int.{ℤ, pos, leb_ℤ, min_ℤ}
use afuture.Prelude.Text.{str_append}
use afuture.Dict.{string_eq}
use afuture.Float.{FloatOps}
use afuture.Models.{
  Error, OrderSide, buy, sell, is_opening, Ident, OrderRequest, Order, ContractPosition, long_total,
  short_total, Tick, PairConfig,
}
use afuture.Position.Book.{PositionBook, new_book, get}
use afuture.Position.Plan.{plan_close}
use afuture.Execution.{
  BrokerOps, PairExecutor, aggressive_price, as_fak, with_book, with_broker, plan_reduction,
  send_each, flatten_side, flatten_leg, both_legs, without_book, flatten_imbalance, cancel_all,
  send_quietly, tick_for, opposite, held_against, roll_back, roll_back_found, roll_back_all,
  rollback_submitted,
}
use afuture.Execution.Closing.{Ends, Any, Closing, and_then-Ends, raising-Ends, plan_close-Closing}

module _ {F B : Type 0} ⦃fl : FloatOps F⦄ (ops : BrokerOps F B) (ex : PairExecutor F)
    (P : B → Type 0)
    (sends : (r : OrderRequest F) (b : B)
      → is_opening r.offset ≡ false
      → P b
      → P (ops.send_order r b).1) where
  abbrev Both : PositionBook F × B → Type 0
  Both s = P s.1

  with_book-Ends :
      {A : Type 0} (Q : A → Type 0) (r : Result Error A × PositionBook F) (b : B)
      → Ends (λ _. Unit) Q r
      → P b
      → Ends Both Q (with_book r b)
  with_book-Ends Q (ok a, book) b h k = (h.0, k)
  with_book-Ends Q (err e, book) b h k = k

  Any-Ends :
      {A : Type 0} (r : Result Error A × PositionBook F) (b : B)
      → P b
      → Ends Both Any (with_book r b)
  Any-Ends (ok a, book) b k = (tt, k)
  Any-Ends (err e, book) b k = k

  plan_reduction-Ends :
      (symbol exchange : String) (tick : Tick F) (reference : String) (side : OrderSide)
      (volume : ℤ) (s : PositionBook F × B)
      → P s.1
      → Ends Both (All Closing) (plan_reduction ex symbol exchange tick reference side volume s)
  unfolding plan_reduction
  plan_reduction-Ends symbol exchange tick reference side volume (book, b) h =
      raising-Ends Both (All Closing) (aggressive_price ex tick side) (book, b) _ h
        (λ price.
          with_book-Ends (All Closing)
            (plan_close symbol exchange side volume ex.close_today_first price reference book) b
            (plan_close-Closing symbol exchange side volume ex.close_today_first price reference
              book)
            h)

  sent-Ends : {A : Type 0} (r : Result Error A × B) → P r.1 → Ends P Any r
  sent-Ends (ok a, b) h = (tt, h)
  sent-Ends (err e, b) h = h

  send_each-Ends :
      (rs : List (OrderRequest F)) (b : B)
      → All Closing rs
      → P b
      → Ends P Any (send_each ops ex rs b)
  unfolding send_each
  send_each-Ends [] b c h = (tt, h)
  send_each-Ends (r ∷ rs) b c h =
      and_then-Ends P Any Any (ops.send_order (as_fak r) b) _
        (sent-Ends _ (sends (as_fak r) b c.0 h))
        (λ id b1 u h1.
          and_then-Ends P Any Any (send_each ops ex rs b1) _ (send_each-Ends rs b1 c.1 h1)
            (λ ids b2 u h2. (tt, h2)))

  with_broker-Ends :
      {A : Type 0} (book : PositionBook F) (r : Result Error A × B)
      → Ends P Any r
      → Ends Both Any (with_broker book r)
  with_broker-Ends book (ok a, b) h = h
  with_broker-Ends book (err e, b) h = h

  flatten_side-Ends :
      (pair : PairConfig F) (symbol : String) (tick : Tick F) (reference : String)
      (side : OrderSide) (volume : ℤ) (s : PositionBook F × B)
      → P s.1
      → Ends Both Any (flatten_side ops ex pair symbol tick reference side volume s)
  flatten_side-Ends pair symbol tick reference side volume s h =
      elim (Bool-cases (leb_ℤ volume (pos 0))) [
        | inl nothing ↦ rw nothing (tt, h)
        | inr held ↦ rw held (
            and_then-Ends Both (All Closing) Any
              (plan_reduction ex symbol pair.exchange tick reference side volume s) _
              (plan_reduction-Ends symbol pair.exchange tick reference side volume s h)
              (λ children s1 c h1.
                with_broker-Ends s1.0 (send_each ops ex children s1.1)
                  (send_each-Ends children s1.1 c h1)))
      ]

  flatten_leg-Ends :
      (pair : PairConfig F) (symbol : String) (tick : Tick F) (reference : String)
      (s : PositionBook F × B)
      → P s.1
      → Ends Both Any (flatten_leg ops ex pair symbol tick reference s)
  unfolding flatten_leg
  flatten_leg-Ends pair symbol tick reference (book, b) h =
      and_then-Ends Both Any Any (with_book (get symbol pair.exchange book) b) _
        (Any-Ends (get symbol pair.exchange book) b h)
        (λ p s u h1.
          and_then-Ends Both Any Any
            (flatten_side ops ex pair symbol tick reference sell (long_total p) s) _
            (flatten_side-Ends pair symbol tick reference sell (long_total p) s h1)
            (λ sold s1 u h2.
              and_then-Ends Both Any Any
                (flatten_side ops ex pair symbol tick reference buy (short_total p) s1) _
                (flatten_side-Ends pair symbol tick reference buy (short_total p) s1 h2)
                (λ bought s2 u h3. (tt, h3))))

  ended :
      {A : Type 0} (r : Result Error A × (PositionBook F × B))
      → Ends Both Any r
      → Ends P Any (without_book r)
  ended (ok a, s) h = h
  ended (err e, s) h = h

  end_of : {A : Type 0} (r : Result Error A × B) → Ends P Any r → P r.1
  end_of (ok a, b) h = h.1
  end_of (err e, b) h = h

  -- Whatever the broker does, and wherever it raises: all that `flatten_imbalance` does to it is to send
  -- orders that do not open, so that what such orders keep is kept.
  pub flatten_imbalance-reduces :
      (pair : PairConfig F) (near far : Tick F) (b : B)
      → P b
      → P (flatten_imbalance ops ex pair near far b).1
  unfolding flatten_imbalance
  flatten_imbalance-reduces pair near far b h =
      let reference = str_append pair.pair_id ":repair" in
      end_of (flatten_imbalance ops ex pair near far b) (
        raising-Ends P Any (new_book (ops.get_positions b)) b _ h (λ book.
          ended (both_legs ops ex pair near far book b) (
            and_then-Ends Both Any Any
              (flatten_leg ops ex pair pair.near_symbol near reference (book, b)) _
              (flatten_leg-Ends pair pair.near_symbol near reference (book, b) h)
              (λ ids s u h1.
                and_then-Ends Both Any Any (flatten_leg ops ex pair pair.far_symbol far reference s)
                  _ (flatten_leg-Ends pair pair.far_symbol far reference s h1)
                  (λ more s1 u h2. (tt, h2))))))

  module _ (cancels : (id : Ident) (b : B) → P b → P (ops.cancel_order id b).1) where
    cancel_all-Ends : (ids : List Ident) (b : B) → P b → Ends P Any (cancel_all ops ex ids b)
    cancel_all-Ends [] b h = (tt, h)
    cancel_all-Ends (id ∷ ids) b h =
        and_then-Ends P Any Any (ops.cancel_order id b) _ (sent-Ends _ (cancels id b h))
          (λ u b1 v h1. cancel_all-Ends ids b1 h1)

    send_quietly-keeps :
        (rs : List (OrderRequest F)) (b : B) → All Closing rs → P b → P (send_quietly ops ex rs b)
    unfolding send_quietly
    send_quietly-keeps [] b c h = h
    send_quietly-keeps (r ∷ rs) b c h =
        send_quietly-keeps rs (ops.send_order (as_fak r) b).1 c.1 (sends (as_fak r) b c.0 h)

    roll_back-Ends :
        (near far : Tick F) (o : Order F) (p : ContractPosition F) (s : PositionBook F × B)
        → P s.1
        → Ends Both Any (roll_back ops ex near far o p s)
    roll_back-Ends near far o p s h =
        let side = opposite o.request.side in
        let volume = min_ℤ o.traded (held_against side p) in
        let reference = str_append o.request.reference ":rollback" in
        elim (Bool-cases (leb_ℤ volume (pos 0))) [
          | inl nothing ↦ rw nothing (tt, h)
          | inr held ↦ rw held (
              raising-Ends Both Any (tick_for near far o.request.symbol) s _ h (λ tick.
                and_then-Ends Both (All Closing) Any
                  (plan_reduction ex o.request.symbol o.request.exchange tick reference side volume
                    s)
                  _
                  (plan_reduction-Ends o.request.symbol o.request.exchange tick reference side
                    volume s h)
                  (λ children s1 c h1. (tt, send_quietly-keeps children s1.1 c h1))))
        ]

    roll_back_found-Ends :
        (near far : Tick F) (o : Option (Order F)) (s : PositionBook F × B)
        → P s.1
        → Ends Both Any (roll_back_found ops ex near far o s)
    roll_back_found-Ends near far none s h = (tt, h)
    roll_back_found-Ends near far (some o) (book, b) h =
        elim (Bool-cases (leb_ℤ o.traded (pos 0) || not (is_opening o.request.offset))) [
          | inl skipped ↦ rw skipped (tt, h)
          | inr filled ↦ rw filled (
              and_then-Ends Both Any Any
                (with_book (get o.request.symbol o.request.exchange book) b) _
                (Any-Ends (get o.request.symbol o.request.exchange book) b h)
                (λ p s u h1. roll_back-Ends near far o p s h1))
        ]

    roll_back_all-Ends :
        (near far : Tick F) (ids : List Ident) (s : PositionBook F × B)
        → P s.1
        → Ends Both Any (roll_back_all ops ex near far ids s)
    roll_back_all-Ends near far [] s h = (tt, h)
    roll_back_all-Ends near far (id ∷ ids) s h =
        and_then-Ends Both Any Any (roll_back_found ops ex near far (ops.get_order id s.1) s) _
          (roll_back_found-Ends near far (ops.get_order id s.1) s h)
          (λ u s1 v h1. roll_back_all-Ends near far ids s1 h1)

    -- Whatever the broker does, and wherever it raises: all that the rollback of a half-submitted pair
    -- does to it is to cancel, and to send orders that do not open, so that what these keep is kept.
    pub rollback_submitted-reduces :
        (ids : List Ident) (near far : Tick F) (b : B)
        → P b
        → P (rollback_submitted ops ex ids near far b).1
    unfolding rollback_submitted
    rollback_submitted-reduces ids near far b h =
        end_of (rollback_submitted ops ex ids near far b) (
          and_then-Ends P Any Any (cancel_all ops ex ids b) _ (cancel_all-Ends ids b h)
            (λ u b1 v h1. raising-Ends P Any (new_book (ops.get_positions b1)) b1 _ h1 (λ book.
              ended (roll_back_all ops ex near far ids (book, b1))
                (roll_back_all-Ends near far ids (book, b1) h1))))

-- ===== src/Sim/Accounts.antt =====
-- The books of the simulated broker agree: positions with trades, and orders with trades.
use afuture.Prelude.{
  ℕ, ◌≤◌, Bool, true, false, not, ◌&&◌, ◌||◌, ◌≡◌, refl, sym, ◌∙◌, ap, inl, inr, Bool-cases, Option,
  none, some, List, [], ◌∷◌, ◌++◌, Result, ok, err, IsOk, if◌then◌else◌, or_else,
}
use afuture.Prelude.Int.{ℤ, pos, ◌+ℤ◌, ltb_ℤ, int_laws}
use afuture.Dict.{Dict, Key, key_eq, string_eq, lookup, insert, lookup-insert}
use afuture.Float.{FloatOps}
use afuture.Fees.{calculate_commission}
use afuture.Models.{
  Error, Ident, ident_eq, ident_beq, ident_beq_iff, Order, Trade, Tick, ContractSpec, cancelled,
  active, is_ioc,
}
use afuture.Position.Book.{PositionBook, apply_trade}
use afuture.Position.Ledger.{net_at, signed_for, signed_sum, net-apply_trade}
use afuture.Sim.State.{SimConfig, SimState, continue, Method}
use afuture.Sim.Matching.{
  filled_order, trade_of, before_trade, settle_trade, fill, fill_with, match_depth, match_tick,
  match_order, cancel_remainder,
}

assoc : (a b c : ℤ) → a +ℤ (b +ℤ c) ≡ a +ℤ b +ℤ c
assoc a b c = omega int_laws

no_change : (a : ℤ) → a ≡ a +ℤ pos 0
no_change a = omega int_laws

either : (b : Bool) → (if b then pos 0 else pos 0) ≡ pos 0
either true = refl
either false = refl

module _ {F : Type 0} where
  abbrev pub traded_of : Option (Order F) → ℤ
  traded_of none = pos 0
  traded_of (some o) = o.traded

  abbrev pub volume_for : Ident → Trade F → ℤ
  volume_for id t = if ident_beq t.order_id id then t.volume else pos 0

  abbrev pub volume_sum : Ident → List (Trade F) → ℤ
  volume_sum id [] = pos 0
  volume_sum id (t ∷ ts) = volume_for id t +ℤ volume_sum id ts

  -- The trades account for the positions and for the orders, and no id is used ahead of its turn.
  pub record Balanced (st : SimState F) : Type 0 where
    pub net : (key : Key) → net_at key st.book ≡ signed_sum key st.trades
    pub traded : (id : Ident) → traded_of (lookup id st.orders) ≡ volume_sum id st.trades
    pub fresh : (n : ℕ) → st.next_order_sequence ≤ n → lookup (Ident.sim_order n) st.orders ≡ none

  -- `P` holds of the state that a call returns, if it does not raise.
  abbrev pub Holds : {A : Type 0} → (SimState F → Type 0) → Result Error A × SimState F → Type 0
  Holds P (ok _, st) = P st
  Holds P (err _, st) = Unit

  pub continue-Holds :
      {A B : Type 0} (P : SimState F → Type 0) (r : Result Error A × SimState F) (next : Method F B)
      → Holds P r
      → ((st : SimState F) → P st → Holds P (next st))
      → Holds P (continue r next)
  continue-Holds P (ok _, st) next h k = k st h
  continue-Holds P (err e, st) next h k = tt

  signed_sum-snoc :
      (key : Key) (ts : List (Trade F)) (t : Trade F)
      → signed_sum key (ts ++ t ∷ []) ≡ signed_sum key ts +ℤ signed_for key t
  signed_sum-snoc key [] t = omega int_laws
  signed_sum-snoc key (u ∷ ts) t =
      ap (λ s. signed_for key u +ℤ s) (signed_sum-snoc key ts t) ∙ assoc _ _ _

  volume_sum-snoc :
      (id : Ident) (ts : List (Trade F)) (t : Trade F)
      → volume_sum id (ts ++ t ∷ []) ≡ volume_sum id ts +ℤ volume_for id t
  volume_sum-snoc id [] t = omega int_laws
  volume_sum-snoc id (u ∷ ts) t =
      ap (λ s. volume_for id u +ℤ s) (volume_sum-snoc id ts t) ∙ assoc _ _ _

  -- Storing an order again under an id that is in the table uses no new id.
  fresh-insert :
      (o o' : Order F) (n : ℕ) (d : Dict Ident (Order F))
      → lookup o.order_id d ≡ some o
      → lookup (Ident.sim_order n) d ≡ none
      → lookup (Ident.sim_order n) (insert o.order_id o' d) ≡ none
  fresh-insert o o' n d found absent =
      elim (Bool-cases (ident_beq o.order_id (Ident.sim_order n))) [
        | inl same ↦
            cc (ap (λ id. lookup id d) ((ident_beq_iff o.order_id (Ident.sim_order n)).0 same))
        | inr other ↦ simp (lookup-insert, other) absent
      ]

  -- The traded volume of an order after a fill, by id.
  traded-insert :
      (o o' : Order F) (v : ℤ) (id : Ident) (d : Dict Ident (Order F))
      → lookup o.order_id d ≡ some o
      → o'.traded ≡ o.traded +ℤ v
      → traded_of (lookup id (insert o.order_id o' d))
        ≡ traded_of (lookup id d) +ℤ (if ident_beq o.order_id id then v else pos 0)
  traded-insert o o' v id d found more =
      rw (lookup-insert o.order_id id o' d) (elim (Bool-cases (ident_beq o.order_id id)) [
        | inl same ↦ rw same (
            more
            ∙ ap (λ t. t +ℤ v)
                (ap traded_of (sym found)
                  ∙ ap (λ i. traded_of (lookup i d)) ((ident_beq_iff o.order_id id).0 same)))
        | inr other ↦ rw other (no_change (traded_of (lookup id d)))
      ])

module _ {F : Type 0} ⦃fl : FloatOps F⦄ where
  filled_order-traded : (v : ℤ) (x : F) (o : Order F) → (filled_order v x o).traded ≡ o.traded +ℤ v
  unfolding filled_order
  filled_order-traded v x o = refl

  -- A fill that the book takes adds the same volume to the order, to the position and to the trades.
  fill-Balanced :
      (spec : ContractSpec F) (o : Order F) (tick : Tick F) (v : ℤ) (x : F) (st : SimState F)
      → lookup o.order_id st.orders ≡ some o
      → Balanced st
      → Holds Balanced (fill spec o tick v x st)
  unfolding fill
  fill-Balanced spec o tick v x st found h =
      booked (apply_trade trade st.book) (λ key. net-apply_trade key trade st.book)
    where
      trade : Trade F
      trade = trade_of st.next_trade_sequence o v x tick

      paid : Trade F
      paid = record trade {
        commission = calculate_commission spec trade.offset trade.price trade.volume;
      }

      booked :
          (r : Result Error F × PositionBook F)
          → ((key : Key) → IsOk r.0 → net_at key r.1 ≡ net_at key st.book +ℤ signed_for key trade)
          → Holds Balanced (settle_trade spec trade r (before_trade o v x st))
      booked (err e, book) taken = tt
      booked (ok points, book) taken = record {
        net = λ key.
            taken key tt
            ∙ ap (λ n. n +ℤ signed_for key trade) (h.net key)
            ∙ sym (signed_sum-snoc key st.trades paid);
        traded = λ id.
            traded-insert o (filled_order v x o) v id st.orders found (filled_order-traded v x o)
            ∙ ap (λ n. n +ℤ volume_for id trade) (h.traded id)
            ∙ sym (volume_sum-snoc id st.trades paid);
        fresh = λ n later. fresh-insert o (filled_order v x o) n st.orders found (h.fresh n later);
      }

  fill_with-Balanced :
      (cfg : SimConfig F) (o : Order F) (tick : Tick F) (d : ℤ × ℤ) (r : Option ℤ)
      (spec : Option (ContractSpec F)) (st : SimState F)
      → lookup o.order_id st.orders ≡ some o
      → Balanced st
      → Holds Balanced (fill_with cfg o tick d r spec st)
  fill_with-Balanced cfg o tick d none spec st found h = h
  fill_with-Balanced cfg o tick d (some v) none st found h = tt
  fill_with-Balanced cfg o tick d (some v) (some spec) st found h =
      fill-Balanced spec o tick v _ _ found
        (record { net = h.net; traded = h.traded; fresh = h.fresh })

  match_tick-Balanced :
      (cfg : SimConfig F) (o : Order F) (t : Option (Tick F)) (st : SimState F)
      → lookup o.order_id st.orders ≡ some o
      → Balanced st
      → Holds Balanced (match_tick cfg o t st)
  unfolding match_depth
  match_tick-Balanced cfg o none st found h = h
  match_tick-Balanced cfg o (some tick) st found h =
      let waits =
        cfg.conservative
        && ltb_ℤ st.tick_seq (or_else (lookup o.order_id st.eligible_seq) (pos 0)) in
      elim (Bool-cases (not (active o) || waits)) [
        | inl skipped ↦ rw skipped h
        | inr due ↦ rw due (
            fill_with-Balanced cfg o tick _ _ (lookup o.request.symbol cfg.specs) _ found
              (record { net = h.net; traded = h.traded; fresh = h.fresh }))
      ]

  pub match_order-Balanced :
      (cfg : SimConfig F) (o : Order F) (st : SimState F)
      → lookup o.order_id st.orders ≡ some o
      → Balanced st
      → Holds Balanced (match_order cfg o st)
  unfolding match_order
  match_order-Balanced cfg o st found h =
      match_tick-Balanced cfg o (lookup o.request.symbol st.ticks) st found h

  -- An order that is stored again with the same traded volume.
  pub restore-Balanced :
      (o : Order F) (st st' : SimState F)
      → lookup o.order_id st.orders ≡ some o
      → st'.orders ≡ insert o.order_id (record o { status = cancelled }) st.orders
      → st'.book ≡ st.book
      → st'.trades ≡ st.trades
      → st'.next_order_sequence ≡ st.next_order_sequence
      → Balanced st
      → Balanced st'
  restore-Balanced o st st' found orders book trades next h = record {
    net = λ key. rw (book, trades) (h.net key);
    traded = λ id.
        rw (orders, trades)
          (traded-insert o (record o { status = cancelled }) (pos 0) id st.orders found
              (no_change o.traded)
            ∙ ap (λ n. traded_of (lookup id st.orders) +ℤ n) (either (ident_beq o.order_id id))
            ∙ sym (no_change (traded_of (lookup id st.orders)))
            ∙ h.traded id);
    fresh = λ n later. rw orders (
        fresh-insert o (record o { status = cancelled }) n st.orders found
          (h.fresh n (rw next at later)));
  }

  pub cancel_remainder-Balanced :
      (r : Option (Order F)) (st : SimState F)
      → ((o : Order F) → r ≡ some o → lookup o.order_id st.orders ≡ some o)
      → Balanced st
      → Balanced (cancel_remainder r st)
  cancel_remainder-Balanced none st found h = h
  cancel_remainder-Balanced (some o) st found h =
      elim (Bool-cases (is_ioc o.request.order_type && active o)) [
        | inl ends ↦ rw ends (restore-Balanced o st _ (found o refl) refl refl refl refl h)
        | inr stays ↦ rw stays h
      ]

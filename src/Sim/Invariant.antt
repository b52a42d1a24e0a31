-- ===== src/Sim/Invariant.antt =====
-- Every operation of the simulated broker keeps its order table and its depth well formed.
use afuture.Prelude.{
  known, String, Bool, false, not, ◌||◌, ◌≡◌, refl, inl, inr, Bool-cases, arith, Option, none, some,
  List, [], ◌∷◌, Result, ok, err, or_else,
}
use afuture.Prelude.Int.{ℤ, pos, ◌<ℤ◌, leb_ℤ, eqb_ℤ}
use afuture.Prelude.Text.{str_eq}
use afuture.Dict.{string_eq, lookup, All-insert}
use afuture.Float.{FloatOps, fzero}
use afuture.Models.{
  Error, not_traded, Ident, ident_eq, OrderRequest, Order, active, Tick, cancelled,
}
use afuture.Position.Book.{PositionBook, roll_trading_day}
use afuture.Sim.State.{SimConfig, SimState, continue, continue_with, Method}
use afuture.Sim.Matching.{match_order}
use afuture.Sim.Days.{end_day, settle_day, bad_equity, apply_trading_day}
use afuture.Sim.Session.{
  match_found, match_one, match_all, ids_of, match_symbol, show_tick, apply_tick, publish_tick,
  accept_order, match_new, place, send_order, cancel_order, cancel_found, completed_equity,
  tick_day, publish_on,
}
use afuture.Sim.Fills.{OrderOk}
use afuture.Sim.Lifecycle.{
  EntryOk, DepthOk, SimOk, shown-DepthOk, match_order-keeps, cancel_ioc_remainder-keeps,
  found-OrderOk, cancelled-OrderOk, store-EntryOk,
}

pub volume_of : (v : ℤ) (worthless : Bool) → (leb_ℤ v (pos 0) || worthless) ≡ false → pos 0 <ℤ v
volume_of v worthless h = ground arith

module _ {F : Type 0} where
  pub continue-SimOk :
      {A B : Type 0} (r : Result Error A × SimState F) (next : Method F B)
      → SimOk r.1
      → ((st : SimState F) → SimOk st → SimOk (next st).1)
      → SimOk (continue r next).1
  continue-SimOk (ok _, st) next h k = k st h
  continue-SimOk (err e, st) next h k = h

  continue_with-SimOk :
      {A B : Type 0} (r : Result Error A) (st : SimState F) (next : A → Method F B)
      → SimOk st
      → ((a : A) → SimOk (next a st).1)
      → SimOk (continue_with r st next).1
  continue_with-SimOk (ok a) st next h k = k a
  continue_with-SimOk (err e) st next h k = h

module _ {F : Type 0} ⦃fl : FloatOps F⦄ where
  match_found-keeps :
      (cfg : SimConfig F) (symbol : String) (id : Ident) (r : Option (Order F)) (st : SimState F)
      → ((o : Order F) → r ≡ some o → OrderOk o)
      → SimOk st
      → SimOk (match_found cfg symbol id r st).1
  match_found-keeps cfg symbol id none st good h = h
  match_found-keeps cfg symbol id (some o) st good h =
      elim (Bool-cases (not (active o) || not (str_eq o.request.symbol symbol))) [
        | inl skipped ↦ rw skipped h
        | inr due ↦ rw due (
            continue-SimOk (match_order cfg o st) _ (match_order-keeps cfg o st (good o refl) h)
              (λ st' h'.
                elim (Bool-cases
                  (leb_ℤ (or_else (lookup id st'.eligible_seq) (pos 0)) st'.tick_seq)) [
                    | inl ripe ↦ rw ripe (cancel_ioc_remainder-keeps id st' h')
                    | inr early ↦ rw early h'
                  ]))
      ]

  pub match_one-keeps :
      (cfg : SimConfig F) (symbol : String) (id : Ident) (st : SimState F)
      → SimOk st
      → SimOk (match_one cfg symbol id st).1
  unfolding match_one
  match_one-keeps cfg symbol id st h =
      match_found-keeps cfg symbol id (lookup id st.orders) st
        (λ o found. found-OrderOk id st o h found) h

  match_all-keeps :
      (cfg : SimConfig F) (symbol : String) (ids : List Ident) (st : SimState F)
      → SimOk st
      → SimOk (match_all cfg symbol ids st).1
  unfolding match_all
  match_all-keeps cfg symbol [] st h = h
  match_all-keeps cfg symbol (id ∷ ids) st h =
      continue-SimOk (match_one cfg symbol id st) (match_all cfg symbol ids)
        (match_one-keeps cfg symbol id st h) (match_all-keeps cfg symbol ids)

  settle_day-keeps :
      (day : String) (equity : F) (r : Result Error (Unit {0}) × PositionBook F) (st : SimState F)
      → SimOk st
      → SimOk (settle_day day equity r st).1
  settle_day-keeps day equity (ok _, book) st h = record { orders = h.orders; depth = h.depth }
  settle_day-keeps day equity (err e, book) st h = record { orders = h.orders; depth = h.depth }

  end_day-keeps :
      (day : String) (equity : Option F) (st : SimState F)
      → SimOk st
      → SimOk (end_day day equity st).1
  end_day-keeps day none st h = h
  end_day-keeps day (some e) st h = elim (Bool-cases (bad_equity e)) [
    | inl bad ↦ rw bad h
    | inr good ↦ rw good (settle_day-keeps day e (roll_trading_day st.book) st h)
  ]

  pub apply_trading_day-keeps :
      (day : String) (equity : Option F) (st : SimState F)
      → SimOk st
      → SimOk (apply_trading_day day equity st).1
  unfolding apply_trading_day
  apply_trading_day-keeps day equity st h = elim (Bool-cases (str_eq st.trading_day "")) [
    | inl first ↦ rw first (record { orders = h.orders; depth = h.depth })
    | inr later ↦ elim (Bool-cases (str_eq day st.trading_day)) [
      | inl same ↦ rw (later, same) h
      | inr next ↦ rw (later, next) (end_day-keeps day equity st h)
    ]
  ]

  pub show_tick-keeps :
      (cfg : SimConfig F) (tick : Tick F) (st : SimState F)
      → SimOk st
      → SimOk (show_tick cfg tick st)
  unfolding show_tick
  show_tick-keeps cfg tick st h = record {
    orders = h.orders;
    depth = All-insert DepthOk tick.symbol _ st.depth (shown-DepthOk cfg tick.symbol tick) h.depth;
  }

  apply_tick-keeps :
      (cfg : SimConfig F) (tick : Tick F) (equity : Option F) (st : SimState F)
      → SimOk st
      → SimOk (apply_tick cfg tick equity st).1
  unfolding apply_tick match_symbol
  apply_tick-keeps cfg tick equity st h =
      continue-SimOk (apply_trading_day tick.trading_day equity st) _
        (apply_trading_day-keeps tick.trading_day equity st h)
        λ st1 h1.
          continue-SimOk (match_all cfg tick.symbol (ids_of st1.orders) (show_tick cfg tick st1)) _
            (match_all-keeps cfg tick.symbol (ids_of st1.orders) (show_tick cfg tick st1)
              (show_tick-keeps cfg tick st1 h1))
            (λ st2 h2. record { orders = h2.orders; depth = h2.depth })

  -- A tick, valid or not, whether it ends a trading day or not, and whether it returns or raises,
  -- leaves every order and every offered depth well formed.
  pub publish_tick-keeps :
      (cfg : SimConfig F) (tick : Tick F) (st : SimState F)
      → SimOk st
      → SimOk (publish_tick cfg tick st).1
  unfolding publish_tick
  publish_tick-keeps cfg tick st h =
      continue_with-SimOk (tick_day tick) st (publish_on cfg tick) h λ day.
        continue_with-SimOk (completed_equity cfg day st) st (apply_tick cfg tick) h
          (λ equity. apply_tick-keeps cfg tick equity st h)

  new-OrderOk :
      (id : Ident) (request : OrderRequest F)
      → pos 0 <ℤ request.volume
      → OrderOk (record {
        order_id = id;
        request = request;
        status = not_traded;
        traded = pos 0;
        average_price = fzero;
      })
  unfolding active
  new-OrderOk id request positive = record {
    volume_pos = positive;
    traded_nonneg = omega arith;
    traded_le = omega arith;
    active_open = λ live. positive;
    filled_all = λ done. cc;
    fok_whole = λ fok. inl (omega arith);
  }

  pub accept_order-keeps :
      (cfg : SimConfig F) (request : OrderRequest F) (st : SimState F)
      → pos 0 <ℤ request.volume
      → SimOk st
      → SimOk (accept_order cfg request st)
  unfolding accept_order
  accept_order-keeps cfg request st positive h =
      let id = Ident.sim_order st.next_order_sequence in
      record {
        orders =
            All-insert EntryOk id _ st.orders
              (record { own_id = refl; order = new-OrderOk id request positive }) h.orders;
        depth = h.depth;
      }

  match_new-keeps :
      (cfg : SimConfig F) (id : Ident) (r : Option (Order F)) (st : SimState F)
      → ((o : Order F) → r ≡ some o → OrderOk o)
      → SimOk st
      → SimOk (match_new cfg id r st).1
  match_new-keeps cfg id none st good h = h
  match_new-keeps cfg id (some o) st good h =
      continue-SimOk (match_order cfg o st) _ (match_order-keeps cfg o st (good o refl) h)
        (λ st' h'. cancel_ioc_remainder-keeps id st' h')

  place-keeps :
      (cfg : SimConfig F) (id : Ident) (st : SimState F) → SimOk st → SimOk (place cfg id st).1
  place-keeps cfg id st h =
      elim (Bool-cases (not cfg.conservative || eqb_ℤ cfg.latency_ticks (pos 0))) [
        | inl now ↦ rw now (
            continue-SimOk (match_new cfg id (lookup id st.orders) st) _
              (match_new-keeps cfg id (lookup id st.orders) st
                (λ o found. found-OrderOk id st o h found) h)
              (λ st' h'. h'))
        | inr later ↦ rw later h
      ]

  -- A request, accepted or refused, leaves every order and every offered depth well formed; also
  -- when the position book refuses the fill, and the call raises in the middle of a match.
  pub send_order-keeps :
      (cfg : SimConfig F) (request : OrderRequest F) (st : SimState F)
      → SimOk st
      → SimOk (send_order cfg request st).1
  unfolding send_order
  send_order-keeps cfg request st h = elim (Bool-cases (not st.started)) [
    | inl stopped ↦ rw stopped h
    | inr started ↦ elim (Bool-cases (not (known (lookup request.symbol cfg.specs)))) [
      | inl unknown ↦ rw (started, unknown) h
      | inr listed ↦ elim (Bool-cases (leb_ℤ request.volume (pos 0) || fl.le request.price fzero)) [
        | inl invalid ↦ rw (started, listed, invalid) h
        | inr valid ↦
            rw (started, listed, valid)
              (place-keeps cfg (Ident.sim_order st.next_order_sequence)
                (accept_order cfg request st)
                (accept_order-keeps cfg request st (volume_of request.volume _ valid) h))
      ]
    ]
  ]

  cancel_found-keeps :
      (r : Option (Order F)) (st : SimState F)
      → ((o : Order F) → r ≡ some o → OrderOk o)
      → SimOk st
      → SimOk (cancel_found r st)
  cancel_found-keeps none st good h = h
  cancel_found-keeps (some o) st good h = elim (Bool-cases (active o)) [
    | inl live ↦ rw live (record {
      orders =
          store-EntryOk o (record o { status = cancelled }) st refl
            (cancelled-OrderOk o (good o refl)) h.orders;
      depth = h.depth;
    })
    | inr ended ↦ rw ended h
  ]

  pub cancel_order-keeps : (id : Ident) (st : SimState F) → SimOk st → SimOk (cancel_order id st)
  unfolding cancel_order
  cancel_order-keeps id st h =
      cancel_found-keeps (lookup id st.orders) st (λ o found. found-OrderOk id st o h found) h

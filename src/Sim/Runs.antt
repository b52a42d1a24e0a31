-- ===== src/Sim/Runs.antt =====
-- Runs of the simulated broker: whatever is called, and as long as no call raises.
use afuture.Prelude.{
  known, ℕ, ◌+◌, ◌≤◌, false, not, ◌||◌, ◌≡◌, refl, sym, ◌∙◌, ap, inl, inr, Bool-cases, arith,
  Option, none, some, Result, ok, err, ◌==◌,
}
use afuture.Prelude.Int.{pos, leb_ℤ, eqb_ℤ}
use afuture.Dict.{string_eq, lookup, lookup-insert}
use afuture.Float.{FloatOps, fzero}
use afuture.Models.{
  Error, Ident, ident_eq, ident_beq, ident_beq_iff, OrderRequest, Order, Tick, active,
}
use afuture.Sim.State.{SimConfig, SimState, continue_with, Method}
use afuture.Sim.Days.{apply_trading_day}
use afuture.Sim.Session.{
  match_all, ids_of, match_symbol, show_tick, apply_tick, publish_tick, publish_on, tick_day,
  completed_equity, accept_order, match_new, place, send_order, cancel_order, cancel_found,
}
use afuture.Sim.Invariant.{
  apply_trading_day-keeps, show_tick-keeps, accept_order-keeps, cancel_order-keeps, volume_of,
}
use afuture.Sim.Accounts.{Balanced, Holds, continue-Holds, restore-Balanced, traded_of}
use afuture.Sim.Reconciled.{
  Good, Holds-Good, own_entry, apply_trading_day-Balanced, cancel_ioc_remainder-Good, matched-Good,
  match_all-Good,
}

other_number : (m n : ℕ) → m + 1 ≤ n → (m == n) ≡ false
other_number m n h = ground arith

module _ {F : Type 0} where
  continue_with-Holds :
      {A B : Type 0} (P : SimState F → Type 0) (r : Result Error A) (st : SimState F)
      (next : A → Method F B)
      → ((a : A) → Holds P (next a st))
      → Holds P (continue_with r st next)
  continue_with-Holds P (ok a) st next k = k a
  continue_with-Holds P (err e) st next k = tt

module _ {F : Type 0} ⦃fl : FloatOps F⦄ where
  apply_tick-Good :
      (cfg : SimConfig F) (tick : Tick F) (equity : Option F) (st : SimState F)
      → Good st
      → Holds Good (apply_tick cfg tick equity st)
  unfolding apply_tick match_symbol
  apply_tick-Good cfg tick equity st h =
      continue-Holds Good (apply_trading_day tick.trading_day equity st) _
        (Holds-Good _ (apply_trading_day-keeps tick.trading_day equity st h.0)
          (apply_trading_day-Balanced tick.trading_day equity st h.1))
        λ st1 h1.
          continue-Holds Good
            (match_all cfg tick.symbol (ids_of st1.orders) (show_tick cfg tick st1)) _
            (match_all-Good cfg tick.symbol (ids_of st1.orders) (show_tick cfg tick st1)
              (show_tick-keeps cfg tick st1 h1.0, shown st1 h1.1))
            (λ st2 h2. (
              record { orders = h2.0.orders; depth = h2.0.depth },
              record { net = h2.1.net; traded = h2.1.traded; fresh = h2.1.fresh },
            ))
    where
      shown : (st1 : SimState F) → Balanced st1 → Balanced (show_tick cfg tick st1)
      shown st1 b = unfold show_tick in record { net = b.net; traded = b.traded; fresh = b.fresh }

  pub publish_tick-Good :
      (cfg : SimConfig F) (tick : Tick F) (st : SimState F)
      → Good st
      → Holds Good (publish_tick cfg tick st)
  unfolding publish_tick
  publish_tick-Good cfg tick st h =
      continue_with-Holds Good (tick_day tick) st (publish_on cfg tick) λ day.
        continue_with-Holds Good (completed_equity cfg day st) st (apply_tick cfg tick)
          (λ equity. apply_tick-Good cfg tick equity st h)

  accept_order-Balanced :
      (cfg : SimConfig F) (request : OrderRequest F) (st : SimState F)
      → Balanced st
      → Balanced (accept_order cfg request st)
  unfolding accept_order
  accept_order-Balanced cfg request st h = record {
    net = h.net;
    traded = λ i.
        rw (lookup-insert (Ident.sim_order st.next_order_sequence) i _ st.orders)
          (elim (Bool-cases (ident_beq (Ident.sim_order st.next_order_sequence) i)) [
            | inl same ↦ rw same (
                sym (
                  ap traded_of (
                    ap (λ j. lookup j st.orders) (sym ((ident_beq_iff _ i).0 same))
                    ∙ h.fresh st.next_order_sequence (omega arith)))
                ∙ h.traded i)
            | inr other ↦ rw other (h.traded i)
          ]);
    fresh = λ n later.
        rw (lookup-insert (Ident.sim_order st.next_order_sequence) (Ident.sim_order n) _ st.orders)
          (rw (other_number st.next_order_sequence n (omega arith)) (h.fresh n (omega arith)));
  }

  match_new-Good :
      (cfg : SimConfig F) (id : Ident) (r : Option (Order F)) (st : SimState F)
      → lookup id st.orders ≡ r
      → Good st
      → Holds Good (match_new cfg id r st)
  match_new-Good cfg id none st found h = h
  match_new-Good cfg id (some o) st found h =
      continue-Holds Good _ _ (matched-Good cfg id o st h found)
        (λ st' h'. cancel_ioc_remainder-Good id st' h')

  place-Good :
      (cfg : SimConfig F) (id : Ident) (st : SimState F) → Good st → Holds Good (place cfg id st)
  place-Good cfg id st h =
      elim (Bool-cases (not cfg.conservative || eqb_ℤ cfg.latency_ticks (pos 0))) [
        | inl now ↦ rw now (
            continue-Holds Good (match_new cfg id (lookup id st.orders) st) _
              (match_new-Good cfg id (lookup id st.orders) st refl h) (λ st' h'. h'))
        | inr later ↦ rw later h
      ]

  pub send_order-Good :
      (cfg : SimConfig F) (request : OrderRequest F) (st : SimState F)
      → Good st
      → Holds Good (send_order cfg request st)
  unfolding send_order
  send_order-Good cfg request st h = elim (Bool-cases (not st.started)) [
    | inl stopped ↦ rw stopped tt
    | inr started ↦ elim (Bool-cases (not (known (lookup request.symbol cfg.specs)))) [
      | inl unknown ↦ rw (started, unknown) tt
      | inr listed ↦ elim (Bool-cases (leb_ℤ request.volume (pos 0) || fl.le request.price fzero)) [
        | inl invalid ↦ rw (started, listed, invalid) tt
        | inr valid ↦
            rw (started, listed, valid)
              (place-Good cfg (Ident.sim_order st.next_order_sequence) (accept_order cfg request st)
                (
                  accept_order-keeps cfg request st (volume_of request.volume _ valid) h.0,
                  accept_order-Balanced cfg request st h.1,
                ))
      ]
    ]
  ]

  cancel_found-Balanced :
      (r : Option (Order F)) (st : SimState F)
      → ((o : Order F) → r ≡ some o → lookup o.order_id st.orders ≡ some o)
      → Balanced st
      → Balanced (cancel_found r st)
  cancel_found-Balanced none st found h = h
  cancel_found-Balanced (some o) st found h = elim (Bool-cases (active o)) [
    | inl live ↦ rw live (restore-Balanced o st _ (found o refl) refl refl refl refl h)
    | inr ended ↦ rw ended h
  ]

  pub cancel_order-Good : (id : Ident) (st : SimState F) → Good st → Good (cancel_order id st)
  unfolding cancel_order
  cancel_order-Good id st h = (
    cancel_order-keeps id st h.0,
    cancel_found-Balanced (lookup id st.orders) st (λ o found. own_entry id o st h.0 found) h.1,
  )

-- ===== src/Sim/Calls.antt =====
-- Sequences of calls of the simulated broker, and what holds after every one of them.
use afuture.Prelude.{refl, List, [], ◌∷◌, Result, ok, err, IsOk}
use afuture.Dict.{string_eq, lookup}
use afuture.Float.{FloatOps}
use afuture.Models.{Error, Ident, ident_eq, OrderRequest, Tick}
use afuture.Sim.State.{SimConfig, SimState, continue, Method, new_sim, start}
use afuture.Sim.Session.{publish_tick, send_order, cancel_order, poll_events}
use afuture.Sim.Lifecycle.{SimOk}
use afuture.Sim.Invariant.{continue-SimOk, publish_tick-keeps, send_order-keeps, cancel_order-keeps}
use afuture.Sim.Accounts.{Balanced, Holds, continue-Holds}
use afuture.Sim.Reconciled.{Good}
use afuture.Sim.Runs.{publish_tick-Good, send_order-Good, cancel_order-Good}

pub data Call (F : Type 0) : Type 0 where
  start_call : Call F
  send_call : OrderRequest F → Call F
  cancel_call : Ident → Call F
  tick_call : Tick F → Call F
  poll_call : Call F

module _ {F : Type 0} ⦃fl : FloatOps F⦄ where
  unfoldable pub call : SimConfig F → Call F → Method F (Unit {0})
  call cfg start_call st = (ok tt, start st)
  call cfg (send_call request) st = continue (send_order cfg request st) (λ st'. (ok tt, st'))
  call cfg (cancel_call id) st = (ok tt, cancel_order id st)
  call cfg (tick_call tick) st = publish_tick cfg tick st
  call cfg poll_call st = (ok tt, (poll_events st).1)

  -- A caller that catches what is raised, and goes on.
  unfoldable pub run_all : SimConfig F → List (Call F) → SimState F → SimState F
  run_all cfg [] st = st
  run_all cfg (c ∷ cs) st = run_all cfg cs (call cfg c st).1

  -- A caller that stops where a call raises.
  unfoldable pub run_until : SimConfig F → List (Call F) → Method F (Unit {0})
  run_until cfg [] st = (ok tt, st)
  run_until cfg (c ∷ cs) st = continue (call cfg c st) (run_until cfg cs)

  call-keeps :
      (cfg : SimConfig F) (c : Call F) (st : SimState F) → SimOk st → SimOk (call cfg c st).1
  unfolding call start poll_events
  call-keeps cfg start_call st h = record { orders = h.orders; depth = h.depth }
  call-keeps cfg (send_call request) st h =
      continue-SimOk (send_order cfg request st) _ (send_order-keeps cfg request st h)
        (λ st' h'. h')
  call-keeps cfg (cancel_call id) st h = cancel_order-keeps id st h
  call-keeps cfg (tick_call tick) st h = publish_tick-keeps cfg tick st h
  call-keeps cfg poll_call st h = record { orders = h.orders; depth = h.depth }

  run_all-keeps :
      (cfg : SimConfig F) (cs : List (Call F)) (st : SimState F)
      → SimOk st
      → SimOk (run_all cfg cs st)
  unfolding run_all
  run_all-keeps cfg [] st h = h
  run_all-keeps cfg (c ∷ cs) st h = run_all-keeps cfg cs (call cfg c st).1 (call-keeps cfg c st h)

  -- After any sequence of calls on a new broker, also where some of them raised: every order is
  -- stored under its own id, its traded volume is within its volume, equal to it if the order is
  -- filled, below it while the order is active, and all or nothing for FOK; and what the table holds of
  -- the depth of each contract is not negative.
  pub run_all-SimOk :
      (cfg : SimConfig F) (cs : List (Call F)) (capital : F)
      → SimOk (run_all cfg cs (new_sim capital))
  run_all-SimOk cfg cs capital =
      run_all-keeps cfg cs (new_sim capital) (unfold new_sim in record { orders = tt; depth = tt })

  call-Good :
      (cfg : SimConfig F) (c : Call F) (st : SimState F) → Good st → Holds Good (call cfg c st)
  unfolding call start poll_events
  call-Good cfg start_call st (s, b) = (
    record { orders = s.orders; depth = s.depth },
    record { net = b.net; traded = b.traded; fresh = b.fresh },
  )
  call-Good cfg (send_call request) st h =
      continue-Holds Good (send_order cfg request st) _ (send_order-Good cfg request st h)
        (λ st' h'. h')
  call-Good cfg (cancel_call id) st h = cancel_order-Good id st h
  call-Good cfg (tick_call tick) st h = publish_tick-Good cfg tick st h
  call-Good cfg poll_call st (s, b) = (
    record { orders = s.orders; depth = s.depth },
    record { net = b.net; traded = b.traded; fresh = b.fresh },
  )

  run_until-Good :
      (cfg : SimConfig F) (cs : List (Call F)) (st : SimState F)
      → Good st
      → Holds Good (run_until cfg cs st)
  unfolding run_until
  run_until-Good cfg [] st h = h
  run_until-Good cfg (c ∷ cs) st h =
      continue-Holds Good (call cfg c st) (run_until cfg cs) (call-Good cfg c st h)
        (run_until-Good cfg cs)

  new_sim-Good : (capital : F) → Good (new_sim capital)
  unfolding new_sim lookup
  new_sim-Good capital = (
    record { orders = tt; depth = tt },
    record { net = λ key. refl; traded = λ id. refl; fresh = λ n later. refl },
  )

  returned-Balanced :
      (r : Result Error (Unit {0}) × SimState F) → Holds Good r → IsOk r.0 → Balanced r.1
  returned-Balanced (ok _, st) h k = h.1
  returned-Balanced (err e, st) h k = absurd k

  -- After any sequence of calls on a new broker none of which raised, the net position of every
  -- contract is the signed sum of the recorded trades, the traded volume of every order is the sum
  -- of its own trades, and no order id is used ahead of its turn. A new trading day changes none.
  pub run_until-Balanced :
      (cfg : SimConfig F) (cs : List (Call F)) (capital : F)
      → IsOk (run_until cfg cs (new_sim capital)).0
      → Balanced (run_until cfg cs (new_sim capital)).1
  run_until-Balanced cfg cs capital =
      returned-Balanced (run_until cfg cs (new_sim capital))
        (run_until-Good cfg cs (new_sim capital) (new_sim-Good capital))

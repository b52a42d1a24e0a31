-- ===== src/Economics.antt =====
-- economics.py: the executable spreads of a pair and the net edge of a round trip.
use afuture.Prelude.{
  String, true, false, ◌≡◌, refl, ◌⊎◌, ◌↔◌, inl, inr, Bool-cases, Option, none, some, Result, ok,
  err, IsOk, if◌then◌else◌, known,
}
use afuture.Prelude.Int.{ℤ, pos, leb_ℤ, max_ℤ}
use afuture.Dict.{Dict, string_eq, lookup}
use afuture.Float.{FloatOps, fzero, fmin, fmax}
use afuture.Models.{
  Error, unknown_contract, bad_limit, opening, close, close_today, SignalAction, long_spread,
  short_spread, ContractSpec, Tick,
}
use afuture.Fees.{calculate_commission}

pub record EdgeEstimate (F : Type 0) : Type 0 where
  pub executable_spread : F
  pub gross_edge : F
  pub transaction_cost : F
  pub legging_buffer : F
  pub total_cost : F
  pub net_edge : F

module _ {F : Type 0} ⦃fl : FloatOps F⦄ where
  abbrev two : F
  two = fl.of_int (pos 2)

  -- The property `Tick.mid_price`.
  abbrev pub mid_price : Tick F → F
  mid_price tick = fl.div (fl.add tick.bid_price tick.ask_price) two

  -- The spreads at which the pair can be bought and sold.
  abbrev pub executable_spreads : Tick F → Tick F → F × F
  executable_spreads near far =
      (fl.sub near.ask_price far.bid_price, fl.sub near.bid_price far.ask_price)

  -- The executable spread and the points to the mean.
  abbrev pub spread_points : SignalAction → F → F × F → F × F
  spread_points long_spread mean (long, short) = (long, fl.sub mean long)
  spread_points short_spread mean (long, short) = (short, fl.sub short mean)
  spread_points _ mean (long, short) = (fl.div (fl.add long short) two, fzero)

  -- Opening and the dearer of the two ways to close.
  abbrev pub round_trip : ContractSpec F → F → ℤ → F
  round_trip spec price volume = fl.add (calculate_commission spec opening price volume) (
      fmax (calculate_commission spec close price volume)
        (calculate_commission spec close_today price volume))

  abbrev pub slippage_cost : ContractSpec F → ContractSpec F → ℤ → ℤ → F
  slippage_cost near_spec far_spec volume slippage_ticks =
      fl.mul (fl.mul (fl.mul two (fl.of_int (max_ℤ (pos 0) slippage_ticks))) (fl.of_int volume)) (
        fl.add (fl.mul near_spec.price_tick near_spec.multiplier)
          (fl.mul far_spec.price_tick far_spec.multiplier))

  abbrev pub buffer_cost : F → F → F
  buffer_cost legging_buffer cost_multiplier = fl.mul (fmax fzero legging_buffer) cost_multiplier

  -- The estimate without volume: the buffer alone.
  abbrev pub idle_edge : F → EdgeEstimate F
  idle_edge buffer = record {
    executable_spread = fzero;
    gross_edge = fzero;
    transaction_cost = fzero;
    legging_buffer = buffer;
    total_cost = buffer;
    net_edge = fl.neg buffer;
  }

  abbrev pub edge_of :
      SignalAction
      → F
      → Tick F
      → Tick F
      → ℤ
      → ℤ
      → F
      → F
      → Option (ContractSpec F)
      → Option (ContractSpec F)
      → Result Error (EdgeEstimate F)
  edge_of action mean near far volume slippage_ticks buffer cost_multiplier none far_spec =
      err unknown_contract
  edge_of action mean near far volume slippage_ticks buffer cost_multiplier (some near_spec) none =
      err unknown_contract
  edge_of action mean near far volume slippage_ticks buffer cost_multiplier (some near_spec)
        (some far_spec) =
      let spread = spread_points action mean (executable_spreads near far) in
      let gross =
        fl.mul (fl.mul (fmax fzero spread.1) (fmin near_spec.multiplier far_spec.multiplier))
          (fl.of_int volume) in
      let commission =
        fl.add (fl.add fzero (round_trip near_spec (mid_price near) volume))
          (round_trip far_spec (mid_price far) volume) in
      let transaction =
        fl.mul (fl.add commission (slippage_cost near_spec far_spec volume slippage_ticks))
          cost_multiplier in
      let total = fl.add transaction buffer in
      ok (record {
        executable_spread = spread.0;
        gross_edge = gross;
        transaction_cost = transaction;
        legging_buffer = buffer;
        total_cost = total;
        net_edge = fl.sub gross total;
      })

  -- `estimate_net_edge`
  unfoldable pub estimate_net_edge :
      SignalAction
      → F
      → Tick F
      → Tick F
      → Dict String (ContractSpec F)
      → ℤ
      → ℤ
      → F
      → F
      → Result Error (EdgeEstimate F)
  estimate_net_edge action mean near far specs volume slippage_ticks legging_buffer
        cost_multiplier =
      let buffer = buffer_cost legging_buffer cost_multiplier in
      if fl.le cost_multiplier fzero
      then err bad_limit
      else if leb_ℤ volume (pos 0)
      then ok (idle_edge buffer)
      else edge_of action mean near far volume slippage_ticks buffer cost_multiplier
          (lookup near.symbol specs) (lookup far.symbol specs)

  edge_of-IsOk :
      (action : SignalAction) (mean : F) (near far : Tick F) (volume slippage_ticks : ℤ)
      (buffer cost_multiplier : F) (p q : Option (ContractSpec F))
      → IsOk (edge_of action mean near far volume slippage_ticks buffer cost_multiplier p q)
        ↔ ((known p ≡ true) × (known q ≡ true))
  edge_of-IsOk action mean near far volume slippage_ticks buffer cost_multiplier none q =
      (λ h. absurd h, λ h. cc (h.0))
  edge_of-IsOk action mean near far volume slippage_ticks buffer cost_multiplier (some p) none =
      (λ h. absurd h, λ h. cc (h.1))
  edge_of-IsOk action mean near far volume slippage_ticks buffer cost_multiplier (some p) (some q) =
      (λ h. (refl, refl), λ h. tt)

  -- The net edge of a round trip is estimated exactly where the cost multiplier is not 0.0 or less and,
  -- for a positive volume, both contracts are known: nothing else raises.
  estimate_net_edge-IsOk :
      (action : SignalAction) (mean : F) (near far : Tick F) (specs : Dict String (ContractSpec F))
      (volume slippage_ticks : ℤ) (legging_buffer cost_multiplier : F)
      → IsOk (
          estimate_net_edge action mean near far specs volume slippage_ticks legging_buffer
            cost_multiplier)
        ↔ ((fl.le cost_multiplier fzero ≡ false)
            × ((leb_ℤ volume (pos 0) ≡ true)
                ⊎ ((known (lookup near.symbol specs) ≡ true)
                    × (known (lookup far.symbol specs) ≡ true))))
  unfolding estimate_net_edge
  estimate_net_edge-IsOk action mean near far specs volume slippage_ticks legging_buffer
        cost_multiplier =
      elim (Bool-cases (fl.le cost_multiplier fzero)) [
        | inl bad ↦ rw bad (λ h. absurd h, λ h. cc (h.0))
        | inr good ↦ elim (Bool-cases (leb_ℤ volume (pos 0))) [
          | inl empty ↦ rw (good, empty) (λ h. (refl, inl refl), λ h. tt)
          | inr sized ↦
              let e =
                edge_of-IsOk action mean near far volume slippage_ticks
                  (buffer_cost legging_buffer cost_multiplier) cost_multiplier
                  (lookup near.symbol specs) (lookup far.symbol specs) in
              rw (good, sized) (λ h. (refl, inr (e.0 h)), λ h. e.1 (either h.1))
        ]
      ]
    where
      either : {P : Type 0} → (false ≡ true) ⊎ P → P
      either (inl h) = cc h
      either (inr p) = p

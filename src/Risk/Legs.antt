-- ===== src/Risk/Legs.antt =====
-- The gate of a pair's two legs against the gate of a single contract.
use mathlib.Core.Path.{subst}
use afuture.Prelude.{
  String, Bool, true, false, ◌||◌, ◌≡◌, refl, sym, ◌∙◌, ap, inl, inr, Bool-cases, arith, Option,
  none, some, List, [], ◌∷◌, if◌then◌else◌,
}
use afuture.Prelude.Int.{ℤ, pos, leb_ℤ, ltb_ℤ}
use afuture.Dict.{Dict, string_eq, lookup}
use afuture.Float.{FloatOps, FloatOrder, fmin-not_lt}
use afuture.Models.{
  OrderSide, buy, sell, SignalAction, long_spread, short_spread, Timestamp, Tick, bad_tick,
  ContractSpec, PairConfig, SessionWindow, RiskDecision, refuse,
}
use afuture.Risk.Config.{RiskConfig}
use afuture.Risk.Sessions.{LocalTime}
use afuture.Risk.Entry.{
  decide, later_of, check_quotes, too_wide, leg_depth, limit_refusal, tick_size, needed_depth,
  session_refusal, check_legs, check_market_entry, check_contract_entry,
}

-- Which sides the two legs of an opening signal trade.
pub data Opens : SignalAction → OrderSide → OrderSide → Type 0 where
  opens_long : Opens long_spread buy sell
  opens_short : Opens short_spread sell buy

decide-allowed :
    (r : Option String) (d : RiskDecision)
    → (decide r d).allowed ≡ true
    → (r ≡ none) × (d.allowed ≡ true)
decide-allowed none d h = (refl, h)
decide-allowed (some s) d h = cc

allowed_else :
    (b : Bool) (s : String) (d : RiskDecision)
    → (if b then refuse s else d).allowed ≡ true
    → (b ≡ false) × (d.allowed ≡ true)
allowed_else true s d h = cc
allowed_else false s d h = (refl, h)

later_of-same : (t : Timestamp) → later_of t t ≡ t
later_of-same t = rw (not_before t.instant) refl
  where
    not_before : (a : ℤ) → ltb_ℤ a a ≡ false
    not_before a = ground arith

module _ {F : Type 0} ⦃fl : FloatOps F⦄ where
  -- The tests that one leg passes.
  record LegFits (c : RiskConfig F) (size : F) (side : OrderSide) (tick : Tick F) (volume : ℤ)
      : Type 0 where
    narrow : too_wide c size tick ≡ false
    deep : fl.lt (leg_depth side tick) (needed_depth c volume) ≡ false
    far_from_limit : limit_refusal c size side tick ≡ none

  quoted :
      (c : RiskConfig F) (tick : Tick F)
      → (check_quotes c (tick ∷ []) tick.timestamp).allowed ≡ true
      → bad_tick tick ≡ false
  unfolding check_quotes
  quoted c tick h = elim (Bool-cases (bad_tick tick)) [
    | inl bad ↦ cc (rw bad at h)
    | inr good ↦ good
  ]

  finite_depth :
      (side : OrderSide) (tick : Tick F)
      → bad_tick tick ≡ false
      → fl.is_finite (leg_depth side tick) ≡ true
  unfolding bad_tick
  finite_depth buy tick h = ground arith
  finite_depth sell tick h = ground arith

module _ {F : Type 0} ⦃fl : FloatOps F⦄ (order : FloatOrder F fl)
    (clock : Timestamp → LocalTime) where
  check_legs-fit :
      (c : RiskConfig F) (pair : PairConfig F) (near far : Tick F) (near_side far_side : OrderSide)
      (volume : ℤ) (specs : Dict String (ContractSpec F))
      → bad_tick near ≡ false
      → bad_tick far ≡ false
      → (check_legs clock c pair near far near_side far_side volume specs).allowed ≡ true
      → (session_refusal c (clock (later_of near.timestamp far.timestamp)) pair.session_windows
          ≡ none)
        × LegFits c (tick_size (lookup near.symbol specs)) near_side near volume
        × LegFits c (tick_size (lookup far.symbol specs)) far_side far volume
  check_legs-fit c pair near far near_side far_side volume specs good_near good_far h =
      let in_session = decide-allowed _ _ h in
      let narrow = allowed_else _ _ _ in_session.1 in
      let deep = allowed_else _ _ _ narrow.1 in
      let near_limit = decide-allowed _ _ deep.1 in
      let far_limit = decide-allowed _ _ near_limit.1 in
      let depths =
        fmin-not_lt order (leg_depth near_side near) (leg_depth far_side far)
          (needed_depth c volume) (finite_depth near_side near good_near)
          (finite_depth far_side far good_far) deep.0 in
      let widths = neither _ _ narrow.0 in
      (
        in_session.0,
        record { narrow = widths.0; deep = depths.0; far_from_limit = near_limit.0 },
        record { narrow = widths.1; deep = depths.1; far_from_limit = far_limit.0 },
      )
    where
      neither : (a b : Bool) → (a || b) ≡ false → (a ≡ false) × (b ≡ false)
      neither a b h = ground arith

  leg-allowed :
      (c : RiskConfig F) (tick : Tick F) (side : OrderSide) (volume : ℤ) (spec : ContractSpec F)
      (windows : List SessionWindow)
      → leb_ℤ volume (pos 0) ≡ false
      → (check_quotes c (tick ∷ []) tick.timestamp).allowed ≡ true
      → session_refusal c (clock tick.timestamp) windows ≡ none
      → LegFits c spec.price_tick side tick volume
      → (check_contract_entry clock c tick side volume spec windows).allowed ≡ true
  unfolding check_contract_entry
  leg-allowed c tick side volume spec windows sized quotes session fits =
      rw (sized, quotes, session, fits.narrow, fits.deep, fits.far_from_limit) refl

  legs-allowed :
      (c : RiskConfig F) (pair : PairConfig F) (near far : Tick F) (near_side far_side : OrderSide)
      (volume : ℤ) (specs : Dict String (ContractSpec F)) (near_spec far_spec : ContractSpec F)
      → near.timestamp ≡ far.timestamp
      → lookup near.symbol specs ≡ some near_spec
      → lookup far.symbol specs ≡ some far_spec
      → (check_quotes c (near ∷ []) near.timestamp).allowed ≡ true
      → (check_quotes c (far ∷ []) far.timestamp).allowed ≡ true
      → leb_ℤ volume (pos 0) ≡ false
      → (check_legs clock c pair near far near_side far_side volume specs).allowed ≡ true
      → ((check_contract_entry clock c near near_side volume near_spec pair.session_windows).allowed
          ≡ true)
        × ((check_contract_entry clock c far far_side volume far_spec pair.session_windows).allowed
            ≡ true)
  legs-allowed c pair near far near_side far_side volume specs near_spec far_spec same near_found
        far_found near_quote far_quote sized h =
      let fits =
        check_legs-fit c pair near far near_side far_side volume specs (quoted c near near_quote)
          (quoted c far far_quote) h in
      let at_near : later_of near.timestamp far.timestamp ≡ near.timestamp =
        ap (later_of near.timestamp) (sym same) ∙ later_of-same near.timestamp in
      let session = subst InSession at_near fits.0 in
      (
        leg-allowed c near near_side volume near_spec pair.session_windows sized near_quote session
            (subst (λ s. LegFits c (tick_size s) near_side near volume) near_found fits.1),
        leg-allowed c far far_side volume far_spec pair.session_windows sized far_quote
            (subst InSession same session)
            (subst (λ s. LegFits c (tick_size s) far_side far volume) far_found fits.2),
      )
    where
      InSession : Timestamp → Type 0
      InSession t = session_refusal c (clock t) pair.session_windows ≡ none

  -- Where a pair may open, with both quotes valid and of one instant and both contracts known, each of
  -- its two legs passes the gate of a single contract, for the same volume and the same sessions:
  -- width, depth and distance to the daily limit, on the side that the signal trades the leg.
  pub check_market_entry-legs :
      (c : RiskConfig F) (pair : PairConfig F) (near far : Tick F) (action : SignalAction)
      (near_side far_side : OrderSide) (volume : ℤ) (specs : Dict String (ContractSpec F))
      (near_spec far_spec : ContractSpec F)
      → Opens action near_side far_side
      → near.timestamp ≡ far.timestamp
      → lookup near.symbol specs ≡ some near_spec
      → lookup far.symbol specs ≡ some far_spec
      → (check_quotes c (near ∷ []) near.timestamp).allowed ≡ true
      → (check_quotes c (far ∷ []) far.timestamp).allowed ≡ true
      → (check_market_entry clock c pair near far action volume specs).allowed ≡ true
      → ((check_contract_entry clock c near near_side volume near_spec pair.session_windows).allowed
          ≡ true)
        × ((check_contract_entry clock c far far_side volume far_spec pair.session_windows).allowed
            ≡ true)
  unfolding check_market_entry
  check_market_entry-legs c pair near far action near_side far_side volume specs near_spec far_spec
        opens_long same nf ff nq fq h =
      let sized = allowed_else _ _ _ h in
      legs-allowed c pair near far buy sell volume specs near_spec far_spec same nf ff nq fq sized.0
        sized.1
  check_market_entry-legs c pair near far action near_side far_side volume specs near_spec far_spec
        opens_short same nf ff nq fq h =
      let sized = allowed_else _ _ _ h in
      legs-allowed c pair near far sell buy volume specs near_spec far_spec same nf ff nq fq sized.0
        sized.1

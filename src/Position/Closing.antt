-- ===== src/Position/Closing.antt =====
-- Well-formed positions, and the fills that close them.
use afuture.Prelude.{
  Bool, true, false, ◌≡◌, >>-eq-ok, raise_if-eq-ok, ◌↔◌, ◌||◌, Bool-cases, inl, inr, arith, ok, err,
  raise_if, if◌then◌else◌, IsOk,
}
use afuture.Prelude.Int.{
  ℤ, pos, ◌+ℤ◌, ◌-ℤ◌, ◌≤ℤ◌, ◌<ℤ◌, ltb_ℤ, eqb_ℤ, min_ℤ, int_laws, min_ℤ_bounds, ltb_ℤ→lt, eqb_ℤ→eq,
  lt→ltb_ℤ, ge→ltb_ℤ,
}
use afuture.Prelude.Text.{is_blank}
use afuture.Float.{FloatOps, FloatOrder, fzero}
use afuture.Models.{
  is_opening, OrderSide, buy, sell, Offset, opening, close, close_today, close_yesterday,
  close_exceeds_bucket, blank_identity, bad_buckets, ContractPosition, long_total, short_total,
  validate_side, validate_position,
}
use afuture.Position.Book.{
  available, consume_long, consume_short, settle_long, settle_short, apply_close, realized_points,
  trade_position,
}

-- A close that its two buckets hold together leaves neither negative.
share_nonneg :
    (t y v : ℤ)
    → pos 0 ≤ℤ t
    → pos 0 ≤ℤ y
    → pos 0 <ℤ v
    → v ≤ℤ t +ℤ y
    → (pos 0 ≤ℤ t -ℤ (v -ℤ min_ℤ v y)) × (pos 0 ≤ℤ y -ℤ min_ℤ v y)
share_nonneg t y v ht hy pv fits = let (le_v, le_y, ge) = min_ℤ_bounds v y in omega int_laws

share_le : (t y v m : ℤ) → pos 0 <ℤ v → (t -ℤ (v -ℤ m)) +ℤ (y -ℤ m) ≤ℤ t +ℤ y
share_le t y v m pv = omega int_laws

add_nonneg : (a b : ℤ) → pos 0 ≤ℤ a → pos 0 ≤ℤ b → pos 0 ≤ℤ a +ℤ b
add_nonneg a b ha hb = omega int_laws

module _ {F : Type 0} ⦃fl : FloatOps F⦄ where
  -- What `validate` asks of one side: a price that is finite and not negative, and positive where
  -- the side is open.
  pub record IsPriced (price : F) (volume : ℤ) : Type 0 where
    pub finite : fl.is_finite price ≡ true
    pub not_negative : fl.lt price fzero ≡ false
    pub positive : pos 0 <ℤ volume → fl.le price fzero ≡ false

  pub record IsValid (p : ContractPosition F) : Type 0 where
    pub symbol_named : is_blank p.symbol ≡ false
    pub exchange_named : is_blank p.exchange ≡ false
    pub long_today : pos 0 ≤ℤ p.long_today
    pub long_yesterday : pos 0 ≤ℤ p.long_yesterday
    pub short_today : pos 0 ≤ℤ p.short_today
    pub short_yesterday : pos 0 ≤ℤ p.short_yesterday
    pub long_priced : IsPriced p.long_price (long_total p)
    pub short_priced : IsPriced p.short_price (short_total p)

  validate_side_iff : (x : F) (v : ℤ) → (validate_side x v ≡ ok tt) ↔ IsPriced x v
  unfolding validate_side
  validate_side_iff x v = (
    λ h. record {
      finite = ground arith;
      not_negative = ground arith;
      positive = λ open_side. ground arith;
    },
    λ h. elim (Bool-cases (ltb_ℤ (pos 0) v)) [
      | inl open_side ↦
          rw (h.finite, h.not_negative, open_side, h.positive (ltb_ℤ→lt (pos 0) v open_side))
      | inr flat ↦ rw (h.finite, h.not_negative, flat)
    ],
  )

  abbrev any_negative : ContractPosition F → Bool
  any_negative p =
      ltb_ℤ p.long_today (pos 0)
      || ltb_ℤ p.long_yesterday (pos 0)
      || ltb_ℤ p.short_today (pos 0)
      || ltb_ℤ p.short_yesterday (pos 0)

  -- `validate` accepts exactly the well-formed positions: named, no bucket negative, and each price
  -- finite, not negative, and positive where its side is open.
  pub validate_position_iff : (p : ContractPosition F) → (validate_position p ≡ ok tt) ↔ IsValid p
  unfolding validate_position
  validate_position_iff p = (
    λ h.
        let (named, h1) =
          >>-eq-ok (raise_if (is_blank p.symbol || is_blank p.exchange) blank_identity) _ h in
        let (counted, h2) = >>-eq-ok (raise_if (any_negative p) bad_buckets) _ h1 in
        let (long, short) = >>-eq-ok (validate_side p.long_price (long_total p)) _ h2 in
        let blank =
          raise_if-eq-ok (is_blank p.symbol || is_blank p.exchange) blank_identity named in
        let negative = raise_if-eq-ok (any_negative p) bad_buckets counted in
        record {
          symbol_named = ground arith;
          exchange_named = ground arith;
          long_today = ground arith;
          long_yesterday = ground arith;
          short_today = ground arith;
          short_yesterday = ground arith;
          long_priced = (validate_side_iff p.long_price (long_total p)).0 long;
          short_priced = (validate_side_iff p.short_price (short_total p)).0 short;
        },
    λ h.
        let long = (validate_side_iff p.long_price (long_total p)).1 h.long_priced in
        let short = (validate_side_iff p.short_price (short_total p)).1 h.short_priced in
        ground arith,
  )

  -- A price stays good when its side shrinks, since the price of an emptied side is reset.
  settle-IsPriced :
      FloatOrder F fl
      → (x : F) (before after : ℤ) → IsPriced x before
      → pos 0 ≤ℤ after
      → after ≤ℤ before
      → IsPriced (if eqb_ℤ after (pos 0) then fzero else x) after
  settle-IsPriced order x before after h nonneg shrinks = elim (Bool-cases (eqb_ℤ after (pos 0))) [
    | inl flat ↦ rw flat (record {
      finite = (order.small_finite 0 (omega arith));
      not_negative = order.lt_irrefl fzero;
      positive = λ open_side. absurd (omega (arith, eqb_ℤ→eq after flat));
    })
    | inr held ↦ rw held (record {
      finite = h.finite;
      not_negative = h.not_negative;
      positive = λ open_side. h.positive (omega arith);
    })
  ]

  -- The closing half keeps a position well formed, when the bucket holds the volume.
  close_long-IsValid :
      FloatOrder F fl
      → (o : Offset) (v : ℤ) (p : ContractPosition F) → IsValid p
      → pos 0 <ℤ v
      → is_opening o ≡ false
      → v ≤ℤ available sell o p
      → IsValid (settle_long (consume_long o v p))
  unfolding consume_long available
  close_long-IsValid order opening v p h pv c fits = cc
  close_long-IsValid order close_today v p h pv c fits = record {
    symbol_named = h.symbol_named;
    exchange_named = h.exchange_named;
    long_today = omega int_laws;
    long_yesterday = h.long_yesterday;
    short_today = h.short_today;
    short_yesterday = h.short_yesterday;
    long_priced =
        settle-IsPriced order p.long_price _ _ h.long_priced (omega int_laws) (omega int_laws);
    short_priced = h.short_priced;
  }
  close_long-IsValid order close_yesterday v p h pv c fits = record {
    symbol_named = h.symbol_named;
    exchange_named = h.exchange_named;
    long_today = h.long_today;
    long_yesterday = omega int_laws;
    short_today = h.short_today;
    short_yesterday = h.short_yesterday;
    long_priced =
        settle-IsPriced order p.long_price _ _ h.long_priced (omega int_laws) (omega int_laws);
    short_priced = h.short_priced;
  }
  close_long-IsValid order close v p h pv c fits =
      let m = min_ℤ v p.long_yesterday in
      let (today, yesterday) =
        share_nonneg p.long_today p.long_yesterday v h.long_today h.long_yesterday pv fits in
      record {
        symbol_named = h.symbol_named;
        exchange_named = h.exchange_named;
        long_today = today;
        long_yesterday = yesterday;
        short_today = h.short_today;
        short_yesterday = h.short_yesterday;
        long_priced =
            settle-IsPriced order p.long_price _ _ h.long_priced
              (add_nonneg (p.long_today -ℤ (v -ℤ m)) (p.long_yesterday -ℤ m) today yesterday)
              (share_le p.long_today p.long_yesterday v m pv);
        short_priced = h.short_priced;
      }

  close_short-IsValid :
      FloatOrder F fl
      → (o : Offset) (v : ℤ) (p : ContractPosition F) → IsValid p
      → pos 0 <ℤ v
      → is_opening o ≡ false
      → v ≤ℤ available buy o p
      → IsValid (settle_short (consume_short o v p))
  unfolding consume_short available
  close_short-IsValid order opening v p h pv c fits = cc
  close_short-IsValid order close_today v p h pv c fits = record {
    symbol_named = h.symbol_named;
    exchange_named = h.exchange_named;
    long_today = h.long_today;
    long_yesterday = h.long_yesterday;
    short_today = omega int_laws;
    short_yesterday = h.short_yesterday;
    long_priced = h.long_priced;
    short_priced =
        settle-IsPriced order p.short_price _ _ h.short_priced (omega int_laws) (omega int_laws);
  }
  close_short-IsValid order close_yesterday v p h pv c fits = record {
    symbol_named = h.symbol_named;
    exchange_named = h.exchange_named;
    long_today = h.long_today;
    long_yesterday = h.long_yesterday;
    short_today = h.short_today;
    short_yesterday = omega int_laws;
    long_priced = h.long_priced;
    short_priced =
        settle-IsPriced order p.short_price _ _ h.short_priced (omega int_laws) (omega int_laws);
  }
  close_short-IsValid order close v p h pv c fits =
      let m = min_ℤ v p.short_yesterday in
      let (today, yesterday) =
        share_nonneg p.short_today p.short_yesterday v h.short_today h.short_yesterday pv fits in
      record {
        symbol_named = h.symbol_named;
        exchange_named = h.exchange_named;
        long_today = h.long_today;
        long_yesterday = h.long_yesterday;
        short_today = today;
        short_yesterday = yesterday;
        long_priced = h.long_priced;
        short_priced =
            settle-IsPriced order p.short_price _ _ h.short_priced
              (add_nonneg (p.short_today -ℤ (v -ℤ m)) (p.short_yesterday -ℤ m) today yesterday)
              (share_le p.short_today p.short_yesterday v m pv);
      }

  apply_close-IsValid :
      FloatOrder F fl
      → (o : Offset) (s : OrderSide) (v : ℤ) (p : ContractPosition F) → IsValid p
      → pos 0 <ℤ v
      → is_opening o ≡ false
      → v ≤ℤ available s o p
      → IsValid (apply_close o s v p)
  unfolding apply_close
  apply_close-IsValid order o sell v p h pv c fits = close_long-IsValid order o v p h pv c fits
  apply_close-IsValid order o buy v p h pv c fits = close_short-IsValid order o v p h pv c fits

  -- What a close leaves where its bucket holds the volume.
  pub trade_position-fits :
      FloatOrder F fl
      → (o : Offset) (s : OrderSide) (v : ℤ) (x : F) (p : ContractPosition F) → IsValid p
      → pos 0 <ℤ v
      → is_opening o ≡ false
      → v ≤ℤ available s o p
      → (trade_position o s v x p ≡ (ok (realized_points s v x p), apply_close o s v p))
        × IsValid (apply_close o s v p)
  unfolding trade_position
  trade_position-fits order opening s v x p h pv c fits = cc
  trade_position-fits order o s v x p h pv c fits =
      let closed = apply_close-IsValid order o s v p h pv c fits in
      (
        rw (
          ge→ltb_ℤ (available s o p) v fits,
          (validate_position_iff (apply_close o s v p)).1 closed,
        ),
        closed,
      )

  trade_position-exceeds :
      (o : Offset) (s : OrderSide) (v : ℤ) (x : F) (p : ContractPosition F)
      → is_opening o ≡ false
      → available s o p <ℤ v
      → trade_position o s v x p ≡ (err close_exceeds_bucket, p)
  unfolding trade_position
  trade_position-exceeds opening s v x p c exceeds = cc
  trade_position-exceeds o s v x p c exceeds = rw (lt→ltb_ℤ (available s o p) v exceeds)

  -- A close of a well-formed position for a positive volume returns exactly when the bucket of its
  -- offset holds the volume, whatever the other bucket holds; and whether it returns or raises, the
  -- position stays well formed.
  pub trade_position-close :
      FloatOrder F fl
      → (o : Offset) (s : OrderSide) (v : ℤ) (x : F) (p : ContractPosition F) → IsValid p
      → pos 0 <ℤ v
      → is_opening o ≡ false
      → (IsOk (trade_position o s v x p).0 ↔ (v ≤ℤ available s o p))
        × IsValid (trade_position o s v x p).1
  trade_position-close order o s v x p h pv c = elim (Bool-cases (ltb_ℤ (available s o p) v)) [
    | inl less ↦
        let exceeds : available s o p <ℤ v = ground (arith, less) in
        rw (trade_position-exceeds o s v x p c exceeds)
          ((λ returned. elim returned [ ], λ fits. omega (arith, exceeds, fits)), h)
    | inr enough ↦
        let fits : v ≤ℤ available s o p = ground (arith, enough) in
        let (done, valid) = trade_position-fits order o s v x p h pv c fits in
        rw done ((λ returned. fits, λ held. tt), valid)
  ]

-- ===== src/Position/Rolling.antt =====
-- The start of a trading day turns today's positions into yesterday's.
use mathlib.Core.Path.{subst}
use afuture.Prelude.{Bool-cases, inl, inr, ◌≡◌, refl, arith, [], ◌∷◌, Option, none, some, All, ok}
use afuture.Prelude.Int.{ℤ, pos, ◌+ℤ◌, int_laws}
use afuture.Dict.{Dict, Key, key_eq, key_beq, lookup}
use afuture.Float.{FloatOps}
use afuture.Models.{ContractPosition, long_total, short_total}
use afuture.Position.Book.{PositionBook, roll_position, roll_entries, roll_trading_day}
use afuture.Position.Closing.{IsPriced, IsValid, validate_position_iff}

rolled_total : (t y : ℤ) → t +ℤ y ≡ pos 0 +ℤ (y +ℤ t)
rolled_total t y = omega int_laws

module _ {F : Type 0} ⦃fl : FloatOps F⦄ where
  abbrev pub BookValid : Dict Key (ContractPosition F) → Type 0
  BookValid = All (λ e. IsValid e.1)

  -- `q` is `p` on the next trading day: the totals and prices are kept, and nothing is today's.
  pub record Rolled (p q : ContractPosition F) : Type 0 where
    pub long : long_total q ≡ long_total p
    pub short : short_total q ≡ short_total p
    pub long_today : q.long_today ≡ pos 0
    pub short_today : q.short_today ≡ pos 0
    pub long_price : q.long_price ≡ p.long_price
    pub short_price : q.short_price ≡ p.short_price

  roll_position-Rolled : (p : ContractPosition F) → Rolled p (roll_position p)
  unfolding roll_position
  roll_position-Rolled p = record {
    long = omega int_laws;
    short = omega int_laws;
    long_today = refl;
    short_today = refl;
    long_price = refl;
    short_price = refl;
  }

  roll_position-IsValid : (p : ContractPosition F) → IsValid p → IsValid (roll_position p)
  unfolding roll_position
  roll_position-IsValid p h = record {
    symbol_named = h.symbol_named;
    exchange_named = h.exchange_named;
    long_today = omega arith;
    long_yesterday = omega int_laws;
    short_today = omega arith;
    short_yesterday = omega int_laws;
    long_priced =
        subst (IsPriced p.long_price) (rolled_total p.long_today p.long_yesterday) h.long_priced;
    short_priced =
        subst (IsPriced p.short_price) (rolled_total p.short_today p.short_yesterday)
          h.short_priced;
  }

  -- What the key holds after the roll, given what it held before.
  abbrev pub RolledEntry : Option (ContractPosition F) → Option (ContractPosition F) → Type 0
  RolledEntry none none = Unit
  RolledEntry (some p) (some q) = Rolled p q
  RolledEntry _ _ = ⊥

  roll_entries-valid :
      (d : Dict Key (ContractPosition F))
      → BookValid d
      → ((roll_entries d).0 ≡ ok tt) × BookValid (roll_entries d).1
  unfolding roll_entries
  roll_entries-valid [] h = (refl, tt)
  roll_entries-valid ((k, p) ∷ d) h =
      let q_valid = roll_position-IsValid p h.0 in
      let (accepted, valid) = roll_entries-valid d h.1 in
      rw ((validate_position_iff (roll_position p)).1 q_valid, roll_entries)
        (accepted, (q_valid, valid))

  roll_entries-entry :
      (j : Key) (d : Dict Key (ContractPosition F))
      → BookValid d
      → RolledEntry (lookup j d) (lookup j (roll_entries d).1)
  unfolding roll_entries lookup
  roll_entries-entry j [] h = tt
  roll_entries-entry j ((k, p) ∷ d) h =
      rw ((validate_position_iff (roll_position p)).1 (roll_position-IsValid p h.0), roll_entries)
        (elim (Bool-cases (key_beq k j)) [
          | inl same ↦ rw same (roll_position-Rolled p)
          | inr other ↦ rw other (roll_entries-entry j d h.1)
        ])

  -- On a book of well-formed positions the roll never raises, and the book stays well formed. Every
  -- contract keeps its totals and prices, has nothing left of today's, and none is added or lost.
  pub roll_trading_day-keeps :
      (book : PositionBook F)
      → BookValid book.positions
      → ((roll_trading_day book).0 ≡ ok tt)
        × BookValid (roll_trading_day book).1.positions
        × ((key : Key)
            → RolledEntry
                (lookup key book.positions)
                (lookup key (roll_trading_day book).1.positions))
  unfolding roll_trading_day
  roll_trading_day-keeps book h =
      let (accepted, valid) = roll_entries-valid book.positions h in
      (accepted, valid, λ key. roll_entries-entry key book.positions h)

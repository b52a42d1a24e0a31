-- ===== src/Position/Ledger.antt =====
-- The whole book under fills: what `apply_trade` does to every contract, and runs of fills.
use mathlib.Core.Path.{subst}
use afuture.Prelude.{
  String, ◌≡◌, refl, ◌∙◌, ap, Bool-cases, inl, inr, false, Option, none, some, List, [], ◌∷◌,
  Result, ok, err, IsOk, if◌then◌else◌,
}
use afuture.Prelude.Int.{ℤ, pos, ◌+ℤ◌, int_laws}
use afuture.Dict.{Key, key_eq, key_beq, key_beq_iff, lookup, lookup-insert}
use afuture.Float.{FloatOps}
use afuture.Models.{Error, Trade, ContractPosition, net_volume, new_position, validate_trade}
use afuture.Position.Book.{
  PositionBook, fetch, with_position, apply_validated, key_of, trade_position, apply_trade,
}
use afuture.Position.Effects.{signed, net-trade_position}

-- The net volume that the book holds of a contract; zero where it has no entry.
abbrev net_of : {F : Type 0} → Option (ContractPosition F) → ℤ
net_of none = pos 0
net_of (some p) = net_volume p

abbrev pub net_at : {F : Type 0} → Key → PositionBook F → ℤ
net_at key book = net_of (lookup key book.positions)

no_change : (a : ℤ) → a ≡ a +ℤ pos 0
no_change a = omega int_laws

add_assoc : (a b c : ℤ) → a +ℤ b +ℤ c ≡ a +ℤ (b +ℤ c)
add_assoc a b c = omega int_laws

net-new_position :
    (F : Type 0) ⦃fl : FloatOps F⦄ (symbol exchange : String)
    → net_volume {F = F} (new_position symbol exchange) ≡ pos 0
unfolding net_volume new_position
net-new_position F symbol exchange = omega int_laws

module _ {F : Type 0} where
  -- The signed volume of a fill for one contract.
  abbrev pub signed_for : Key → Trade F → ℤ
  signed_for key t = if key_beq (key_of t) key then signed t.side t.volume else pos 0

  abbrev pub signed_sum : Key → List (Trade F) → ℤ
  signed_sum key [] = pos 0
  signed_sum key (t ∷ ts) = signed_for key t +ℤ signed_sum key ts

module _ {F : Type 0} ⦃fl : FloatOps F⦄ where
  -- Looking a contract up changes no net volume.
  net-fetch : (key : Key) (book : PositionBook F) → net_volume (fetch key book).0 ≡ net_at key book
  unfolding fetch
  net-fetch key book =
      elim (lookup key book.positions)
        as (λ o. net_volume (with_position key o book).0 ≡ net_of o) [
          | none ↦ net-new_position F key.symbol key.exchange
          | some p ↦ refl
        ]

  lookup-fetch_ne :
      (key j : Key) (book : PositionBook F)
      → key_beq key j ≡ false
      → lookup j (fetch key book).1.positions ≡ lookup j book.positions
  unfolding fetch
  lookup-fetch_ne key j book h =
      elim (lookup key book.positions)
        as (λ o. lookup j (with_position key o book).1.positions ≡ lookup j book.positions) [
          | none ↦ simp (lookup-insert, h)
          | some p ↦ refl
        ]

  net-apply_validated :
      (r : Result Error (Unit {0})) (key : Key) (t : Trade F) (book : PositionBook F)
      → IsOk (apply_validated r t book).0
      → net_at key (apply_validated r t book).1 ≡ net_at key book +ℤ signed_for key t
  net-apply_validated (err e) key t book h = absurd h
  net-apply_validated (ok _) key t book h =
      let (p, book') = fetch (key_of t) book in
      let q = (trade_position t.offset t.side t.volume t.price p).1 in
      rw (lookup-insert (key_of t) key q book'.positions)
        (elim (Bool-cases (key_beq (key_of t) key)) [
          | inl own ↦ rw own (
              net-trade_position t.offset t.side t.volume t.price p h
              ∙ ap (λ n. n +ℤ signed t.side t.volume)
                  (net-fetch (key_of t) book
                    ∙ ap (λ k. net_at k book) ((key_beq_iff (key_of t) key).0 own)))
          | inr other ↦
              rw (other, lookup-fetch_ne (key_of t) key book other) (no_change (net_at key book))
        ])

  -- A fill that does not raise moves the net volume of its own contract by its signed volume, and
  -- the net volume of no other contract.
  pub net-apply_trade :
      (key : Key) (t : Trade F) (book : PositionBook F)
      → IsOk (apply_trade t book).0
      → net_at key (apply_trade t book).1 ≡ net_at key book +ℤ signed_for key t
  unfolding apply_trade
  net-apply_trade key t book h = net-apply_validated (validate_trade t) key t book h

  abbrev apply_next :
      Result Error F × PositionBook F
      → (PositionBook F → Result Error (Unit {0}) × PositionBook F)
      → Result Error (Unit {0}) × PositionBook F
  apply_next (ok _, book) later = later book
  apply_next (err e, book) later = (err e, book)

  -- Fills applied in order, until one raises.
  unfoldable pub apply_trades :
      List (Trade F) → PositionBook F → Result Error (Unit {0}) × PositionBook F
  apply_trades [] book = (ok tt, book)
  apply_trades (t ∷ ts) book = apply_next (apply_trade t book) (apply_trades ts)

  abbrev ApplyKeeps : Key → ℤ → Result Error (Unit {0}) × PositionBook F → Type 0
  ApplyKeeps key n (ok _, book) = net_at key book ≡ n
  ApplyKeeps key n (err e, book) = Unit

  apply_next-keeps :
      (key : Key) (n s sum : ℤ) (ts : List (Trade F)) (r : Result Error F × PositionBook F)
      → (IsOk r.0 → net_at key r.1 ≡ n +ℤ s)
      → ((b : PositionBook F) → ApplyKeeps key (net_at key b +ℤ sum) (apply_trades ts b))
      → ApplyKeeps key (n +ℤ (s +ℤ sum)) (apply_next r (apply_trades ts))
  apply_next-keeps key n s sum ts (ok _, book) step later =
      subst (λ m. ApplyKeeps key m (apply_trades ts book))
        (ap (λ m. m +ℤ sum) (step tt) ∙ add_assoc n s sum) (later book)
  apply_next-keeps key n s sum ts (err e, book) step later = tt

  apply_trades-keeps :
      (key : Key) (ts : List (Trade F)) (book : PositionBook F)
      → ApplyKeeps key (net_at key book +ℤ signed_sum key ts) (apply_trades ts book)
  unfolding apply_trades
  apply_trades-keeps key [] book = no_change (net_at key book)
  apply_trades-keeps key (t ∷ ts) book =
      apply_next-keeps key (net_at key book) (signed_for key t) (signed_sum key ts) ts
        (apply_trade t book) (net-apply_trade key t book) (apply_trades-keeps key ts)

  accepted_net :
      (key : Key) (n : ℤ) (r : Result Error (Unit {0}) × PositionBook F)
      → ApplyKeeps key n r
      → IsOk r.0
      → net_at key r.1 ≡ n
  accepted_net key n (ok _, book) k h = k
  accepted_net key n (err e, book) k h = absurd h

  -- After any run of fills that raised nowhere, the net volume of every contract is what it was plus
  -- the signed volumes of its own fills: nothing but fills moves a position.
  pub net-apply_trades :
      (key : Key) (ts : List (Trade F)) (book : PositionBook F)
      → IsOk (apply_trades ts book).0
      → net_at key (apply_trades ts book).1 ≡ net_at key book +ℤ signed_sum key ts
  net-apply_trades key ts book =
      accepted_net key (net_at key book +ℤ signed_sum key ts) (apply_trades ts book)
        (apply_trades-keeps key ts book)

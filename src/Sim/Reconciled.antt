-- ===== src/Sim/Reconciled.antt =====
-- Runs of the simulated broker: as long as no call raises, positions, orders and trades agree.
use afuture.Prelude.{
  String, not, ◌||◌, ◌≡◌, refl, ◌∙◌, ap, inl, inr, Bool-cases, Option, none, some, List, [], ◌∷◌,
  Result, ok, err, or_else,
}
use afuture.Prelude.Int.{ℤ, pos, ◌+ℤ◌, ◌-ℤ◌, leb_ℤ, int_laws}
use afuture.Prelude.Text.{str_eq}
use afuture.Dict.{Dict, Key, key_eq, key_beq, string_eq, lookup, All-lookup}
use afuture.Float.{FloatOps}
use afuture.Models.{
  Error, Ident, ident_eq, Order, active, ContractPosition, net_volume, validate_position,
}
use afuture.Position.Book.{PositionBook, roll_position, roll_next, roll_entries, roll_trading_day}
use afuture.Position.Ledger.{net_at}
use afuture.Sim.State.{SimConfig, SimState}
use afuture.Sim.Matching.{match_order, cancel_ioc_remainder}
use afuture.Sim.Days.{settle_day, end_day, bad_equity, apply_trading_day}
use afuture.Sim.Session.{match_found, match_one, match_all}
use afuture.Sim.Lifecycle.{
  EntryOk, SimOk, match_order-keeps, cancel_ioc_remainder-keeps, found-OrderOk,
}
use afuture.Sim.Accounts.{
  Balanced, Holds, continue-Holds, match_order-Balanced, cancel_remainder-Balanced,
}

roll_net : (t y u z : ℤ) → (pos 0 +ℤ (y +ℤ t)) -ℤ (pos 0 +ℤ (z +ℤ u)) ≡ (t +ℤ y) -ℤ (u +ℤ z)
roll_net t y u z = omega int_laws

module _ {F : Type 0} where
  abbrev pub Good : SimState F → Type 0
  Good st = SimOk st × Balanced st

  pub Holds-Good :
      {A : Type 0} (r : Result Error A × SimState F) → SimOk r.1 → Holds Balanced r → Holds Good r
  Holds-Good (ok _, st) s b = (s, b)
  Holds-Good (err e, st) s b = tt

  -- An order is found under its own id.
  pub own_entry :
      (id : Ident) (o : Order F) (st : SimState F)
      → SimOk st
      → lookup id st.orders ≡ some o
      → lookup o.order_id st.orders ≡ some o
  own_entry id o st h found =
      ap (λ i. lookup i st.orders) (All-lookup EntryOk id o st.orders h.orders found).own_id ∙ found

  net-roll_position : (p : ContractPosition F) → net_volume (roll_position p) ≡ net_volume p
  unfolding net_volume roll_position
  net-roll_position p = roll_net p.long_today p.long_yesterday p.short_today p.short_yesterday

module _ {F : Type 0} ⦃fl : FloatOps F⦄ where
  abbrev net_in : Key → Dict Key (ContractPosition F) → ℤ
  net_in key d = net_at key (record { positions = d })

  net-entry :
      (key k : Key) (p q : ContractPosition F) (d d' : Dict Key (ContractPosition F))
      → net_volume q ≡ net_volume p
      → net_in key d' ≡ net_in key d
      → net_in key ((k, q) ∷ d') ≡ net_in key ((k, p) ∷ d)
  unfolding lookup
  net-entry key k p q d d' same rest = elim (Bool-cases (key_beq k key)) [
    | inl own ↦ rw own same
    | inr other ↦ rw other rest
  ]

  net-roll_next :
      (r : Result Error (Unit {0})) (key k : Key) (p : ContractPosition F)
      (d : Dict Key (ContractPosition F))
      (rest : Result Error (Unit {0}) × Dict Key (ContractPosition F))
      → net_in key rest.1 ≡ net_in key d
      → net_in key (roll_next r (k, roll_position p) d rest).1 ≡ net_in key ((k, p) ∷ d)
  net-roll_next (ok _) key k p d (r, later) h =
      net-entry key k p (roll_position p) d later (net-roll_position p) h
  net-roll_next (err x) key k p d rest h =
      net-entry key k p (roll_position p) d d (net-roll_position p) refl

  -- The roll of the trading day moves no net volume, wherever it stops.
  net-roll_entries :
      (key : Key) (d : Dict Key (ContractPosition F)) → net_in key (roll_entries d).1 ≡ net_in key d
  unfolding roll_entries
  net-roll_entries key [] = refl
  net-roll_entries key ((k, p) ∷ d) =
      net-roll_next (validate_position (roll_position p)) key k p d (roll_entries d)
        (net-roll_entries key d)

  net-end_day :
      (day : String) (e : F) (r : Result Error (Unit {0}) × PositionBook F) (st : SimState F)
      → ((key : Key) → net_at key r.1 ≡ net_at key st.book)
      → Balanced st
      → Holds Balanced (settle_day day e r st)
  net-end_day day e (err x, book) st same h = tt
  net-end_day day e (ok _, book) st same h = record {
    net = λ key. same key ∙ h.net key;
    traded = h.traded;
    fresh = h.fresh;
  }

  end_day-Balanced :
      (day : String) (equity : Option F) (st : SimState F)
      → Balanced st
      → Holds Balanced (end_day day equity st)
  unfolding roll_trading_day
  end_day-Balanced day none st h = tt
  end_day-Balanced day (some e) st h = elim (Bool-cases (bad_equity e)) [
    | inl bad ↦ rw bad tt
    | inr good ↦ rw good (
        net-end_day day e (roll_trading_day st.book) st
          (λ key. net-roll_entries key st.book.positions) h)
  ]

  pub apply_trading_day-Balanced :
      (day : String) (equity : Option F) (st : SimState F)
      → Balanced st
      → Holds Balanced (apply_trading_day day equity st)
  unfolding apply_trading_day
  apply_trading_day-Balanced day equity st h = elim (Bool-cases (str_eq st.trading_day "")) [
    | inl first ↦ rw first (record { net = h.net; traded = h.traded; fresh = h.fresh })
    | inr later ↦ elim (Bool-cases (str_eq day st.trading_day)) [
      | inl same ↦ rw (later, same) h
      | inr next ↦ rw (later, next) (end_day-Balanced day equity st h)
    ]
  ]

  pub cancel_ioc_remainder-Good :
      (id : Ident) (st : SimState F) → Good st → Good (cancel_ioc_remainder id st)
  unfolding cancel_ioc_remainder
  cancel_ioc_remainder-Good id st h = (
    cancel_ioc_remainder-keeps id st h.0,
    cancel_remainder-Balanced (lookup id st.orders) st (λ o found. own_entry id o st h.0 found) h.1,
  )

  pub matched-Good :
      (cfg : SimConfig F) (id : Ident) (o : Order F) (st : SimState F)
      → Good st
      → lookup id st.orders ≡ some o
      → Holds Good (match_order cfg o st)
  matched-Good cfg id o st h found =
      Holds-Good (match_order cfg o st)
        (match_order-keeps cfg o st (found-OrderOk id st o h.0 found) h.0)
        (match_order-Balanced cfg o st (own_entry id o st h.0 found) h.1)

  match_found-Good :
      (cfg : SimConfig F) (symbol : String) (id : Ident) (r : Option (Order F)) (st : SimState F)
      → lookup id st.orders ≡ r
      → Good st
      → Holds Good (match_found cfg symbol id r st)
  match_found-Good cfg symbol id none st found h = h
  match_found-Good cfg symbol id (some o) st found h =
      elim (Bool-cases (not (active o) || not (str_eq o.request.symbol symbol))) [
        | inl skipped ↦ rw skipped h
        | inr due ↦ rw due (
            continue-Holds Good (match_order cfg o st) _ (matched-Good cfg id o st h found)
              (λ st' h'.
                elim (Bool-cases
                  (leb_ℤ (or_else (lookup id st'.eligible_seq) (pos 0)) st'.tick_seq)) [
                    | inl ripe ↦ rw ripe (cancel_ioc_remainder-Good id st' h')
                    | inr early ↦ rw early h'
                  ]))
      ]

  pub match_all-Good :
      (cfg : SimConfig F) (symbol : String) (ids : List Ident) (st : SimState F)
      → Good st
      → Holds Good (match_all cfg symbol ids st)
  unfolding match_all match_one
  match_all-Good cfg symbol [] st h = h
  match_all-Good cfg symbol (id ∷ ids) st h =
      continue-Holds Good (match_found cfg symbol id (lookup id st.orders) st)
        (match_all cfg symbol ids) (match_found-Good cfg symbol id (lookup id st.orders) st refl h)
        (match_all-Good cfg symbol ids)

-- ===== src/Position/Book.antt =====
-- `PositionBook` of position.py. A method that mutates the book returns it beside its result, also
-- when it raises, since what was written before a raise stays written.
use afuture.Prelude.{
  String, Option, none, some, List, [], ◌∷◌, Result, ok, err, ◌>>=◌, ◌>>◌, if◌then◌else◌, not, keep,
}
use afuture.Prelude.Int.{ℤ, pos, ◌+ℤ◌, ◌-ℤ◌, ltb_ℤ, eqb_ℤ, min_ℤ}
use afuture.Prelude.Text.{str_eq}
use afuture.Dict.{Dict, Key, key_eq, lookup, insert}
use afuture.Float.{FloatOps, fzero}
use afuture.Models.{
  OrderSide, buy, sell, Offset, opening, close_today, close_yesterday, Trade, validate_trade,
  ContractPosition, long_total, short_total, is_empty, new_position, validate_position, Error,
  ambiguous_symbol, close_exceeds_bucket, zero_division,
}

pub record PositionBook (F : Type 0) : Type 0 where
  pub positions : Dict Key (ContractPosition F)

-- The bucket that a close takes from: `available` in `_validate_close_volume`.
module _ {F : Type 0} where
  unfoldable pub available : OrderSide → Offset → ContractPosition F → ℤ
  available sell close_today p = p.long_today
  available sell close_yesterday p = p.long_yesterday
  available sell _ p = long_total p
  available buy close_today p = p.short_today
  available buy close_yesterday p = p.short_yesterday
  available buy _ p = short_total p

  -- `_consume_long`
  unfoldable pub consume_long : Offset → ℤ → ContractPosition F → ContractPosition F
  consume_long close_today volume p = record p { long_today = p.long_today -ℤ volume }
  consume_long close_yesterday volume p = record p { long_yesterday = p.long_yesterday -ℤ volume }
  consume_long _ volume p =
      let from_yesterday = min_ℤ volume p.long_yesterday in
      record p {
        long_yesterday = p.long_yesterday -ℤ from_yesterday;
        long_today = p.long_today -ℤ (volume -ℤ from_yesterday);
      }

  -- `_consume_short`
  unfoldable pub consume_short : Offset → ℤ → ContractPosition F → ContractPosition F
  consume_short close_today volume p = record p { short_today = p.short_today -ℤ volume }
  consume_short close_yesterday volume p = record p {
    short_yesterday = p.short_yesterday -ℤ volume;
  }
  consume_short _ volume p =
      let from_yesterday = min_ℤ volume p.short_yesterday in
      record p {
        short_yesterday = p.short_yesterday -ℤ from_yesterday;
        short_today = p.short_today -ℤ (volume -ℤ from_yesterday);
      }

  -- The loop body of `roll_trading_day`, before its validation.
  unfoldable pub roll_position : ContractPosition F → ContractPosition F
  roll_position p = record p {
    long_yesterday = p.long_yesterday +ℤ p.long_today;
    long_today = pos 0;
    short_yesterday = p.short_yesterday +ℤ p.short_today;
    short_today = pos 0;
  }

abbrev pub key_of : {F : Type 0} → Trade F → Key
key_of t = record { symbol = t.symbol; exchange = t.exchange }

module _ {F : Type 0} ⦃fl : FloatOps F⦄ where
  -- `(old * held + price * volume) / total`
  abbrev pub average : F → ℤ → F → ℤ → ℤ → F
  average old held price volume total =
      fl.div (fl.add (fl.mul old (fl.of_int held)) (fl.mul price (fl.of_int volume)))
        (fl.of_int total)

  -- `_apply_open`, over the side, the volume and the price of the trade.
  unfoldable pub apply_open :
      OrderSide → ℤ → F → ContractPosition F → Result Error (ContractPosition F)
  apply_open buy volume price p =
      let total = long_total p +ℤ volume in
      if eqb_ℤ total (pos 0)
      then err zero_division
      else ok (record p {
        long_price = average p.long_price (long_total p) price volume total;
        long_today = p.long_today +ℤ volume;
      })
  apply_open sell volume price p =
      let total = short_total p +ℤ volume in
      if eqb_ℤ total (pos 0)
      then err zero_division
      else ok (record p {
        short_price = average p.short_price (short_total p) price volume total;
        short_today = p.short_today +ℤ volume;
      })

  -- The price of a side that a close has emptied is reset.
  abbrev pub settle_long : ContractPosition F → ContractPosition F
  settle_long q = record q {
    long_price = if eqb_ℤ (long_total q) (pos 0) then fzero else q.long_price;
  }

  abbrev pub settle_short : ContractPosition F → ContractPosition F
  settle_short q = record q {
    short_price = if eqb_ℤ (short_total q) (pos 0) then fzero else q.short_price;
  }

  -- The closing half of `apply_trade`: the position after the fill, and the realized points.
  unfoldable pub apply_close : Offset → OrderSide → ℤ → ContractPosition F → ContractPosition F
  unfolding consume_long consume_short
  apply_close offset sell volume p = settle_long (consume_long offset volume p)
  apply_close offset buy volume p = settle_short (consume_short offset volume p)

  unfoldable pub realized_points : OrderSide → ℤ → F → ContractPosition F → F
  realized_points sell volume price p = fl.mul (fl.sub price p.long_price) (fl.of_int volume)
  realized_points buy volume price p = fl.mul (fl.sub p.short_price price) (fl.of_int volume)

  abbrev pub checked : F → ContractPosition F → Result Error F × ContractPosition F
  checked realized q = (validate_position q >> ok realized, q)

  abbrev pub checked_open :
      Result Error (ContractPosition F) → ContractPosition F → Result Error F × ContractPosition F
  checked_open (err e) p = (err e, p)
  checked_open (ok q) p = checked fzero q

  -- `apply_trade` on the position that `get` returned and that it mutates in place.
  unfoldable pub trade_position :
      Offset → OrderSide → ℤ → F → ContractPosition F → Result Error F × ContractPosition F
  unfolding apply_open apply_close realized_points available
  trade_position opening side volume price p = checked_open (apply_open side volume price p) p
  trade_position offset side volume price p =
      if ltb_ℤ (available side offset p) volume
      then (err close_exceeds_bucket, p)
      else checked (realized_points side volume price p) (apply_close offset side volume p)

  abbrev pub with_position :
      Key → Option (ContractPosition F) → PositionBook F → ContractPosition F × PositionBook F
  with_position key (some p) book = (p, book)
  with_position key none book =
      let p = new_position key.symbol key.exchange in
      (p, record { positions = insert key p book.positions })

  -- `get` with a known exchange: the entry of the key, created if there is none.
  unfoldable pub fetch : Key → PositionBook F → ContractPosition F × PositionBook F
  fetch key book = with_position key (lookup key book.positions) book

  abbrev pub get_of :
      List (Key × ContractPosition F)
      → Key
      → PositionBook F
      → Result Error (ContractPosition F) × PositionBook F
  get_of [] key book = (ok (fetch key book).0, (fetch key book).1)
  get_of ((k, p) ∷ []) key book = (ok p, book)
  get_of (m ∷ n ∷ r) key book = (err ambiguous_symbol, book)

  -- `PositionBook.get`: without an exchange, the only position of the symbol.
  unfoldable pub get :
      String → String → PositionBook F → Result Error (ContractPosition F) × PositionBook F
  get symbol exchange book =
      let matches = keep (λ e. str_eq e.0.symbol symbol) book.positions in
      get_of (if str_eq exchange "" then matches else [])
        (record { symbol = symbol; exchange = exchange }) book

  -- The mutated position is the dict's own entry.
  abbrev pub store_back :
      Key → Result Error F × ContractPosition F → PositionBook F → Result Error F × PositionBook F
  store_back key (r, p) book = (r, record { positions = insert key p book.positions })

  abbrev pub apply_validated :
      Result Error (Unit {0}) → Trade F → PositionBook F → Result Error F × PositionBook F
  apply_validated (err e) t book = (err e, book)
  apply_validated (ok _) t book =
      let (p, book') = fetch (key_of t) book in
      store_back (key_of t) (trade_position t.offset t.side t.volume t.price p) book'

  -- `PositionBook.apply_trade`. The validation refuses a blank exchange, so `get` fetches by key.
  unfoldable pub apply_trade : Trade F → PositionBook F → Result Error F × PositionBook F
  apply_trade t book = apply_validated (validate_trade t) t book

  abbrev pub roll_next :
      Result Error (Unit {0})
      → Key × ContractPosition F
      → Dict Key (ContractPosition F)
      → Result Error (Unit {0}) × Dict Key (ContractPosition F)
      → Result Error (Unit {0}) × Dict Key (ContractPosition F)
  roll_next (ok _) e d (r, later) = (r, e ∷ later)
  roll_next (err x) e d rest = (err x, e ∷ d)

  -- The loop of `roll_trading_day`, which stops at the first position that does not validate.
  unfoldable pub roll_entries :
      Dict Key (ContractPosition F) → Result Error (Unit {0}) × Dict Key (ContractPosition F)
  unfolding roll_position
  roll_entries [] = (ok tt, [])
  roll_entries ((k, p) ∷ d) =
      roll_next (validate_position (roll_position p)) (k, roll_position p) d (roll_entries d)

  unfoldable pub roll_trading_day : PositionBook F → Result Error (Unit {0}) × PositionBook F
  unfolding roll_entries
  roll_trading_day book = let (r, d) = roll_entries book.positions in (r, record { positions = d })

  abbrev pub values : Dict Key (ContractPosition F) → List (ContractPosition F)
  values [] = []
  values ((k, p) ∷ d) = p ∷ values d

  -- `PositionBook.all`
  unfoldable pub all_positions : PositionBook F → List (ContractPosition F)
  all_positions book = keep (λ p. not (is_empty p)) (values book.positions)

  -- The loop of `__init__`.
  unfoldable pub load_positions :
      List (ContractPosition F)
      → Dict Key (ContractPosition F)
      → Result Error (Dict Key (ContractPosition F))
  load_positions [] d = ok d
  load_positions (p ∷ ps) d =
      validate_position p
      >> load_positions ps (
          if is_empty p
          then d
          else insert (record { symbol = p.symbol; exchange = p.exchange }) p d)

  unfoldable pub new_book : List (ContractPosition F) → Result Error (PositionBook F)
  unfolding load_positions
  new_book ps = load_positions ps [] >>= λ d. ok (record { positions = d })

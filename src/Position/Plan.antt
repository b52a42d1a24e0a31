-- ===== src/Position/Plan.antt =====
-- `PositionBook.plan_close` of position.py.
use afuture.Prelude.{
  String, Bool, true, false, ◌||◌, List, [], ◌∷◌, Result, ok, err, if◌then◌else◌, map,
}
use afuture.Prelude.Int.{ℤ, pos, ◌+ℤ◌, ◌-ℤ◌, ltb_ℤ, leb_ℤ, eqb_ℤ, min_ℤ}
use afuture.Prelude.Text.{str_eq, is_blank}
use afuture.Float.{FloatOps}
use afuture.Models.{
  OrderSide, Offset, close, close_today, close_yesterday, OrderRequest, limit, Error, bad_volume,
  blank_identity, close_exceeds_bucket,
}
use afuture.Position.Book.{PositionBook, available, fetch}

-- `exchange in _SPECIAL_CLOSE_EXCHANGES`
unfoldable pub is_special : String → Bool
is_special exchange = str_eq exchange "SHFE" || str_eq exchange "INE"

-- The loop over the buckets: what is asked of each, while volume remains.
unfoldable pub take_buckets : ℤ → List (Offset × ℤ) → List (Offset × ℤ)
take_buckets remaining [] = []
take_buckets remaining ((offset, held) ∷ buckets) =
    let child = min_ℤ remaining held in
    let rest = take_buckets (remaining -ℤ child) buckets in
    if eqb_ℤ child (pos 0) then rest else (offset, child) ∷ rest

-- `buckets`, in the order in which they are used up.
abbrev pub ordered_buckets : Bool → ℤ → ℤ → List (Offset × ℤ)
ordered_buckets true today yesterday = (close_today, today) ∷ (close_yesterday, yesterday) ∷ []
ordered_buckets false today yesterday = (close_yesterday, yesterday) ∷ (close_today, today) ∷ []

-- The offsets and volumes of the children of a close.
unfoldable pub plan_children : Bool → Bool → ℤ → ℤ → ℤ → List (Offset × ℤ)
unfolding take_buckets
plan_children special today_first today yesterday volume =
    if special
    then take_buckets volume (ordered_buckets today_first today yesterday)
    else (close, volume) ∷ []

module _ {F : Type 0} where
  abbrev pub child_request : String → String → OrderSide → F → String → Offset × ℤ → OrderRequest F
  child_request symbol exchange side price reference (offset, volume) = record {
    symbol = symbol;
    exchange = exchange;
    side = side;
    offset = offset;
    volume = volume;
    price = price;
    order_type = limit;
    reference = reference;
  }

module _ {F : Type 0} ⦃fl : FloatOps F⦄ where
  -- `plan_close`; the tests on types hold by the types of the arguments. `get` may add an empty
  -- entry to the book, which comes back beside the result.
  unfoldable pub plan_close :
      String
      → String
      → OrderSide
      → ℤ
      → Bool
      → F
      → String
      → PositionBook F
      → Result Error (List (OrderRequest F)) × PositionBook F
  unfolding plan_children is_special
  plan_close symbol exchange side volume today_first price reference book =
      if leb_ℤ volume (pos 0)
      then (err bad_volume, book)
      else if is_blank symbol || is_blank exchange
      then (err blank_identity, book)
      else (let (p, book') = fetch (record { symbol = symbol; exchange = exchange }) book in
          let today = available side close_today p in
          let yesterday = available side close_yesterday p in
          if ltb_ℤ (today +ℤ yesterday) volume then (err close_exceeds_bucket, book') else (
            ok (
                map (child_request symbol exchange side price reference)
                  (plan_children (is_special exchange) today_first today yesterday volume)),
            book',
          ))

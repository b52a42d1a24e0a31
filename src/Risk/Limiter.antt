-- ===== src/Risk/Limiter.antt =====
-- `OrderRateLimiter` of risk.py.
use afuture.Prelude.{
  Bool, true, false, List, [], ◌∷◌, ◌++◌, Result, raise_if, ◌>>◌, ok, if◌then◌else◌, length,
}
use afuture.Prelude.Int.{ℤ, pos, leb_ℤ}
use afuture.Float.{FloatOps}
use afuture.Models.{Error, bad_limit}

-- `_timestamps` holds the times at which orders were allowed, the oldest first.
pub record OrderRateLimiter (F : Type 0) : Type 0 where
  pub max_orders_per_minute : ℤ
  pub timestamps : List F

unfoldable pub new_limiter : {F : Type 0} → ℤ → Result Error (OrderRateLimiter F)
new_limiter limit =
    raise_if (leb_ℤ limit (pos 0)) bad_limit
    >> ok (record { max_orders_per_minute = limit; timestamps = [] })

module _ {F : Type 0} ⦃fl : FloatOps F⦄ where
  -- The loop of `allow`: times are dropped from the front while they are at or before the cutoff.
  unfoldable pub drop_expired : F → List F → List F
  drop_expired cutoff [] = []
  drop_expired cutoff (t ∷ ts) =
      let rest = drop_expired cutoff ts in if fl.le t cutoff then rest else t ∷ ts

  abbrev pub cutoff_of : F → F
  cutoff_of now = fl.sub now (fl.of_int (pos 60))

  -- `allow`
  unfoldable pub allow : F → OrderRateLimiter F → Bool × OrderRateLimiter F
  unfolding drop_expired
  allow now limiter =
      let ts = drop_expired (cutoff_of now) limiter.timestamps in
      if leb_ℤ limiter.max_orders_per_minute (pos (length ts))
      then (false, record limiter { timestamps = ts })
      else (true, record limiter { timestamps = ts ++ now ∷ [] })

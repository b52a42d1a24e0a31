-- ===== src/Reconcile.antt =====
-- reconcile.py: the local positions against the snapshot of the exchange's counter.
pub mod Agree
pub mod Matched
use mathlib.Core.Path.{subst}
use afuture.Prelude.{
  ℕ, String, Bool, true, false, not, ◌&&◌, ◌||◌, ◌≡◌, refl, sym, ◌∙◌, ap, ◌↔◌, inl, inr, Bool-cases,
  arith, Option, none, some, List, [], ◌∷◌, ◌++◌, All, all, if◌then◌else◌, or_else, known,
}
use afuture.Prelude.Int.{ℤ, pos, eqb_ℤ}
use afuture.Dict.{Dict, Key, key_eq, lookup, insert, lookup-insert}
use afuture.Models.{ContractPosition, is_empty}

-- The tuple of a contract: long of today and before, short of today and before.
pub record Buckets : Type 0 where
  pub long_today : ℤ
  pub long_yesterday : ℤ
  pub short_today : ℤ
  pub short_yesterday : ℤ

abbrev pub buckets_eq : Buckets → Buckets → Bool
buckets_eq a b =
    eqb_ℤ a.long_today b.long_today
    && eqb_ℤ a.long_yesterday b.long_yesterday
    && eqb_ℤ a.short_today b.short_today
    && eqb_ℤ a.short_yesterday b.short_yesterday

-- What `normalized` builds: the table and the duplicate keys.
abbrev pub Normal : Type 0
Normal = Dict Key Buckets × List Key

abbrev pub found_eq : Buckets → Option Buckets → Bool
found_eq a none = false
found_eq a (some b) = buckets_eq a b

module _ {F : Type 0} where
  abbrev pub position_key : ContractPosition F → Key
  position_key p = record { symbol = p.symbol; exchange = p.exchange }

  abbrev pub buckets_of : ContractPosition F → Buckets
  buckets_of p = record {
    long_today = p.long_today;
    long_yesterday = p.long_yesterday;
    short_today = p.short_today;
    short_yesterday = p.short_yesterday;
  }

  -- One round of the loop of `normalized`.
  abbrev pub normal_step : ContractPosition F → Normal → Normal
  normal_step p (result, duplicates) =
      if is_empty p
      then (result, duplicates)
      else if known (lookup (position_key p) result)
      then (result, duplicates ++ position_key p ∷ [])
      else (insert (position_key p) (buckets_of p) result, duplicates)

  -- The loop of `normalized`, on the result and the duplicates so far.
  unfoldable pub normalized : List (ContractPosition F) → Normal → Normal
  normalized [] s = s
  normalized (p ∷ ps) s = normalized ps (normal_step p s)

-- `==` of two dicts: they hold the same pairs.
abbrev pub within : Dict Key Buckets → Dict Key Buckets → Bool
within a b = all (λ (e : Key × Buckets). found_eq e.1 (lookup e.0 b)) a

abbrev pub dict_equal : Dict Key Buckets → Dict Key Buckets → Bool
dict_equal a b = within a b && within b a

abbrev pub no_keys : List Key → Bool
no_keys [] = true
no_keys (k ∷ ks) = false

-- `compare_positions`, as its field `matched`.
unfoldable pub compare_positions :
    {F : Type 0} → List (ContractPosition F) → List (ContractPosition F) → Bool
unfolding normalized
compare_positions local remote =
    let left = normalized local ([], []) in
    let right = normalized remote ([], []) in
    if not (no_keys left.1) || not (no_keys right.1) then false else dict_equal left.0 right.0

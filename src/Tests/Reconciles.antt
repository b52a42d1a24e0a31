-- ===== src/Tests/Reconciles.antt =====
-- The comparison of positions on concrete books.
use afuture.Prelude.{◌≡◌, refl, false, List, [], ◌∷◌}
use afuture.Prelude.Int.{ℤ, pos, ◌+ℤ◌}
use afuture.Dict.{Key, lookup, insert}
use afuture.Models.{ContractPosition, is_empty}
use afuture.Reconcile.{normalized, compare_positions}
use afuture.Reconcile.Agree.{Distinct, quantity}
use afuture.Reconcile.Matched.{compare_positions_iff}
use afuture.Tests.Positions.{held}

-- A contract without lots, which does not count.
abbrev flat : ContractPosition ℤ
flat = record held { long_today = pos 0; long_yesterday = pos 0 }

abbrev ours : List (ContractPosition ℤ)
ours = held ∷ []

abbrev theirs : List (ContractPosition ℤ)
theirs = flat ∷ record held { long_price = pos 7 } ∷ []

moved_lots :
    compare_positions ours (record held { long_today = pos 2; long_yesterday = pos 3 } ∷ []) ≡ false
unfolding compare_positions normalized is_empty ◌+ℤ◌ lookup insert
moved_lots = refl

compare_positions_iff_example :
    Distinct ours × Distinct theirs × ((k : Key) → quantity k ours ≡ quantity k theirs)
unfolding compare_positions normalized is_empty ◌+ℤ◌ lookup insert
compare_positions_iff_example = (compare_positions_iff ours theirs).0 refl

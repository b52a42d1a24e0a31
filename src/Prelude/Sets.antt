-- ===== src/Prelude/Sets.antt =====
-- Sets of strings: membership in a list, and `sorted(set(xs))`.
use Prim.Native.String.{String}
use mathlib.Core.Path.{◌≡◌, refl}
use mathlib.Core.Bool.{Bool, ◌||◌}
use mathlib.Core.List.{List, [], ◌∷◌, ◌++◌}
use native.Mathlib.Omega.{arith}
use afuture.Prelude.Tests.{if◌then◌else◌}
use afuture.Prelude.Lists.{any}
use afuture.Prelude.Text.{str_eq, str_eq_iff, str_lt}

-- `s in xs`
abbrev pub member : String → List String → Bool
member s xs = any (str_eq s) xs

-- A symbol into its place in an ascending list, once.
unfoldable pub place : String → List String → List String
place s [] = s ∷ []
place s (x ∷ xs) =
    let rest = place s xs in
    if str_eq s x then x ∷ xs else if str_lt s x then s ∷ x ∷ xs else x ∷ rest

-- `sorted(set(xs))`
unfoldable pub sorted_set : List String → List String
sorted_set [] = []
sorted_set (x ∷ xs) = place x (sorted_set xs)

member-place :
    (t s : String) (xs : List String) → member t (place s xs) ≡ (str_eq t s || member t xs)
unfolding place
member-place t s [] = refl
member-place t s (x ∷ xs) =
    ground (arith, str_eq_iff s x, str_eq_iff t x, str_eq_iff t s, member-place t s xs)

pub member-sorted_set : (t : String) (xs : List String) → member t (sorted_set xs) ≡ member t xs
unfolding sorted_set
member-sorted_set t [] = refl
member-sorted_set t (x ∷ xs) = rw (member-place t x (sorted_set xs), member-sorted_set t xs) refl

pub member-append :
    (t : String) (xs ys : List String) → member t (xs ++ ys) ≡ (member t xs || member t ys)
member-append t [] ys = refl
member-append t (x ∷ xs) ys = ground (arith, member-append t xs ys)

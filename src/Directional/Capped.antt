-- ===== src/Directional/Capped.antt =====
-- About the target under a persisted authorization.
use afuture.Prelude.{
  String, false, ◌≡◌, refl, inl, inr, Bool-cases, arith, Option, none, some, [], ◌∷◌, All,
  Some-weaken,
}
use afuture.Prelude.Int.{ℤ, pos, eqb_ℤ, min_ℤ, abs_ℤ, -ℤ_parts, min_ℤ_bounds}
use afuture.Dict.{string_eq, lookup, All-lookup}
use afuture.Directional.{Lots, opposed}
use afuture.Directional.Fitted.{Within}
use afuture.Directional.Freeze.{capped_like, cap_row, cap_target}
use afuture.Directional.Carried.{Carried, lookup-Carried, NonZero}

capped_left :
    (x w a : ℤ)
    → Within x w
    → opposed w a ≡ false
    → eqb_ℤ a (pos 0) ≡ false
    → Within x (capped_like w w a)
capped_left x w a h k l =
    ground
      (arith, h, min_ℤ_bounds (abs_ℤ w) (abs_ℤ a), -ℤ_parts (pos 0) (min_ℤ (abs_ℤ w) (abs_ℤ a)))

capped_right :
    (w a : ℤ)
    → eqb_ℤ w (pos 0) ≡ false
    → opposed w a ≡ false
    → eqb_ℤ a (pos 0) ≡ false
    → Within a (capped_like w w a)
capped_right w a h k l =
    ground (arith, min_ℤ_bounds (abs_ℤ w) (abs_ℤ a), -ℤ_parts (pos 0) (min_ℤ (abs_ℤ w) (abs_ℤ a)))

cap_row-All :
    (P : String × ℤ → Type 0) (s : String) (w : ℤ) (found : Option ℤ) (rest : Lots)
    → ((a : ℤ) → found ≡ some a → opposed w a ≡ false → P (s, capped_like w w a))
    → All P rest
    → All P (cap_row s w found rest)
cap_row-All P s w none rest h k = k
cap_row-All P s w (some a) rest h k = elim (Bool-cases (opposed w a)) [
  | inl other_side ↦ rw other_side k
  | inr same_side ↦ rw same_side (h a refl same_side, k)
]

found_nonzero :
    (rows : Lots) (s : String) (a : ℤ)
    → NonZero rows
    → lookup s rows ≡ some a
    → eqb_ℤ a (pos 0) ≡ false
found_nonzero rows s a h found =
    All-lookup (λ (row : String × ℤ). eqb_ℤ row.1 (pos 0) ≡ false) s a rows h found

pub cap_target-Carried :
    (x authorized target : Lots)
    → NonZero authorized
    → All (Carried x) target
    → All (Carried x) (cap_target authorized target)
unfolding cap_target
cap_target-Carried x authorized [] h k = tt
cap_target-Carried x authorized ((s, w) ∷ target) h k =
    cap_row-All (Carried x) s w (lookup s authorized) (cap_target authorized target)
      (λ a found same_side.
        Some-weaken (λ (r : String × ℤ). (r.0 ≡ s) × Within r.1 w)
          (λ (r : String × ℤ). (r.0 ≡ s) × Within r.1 (capped_like w w a)) x
          (λ r c. (c.0, capped_left r.1 w a c.1 same_side (found_nonzero authorized s a h found)))
          k.0)
      (cap_target-Carried x authorized target h k.1)

pub cap_target-Authorized :
    (authorized target : Lots)
    → NonZero authorized
    → NonZero target
    → All (Carried authorized) (cap_target authorized target)
unfolding cap_target
cap_target-Authorized authorized [] h k = tt
cap_target-Authorized authorized ((s, w) ∷ target) h k =
    cap_row-All (Carried authorized) s w (lookup s authorized) (cap_target authorized target)
      (λ a found same_side.
        lookup-Carried authorized s (capped_like w w a) a found
          (capped_right w a k.0 same_side (found_nonzero authorized s a h found)))
      (cap_target-Authorized authorized target h k.1)

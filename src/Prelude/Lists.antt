-- ===== src/Prelude/Lists.antt =====
-- Lists measured by native numbers, and tests and predicates over lists.
use Prim.Native.Nat.{ℕ, suc, ◌+◌}
use mathlib.Core.Path.{◌≡◌}
use mathlib.Core.Logic.{◌⊎◌, inl, inr}
use mathlib.Core.Bool.{Bool, true, false, ◌&&◌, ◌||◌}
use mathlib.Core.List.{List, [], ◌∷◌, ◌++◌}
use native.Mathlib.Omega.{arith}
use afuture.Prelude.Tests.{if◌then◌else◌, Bool-cases}

module _ {ℓ} {A : Type ℓ} where
  abbrev pub length : List A → ℕ
  length [] = 0
  length (x ∷ xs) = suc (length xs)

  -- Python's `any(test(x) for x in xs)` and `all(test(x) for x in xs)`.
  abbrev pub any : (A → Bool) → List A → Bool
  any p [] = false
  any p (x ∷ xs) = p x || any p xs

  abbrev pub all : (A → Bool) → List A → Bool
  all p [] = true
  all p (x ∷ xs) = p x && all p xs

  -- `[x for x in xs if test(x)]`
  abbrev pub keep : (A → Bool) → List A → List A
  keep p [] = []
  keep p (x ∷ xs) = let rest = keep p xs in if p x then x ∷ rest else rest

  pub length-append : (xs ys : List A) → length (xs ++ ys) ≡ length xs + length ys
  length-append [] ys = omega arith
  length-append (x ∷ xs) ys = omega (arith, length-append xs ys)

abbrev pub All {ℓ κ} : {A : Type ℓ} → (A → Type κ) → List A → Type κ
All P [] = Unit
All P (x ∷ xs) = P x × All P xs

pub All-append {ℓ κ} :
    {A : Type ℓ} (P : A → Type κ) (xs ys : List A) → All P xs → All P ys → All P (xs ++ ys)
All-append P [] ys h k = k
All-append P (x ∷ xs) ys h k = (h.0, All-append P xs ys h.1 k)

pub All-weaken {ℓ κ κ'} :
    {A : Type ℓ} (P : A → Type κ) (Q : A → Type κ') (xs : List A)
    → ((x : A) → P x → Q x)
    → All P xs
    → All Q xs
All-weaken P Q [] f h = tt
All-weaken P Q (x ∷ xs) f h = (f x h.0, All-weaken P Q xs f h.1)

-- Some element has the property.
abbrev pub Some {ℓ} : {A : Type ℓ} → (A → Type 0) → List A → Type 0
Some P [] = ⊥
Some P (x ∷ xs) = P x ⊎ Some P xs

pub Some-weaken {ℓ} :
    {A : Type ℓ} (P Q : A → Type 0) (xs : List A) → ((x : A) → P x → Q x) → Some P xs → Some Q xs
Some-weaken P Q [] f h = elim h [ ]
Some-weaken P Q (x ∷ xs) f (inl h) = inl (f x h)
Some-weaken P Q (x ∷ xs) f (inr h) = inr (Some-weaken P Q xs f h)

-- The element that has the property, with what holds of all.
pub All-Some {ℓ} :
    {A : Type ℓ} (P Q : A → Type 0) (C : Type 0) (xs : List A)
    → ((x : A) → P x → Q x → C)
    → All P xs
    → Some Q xs
    → C
All-Some P Q C [] f h k = elim k [ ]
All-Some P Q C (x ∷ xs) f h (inl q) = f x h.0 q
All-Some P Q C (x ∷ xs) f h (inr q) = All-Some P Q C xs f h.1 q

pub Some-out {ℓ} :
    {A : Type ℓ} (Q : A → Type 0) (C : Type 0) (xs : List A) → ((x : A) → Q x → C) → Some Q xs → C
Some-out Q C [] f h = elim h [ ]
Some-out Q C (x ∷ xs) f (inl q) = f x q
Some-out Q C (x ∷ xs) f (inr q) = Some-out Q C xs f q

-- What is kept passed the test.
pub All-keep {ℓ} :
    {A : Type ℓ} (P Q : A → Type 0) (t : A → Bool) (xs : List A)
    → ((x : A) → t x ≡ true → P x → Q x)
    → All P xs
    → All Q (keep t xs)
All-keep P Q t [] f h = tt
All-keep P Q t (x ∷ xs) f h = elim (Bool-cases (t x)) [
  | inl kept ↦ rw kept (f x kept h.0, All-keep P Q t xs f h.1)
  | inr dropped ↦ rw dropped (All-keep P Q t xs f h.1)
]

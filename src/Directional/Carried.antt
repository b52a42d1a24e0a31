-- ===== src/Directional/Carried.antt =====
-- Lots that carry no more risk than given rows: the relation that the freezes of the planner are about.
use mathlib.Core.Path.{subst}
use afuture.Prelude.{
  String, false, ◌≡◌, refl, sym, ◌∙◌, inl, inr, Bool-cases, Option-cases, arith, some, [], ◌∷◌, All,
  All-weaken, Some, Some-weaken, All-Some, Result, ok, err, ok_inj,
}
use afuture.Prelude.Int.{ℤ, pos, eqb_ℤ}
use afuture.Prelude.Text.{str_eq, str_eq_iff}
use afuture.Dict.{string_eq, lookup, insert, some_eq, All-insert}
use afuture.Models.{Error}
use afuture.Directional.{Lots, lots_at, nonzero_lots}
use afuture.Directional.Fitted.{Within}
use afuture.Directional.Freeze.{update, updated}

-- Some row has the symbol, and the lots of the row's side, at most as many.
abbrev pub Carried : Lots → String × ℤ → Type 0
Carried rows entry = Some (λ (row : String × ℤ). (row.0 ≡ entry.0) × Within row.1 entry.1) rows

Within-trans : (a b c : ℤ) → Within a b → Within b c → Within a c
Within-trans a b c h k = ground (arith, h, k)

pub Carried-trans :
    (a b : Lots) (entry : String × ℤ) → All (Carried a) b → Carried b entry → Carried a entry
Carried-trans a b entry h k =
    All-Some (Carried a) (λ (row : String × ℤ). (row.0 ≡ entry.0) × Within row.1 entry.1)
      (Carried a entry) b
      (λ row c q.
        Some-weaken (λ (r : String × ℤ). (r.0 ≡ row.0) × Within r.1 row.1)
          (λ (r : String × ℤ). (r.0 ≡ entry.0) × Within r.1 entry.1) a
          (λ r s. (s.0 ∙ q.0, Within-trans r.1 row.1 entry.1 s.1 q.1)) c)
      h k

nothing-Within : (lots : ℤ) → Within (pos 0) lots → ⊥
nothing-Within lots w = ground (arith, w)

pub lookup-Carried :
    (rows : Lots) (symbol : String) (lots wanted : ℤ)
    → lookup symbol rows ≡ some wanted
    → Within wanted lots
    → Carried rows (symbol, lots)
unfolding lookup
lookup-Carried [] symbol lots wanted found w = cc
lookup-Carried ((s, v) ∷ rows) symbol lots wanted found w = elim (Bool-cases (str_eq s symbol)) [
  | inl same ↦ inl (
    (str_eq_iff s symbol).0 same,
    subst (λ u. Within u lots) (sym (some_eq v wanted (rw same at (found)))) w,
  )
  | inr other ↦ inr (lookup-Carried rows symbol lots wanted (rw other at (found)) w)
]

pub lots_at-Carried :
    (rows : Lots) (symbol : String) (lots : ℤ)
    → Within (lots_at symbol rows) lots
    → Carried rows (symbol, lots)
lots_at-Carried rows symbol lots w = elim (Option-cases (lookup symbol rows)) [
  | inl missing ↦ elim (nothing-Within lots (rw missing at (w))) [ ]
  | inr found ↦ lookup-Carried rows symbol lots found.0 found.1 (rw found.1 at (w))
]

-- The rows of a product are carried by themselves where none is zero.
row_itself : (v : ℤ) → eqb_ℤ v (pos 0) ≡ false → Within v v
row_itself v h = ground arith

pub nonzero_lots-Carried : (rows : Lots) → All (Carried rows) (nonzero_lots rows)
unfolding nonzero_lots
nonzero_lots-Carried [] = tt
nonzero_lots-Carried ((s, v) ∷ rows) = elim (Bool-cases (eqb_ℤ v (pos 0))) [
  | inl zero ↦ rw zero (
      All-weaken (Carried rows) (Carried ((s, v) ∷ rows)) (nonzero_lots rows) (λ e c. inr c)
        (nonzero_lots-Carried rows))
  | inr lots ↦ rw lots (
    inl (refl, row_itself v lots),
    All-weaken (Carried rows) (Carried ((s, v) ∷ rows)) (nonzero_lots rows) (λ e c. inr c)
        (nonzero_lots-Carried rows),
  )
]

-- A property of entries that the rounds of the freeze keep.
module _ (P : String × ℤ → Type 0) where
  pub update-All : (rows result : Lots) → All P rows → All P result → All P (update rows result)
  unfolding update
  update-All [] result h k = k
  update-All ((s, v) ∷ rows) result h k =
      update-All rows (insert s v result) h.1 (All-insert P s v result h.0 k)

  pub updated-All :
      (rows : Result Error Lots) (result after : Lots)
      → ((lots : Lots) → rows ≡ ok lots → All P lots)
      → All P result
      → updated rows result ≡ ok after
      → All P after
  updated-All (ok lots) result after h k e =
      subst (All P) (ok_inj _ after e) (update-All lots result (h lots refl) k)
  updated-All (err f) result after h k e = cc

abbrev pub NonZero : Lots → Type 0
NonZero rows = All (λ (row : String × ℤ). eqb_ℤ row.1 (pos 0) ≡ false) rows

pub nonzero_lots-NonZero : (rows : Lots) → NonZero (nonzero_lots rows)
unfolding nonzero_lots
nonzero_lots-NonZero [] = tt
nonzero_lots-NonZero ((s, v) ∷ rows) = elim (Bool-cases (eqb_ℤ v (pos 0))) [
  | inl zero ↦ rw zero (nonzero_lots-NonZero rows)
  | inr lots ↦ rw lots (lots, nonzero_lots-NonZero rows)
]

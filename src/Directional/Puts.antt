-- ===== src/Directional/Puts.antt =====
-- A dict that a loop over the symbols of two dicts fills.
use mathlib.Core.Path.{subst}
use afuture.Prelude.{
  String, ◌||◌, ◌≡◌, refl, sym, inl, inr, Bool-cases, Option-cases, arith, Option, none, some, List,
  [], ◌∷◌, ◌++◌, if◌then◌else◌, known,
}
use afuture.Prelude.Text.{str_eq, str_eq_iff, str_eq_refl}
use afuture.Prelude.Sets.{member, member-sorted_set, member-append}
use afuture.Dict.{Dict, string_eq, lookup, insert, lookup-insert, keys, member-keys}
use afuture.Directional.{Lots, symbols_of}

module _ {V : Type 0} where
  -- `d[k] = v`, where there is a value.
  abbrev pub put : String → Option V → Dict String V → Dict String V
  put symbol none d = d
  put symbol (some v) d = insert symbol v d

  abbrev first_some : Option V → Option V → Option V
  first_some none o = o
  first_some (some v) o = some v

  lookup-put :
      (k s : String) (o : Option V) (d : Dict String V)
      → lookup s (put k o d) ≡ (if str_eq k s then first_some o (lookup s d) else lookup s d)
  lookup-put k s none d = ground arith
  lookup-put k s (some v) d = lookup-insert k s v d

  -- A value put at every symbol of a list.
  unfoldable pub put_all : (String → Option V) → List String → Dict String V → Dict String V
  put_all f [] d = d
  put_all f (s ∷ symbols) d = put_all f symbols (put s (f s) d)

  lookup-put_all :
      (f : String → Option V) (s : String) (symbols : List String) (d : Dict String V)
      → lookup s (put_all f symbols d)
        ≡ (if member s symbols then first_some (f s) (lookup s d) else lookup s d)
  unfolding put_all
  lookup-put_all f s [] d = refl
  lookup-put_all f s (k ∷ symbols) d = elim (Bool-cases (str_eq k s)) [
    | inl same ↦
        subst
          (λ k.
            lookup s (put_all f symbols (put k (f k) d))
            ≡ (if member s (k ∷ symbols) then first_some (f s) (lookup s d) else lookup s d))
          (sym ((str_eq_iff k s).0 same))
          (rw (lookup-put_all f s symbols (put s (f s) d), lookup-put s s (f s) d, str_eq_refl s)
            (ground arith))
    | inr other ↦
        rw (lookup-put_all f s symbols (put k (f k) d), lookup-put k s (f k) d, other)
          (ground (arith, str_eq_iff k s, str_eq_iff s k))
  ]

  first_some-none : (o : Option V) → first_some o none ≡ o
  first_some-none o = ground arith

  lookup_empty : (s : String) → lookup {V = V} s [] ≡ none
  unfolding lookup
  lookup_empty s = refl

member-symbols_of :
    (s : String) (current target : Lots)
    → member s (symbols_of current target) ≡ (known (lookup s current) || known (lookup s target))
member-symbols_of s current target =
    rw
      (
        member-sorted_set s (keys current ++ keys target),
        member-append s (keys current) (keys target),
        member-keys s current,
        member-keys s target,
      )
      refl

-- Where a symbol of neither dict is to get no value, the list of symbols may be forgotten.
pub lookup-symbols :
    {V : Type 0} (f : String → Option V) (s : String) (current target : Lots)
    → (lookup s current ≡ none → lookup s target ≡ none → f s ≡ none)
    → lookup s (put_all f (symbols_of current target) []) ≡ f s
lookup-symbols f s current target absent =
    rw
      (
        lookup-put_all f s (symbols_of current target) [],
        member-symbols_of s current target,
        lookup_empty {V = _} s,
      )
      (elim (Option-cases (lookup s current)) [
        | inl a ↦ elim (Option-cases (lookup s target)) [
          | inl b ↦ rw (a, b) (sym (absent a b))
          | inr b ↦ rw (a, b.1) (first_some-none _)
        ]
        | inr a ↦ rw a.1 (first_some-none _)
      ])

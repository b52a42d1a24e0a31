-- ===== src/Engine/Modes/Audited.antt =====
-- About the audit of the pairs.
use afuture.Prelude.{
  String, Bool, true, false, not, ◌≡◌, refl, ap, ◌∙◌, Option, none, some, List, [], ◌∷◌, any,
  if◌then◌else◌, Bool-cases, inl, inr, arith, known,
}
use afuture.Prelude.Text.{str_eq, str_eq_iff}
use afuture.Float.{FloatOps}
use afuture.Dict.{Dict, lookup, insert, string_eq, lookup-insert}
use afuture.Engine.Modes.Checks.{forget_pair, first_seen, audit_pairs}

some_ne_none : {A : Type 0} {a : A} → Path (Option A) (some a) none → ⊥
some_ne_none h = cc

-- The report has the pair, and the pair is not balanced in it.
abbrev pub unbalanced : String → List (String × Bool) → Bool
unbalanced id [] = false
unbalanced id ((other, balanced) ∷ pairs) =
    if str_eq other id then not balanced else unbalanced id pairs

-- The report has the pair at one place.
abbrev pub once : String → List (String × Bool) → Bool
once id [] = false
once id ((other, balanced) ∷ pairs) =
    if str_eq other id then not (any (λ p. str_eq p.0 id) pairs) else once id pairs

module _ {F : Type 0} ⦃fl : FloatOps F⦄ where
  lookup-forget_pair :
      (id other : String) (since : Dict String F)
      → str_eq other id ≡ false
      → lookup id (forget_pair other since) ≡ lookup id since
  unfolding lookup
  lookup-forget_pair id other [] h = refl
  lookup-forget_pair id other ((third, t) ∷ since) h = ground (
    arith,
    lookup-forget_pair id other since h,
    str_eq_iff third other,
    str_eq_iff third id,
    str_eq_iff other id,
  )

  -- A pair that waits since a time, and whose wait is over.
  audit_pairs-known :
      (now timeout t : F) (id : String) (pairs : List (String × Bool)) (since : Dict String F)
      → unbalanced id pairs ≡ true
      → lookup id since ≡ some t
      → fl.le timeout (fl.sub now t) ≡ true
      → known (audit_pairs now timeout pairs since).1 ≡ true
  unfolding audit_pairs
  audit_pairs-known now timeout t id [] since u l late = cc
  audit_pairs-known now timeout t id ((other, balanced) ∷ pairs) since u l late =
      elim (Bool-cases (str_eq other id)) [
        | inl same ↦
            let here : other ≡ id = (str_eq_iff other id).0 same in
            let off : balanced ≡ false = ground (arith, u, same) in rw (off, here, l, late) refl
        | inr differs ↦
            let below : unbalanced id pairs ≡ true = ground (arith, u, differs) in
            elim (Bool-cases balanced) [
              | inl calm ↦ rw calm (
                  audit_pairs-known now timeout t id pairs (forget_pair other since) below
                    (lookup-forget_pair id other since differs ∙ l) late)
              | inr off ↦
                  let seen = first_seen now (lookup other since) in
                  elim (Bool-cases (fl.le timeout (fl.sub now seen))) [
                    | inl over ↦ rw (off, over) refl
                    | inr waits ↦
                        rw (off, waits)
                          (audit_pairs-known now timeout t id pairs (insert other seen since) below
                            (lookup-insert other id seen since ∙ rw differs l) late)
                  ]
            ]
      ]

  -- A pair that is not in the report keeps its time.
  audit_pairs-absent :
      (now timeout : F) (id : String) (pairs : List (String × Bool)) (since : Dict String F)
      → any (λ p. str_eq p.0 id) pairs ≡ false
      → lookup id (audit_pairs now timeout pairs since).0 ≡ lookup id since
  unfolding audit_pairs
  audit_pairs-absent now timeout id [] since absent = refl
  audit_pairs-absent now timeout id ((other, balanced) ∷ pairs) since absent =
      let differs : str_eq other id ≡ false = ground (arith, absent) in
      let below : any (λ p. str_eq p.0 id) pairs ≡ false = ground (arith, absent) in
      let seen = first_seen now (lookup other since) in
      let kept : lookup id (insert other seen since) ≡ lookup id since =
        lookup-insert other id seen since ∙ rw differs refl in
      elim (Bool-cases balanced) [
        | inl calm ↦ rw calm (
            audit_pairs-absent now timeout id pairs (forget_pair other since) below
            ∙ lookup-forget_pair id other since differs)
        | inr off ↦ elim (Bool-cases (fl.le timeout (fl.sub now seen))) [
          | inl over ↦ rw (off, over) kept
          | inr waits ↦
              rw (off, waits)
                (audit_pairs-absent now timeout id pairs (insert other seen since) below ∙ kept)
        ]
      ]

  -- A pair that is reported once, as unbalanced, waits since the time it was first seen.
  audit_pairs-waits :
      (now timeout : F) (id : String) (pairs : List (String × Bool)) (since : Dict String F)
      → once id pairs ≡ true
      → unbalanced id pairs ≡ true
      → (audit_pairs now timeout pairs since).1 ≡ none
      → lookup id (audit_pairs now timeout pairs since).0 ≡ some (first_seen now (lookup id since))
  unfolding audit_pairs
  audit_pairs-waits now timeout id [] since one u calm = cc
  audit_pairs-waits now timeout id ((other, balanced) ∷ pairs) since one u quiet =
      let seen = first_seen now (lookup other since) in
      let at_place = lookup-insert other id seen since in
      elim (Bool-cases (str_eq other id)) [
        | inl same ↦
            let off : balanced ≡ false = ground (arith, u, same) in
            let absent : any (λ p. str_eq p.0 id) pairs ≡ false = ground (arith, one, same) in
            elim (Bool-cases (fl.le timeout (fl.sub now seen))) [
              | inl over ↦ elim (some_ne_none (rw (off, over) at (quiet))) [ ]
              | inr waits ↦
                  rw (off, waits)
                    (audit_pairs-absent now timeout id pairs (insert other seen since) absent
                      ∙ at_place
                      ∙ rw same (
                          ap (λ key. some (first_seen now (lookup key since)))
                            ((str_eq_iff other id).0 same)))
            ]
        | inr differs ↦
            let below : once id pairs ≡ true = ground (arith, one, differs) in
            let off_below : unbalanced id pairs ≡ true = ground (arith, u, differs) in
            let kept : lookup id (insert other seen since) ≡ lookup id since =
              at_place ∙ rw differs refl in
            elim (Bool-cases balanced) [
              | inl calm ↦ rw calm (
                  audit_pairs-waits now timeout id pairs (forget_pair other since) below off_below
                    (rw calm at (quiet))
                  ∙ ap (λ found. some (first_seen now found))
                      (lookup-forget_pair id other since differs))
              | inr off ↦ elim (Bool-cases (fl.le timeout (fl.sub now seen))) [
                | inl over ↦ elim (some_ne_none (rw (off, over) at (quiet))) [ ]
                | inr waits ↦
                    rw (off, waits)
                      (audit_pairs-waits now timeout id pairs (insert other seen since) below
                          off_below (rw (off, waits) at (quiet))
                        ∙ ap (λ found. some (first_seen now found)) kept)
              ]
            ]
      ]

  -- An imbalance that lasts is found: a pair that is unbalanced at an audit which finds no pair
  -- overdue, and unbalanced again at a later one, is reported by the later one, or another pair is,
  -- when the timeout has passed since the pair was first seen unbalanced.
  pub audit_pairs-finds :
      (now later timeout : F) (id : String) (pairs next : List (String × Bool))
      (since : Dict String F)
      → once id pairs ≡ true
      → unbalanced id pairs ≡ true
      → (audit_pairs now timeout pairs since).1 ≡ none
      → unbalanced id next ≡ true
      → fl.le timeout (fl.sub later (first_seen now (lookup id since))) ≡ true
      → known (audit_pairs later timeout next (audit_pairs now timeout pairs since).0).1 ≡ true
  audit_pairs-finds now later timeout id pairs next since one u quiet still late =
      audit_pairs-known later timeout (first_seen now (lookup id since)) id next
        (audit_pairs now timeout pairs since).0 still
        (audit_pairs-waits now timeout id pairs since one u quiet) late

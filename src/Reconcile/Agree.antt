-- ===== src/Reconcile/Agree.antt =====
-- What `compare_positions` compares: the buckets of every contract.
use mathlib.Core.Path.{subst}
use afuture.Prelude.{
  Bool, true, false, not, ◌&&◌, ◌≡◌, refl, sym, ◌∙◌, ap, inl, inr, Bool-cases, arith, Option, none,
  some, List, [], ◌∷◌, ◌++◌, All, if◌then◌else◌, known,
}
use afuture.Dict.{
  Dict, Key, key_beq, key_beq_iff, key_eq, lookup, insert, lookup-insert, lookup-insert_self,
  All-insert,
}
use afuture.Models.{ContractPosition, is_empty}
use afuture.Reconcile.{
  Buckets, buckets_eq, found_eq, position_key, buckets_of, Normal, normal_step, normalized, within,
  dict_equal,
}

-- The first of two findings.
abbrev prefer : Option Buckets → Option Buckets → Option Buckets
prefer none o = o
prefer (some b) o = some b

prefer-found : (o r : Option Buckets) → known o ≡ true → prefer o r ≡ o
prefer-found none r h = cc
prefer-found (some b) r h = refl

unknown : (o : Option Buckets) → known o ≡ false → o ≡ none
unknown none h = refl
unknown (some b) h = cc

buckets_eq_refl : (a : Buckets) → buckets_eq a a ≡ true
buckets_eq_refl a = ground arith

buckets_eq_eq : (a b : Buckets) → buckets_eq a b ≡ true → a ≡ b
buckets_eq_eq a b h = ground arith

found_eq_eq : (a : Buckets) (o : Option Buckets) → found_eq a o ≡ true → o ≡ some a
found_eq_eq a none h = cc
found_eq_eq a (some b) h = ap some (sym (buckets_eq_eq a b h))

both : (a b : Bool) → (a && b) ≡ true → (a ≡ true) × (b ≡ true)
both a b h = ground arith

within-lookup :
    (a b : Dict Key Buckets) (k : Key) (v : Buckets)
    → within a b ≡ true
    → lookup k a ≡ some v
    → lookup k b ≡ some v
unfolding lookup
within-lookup [] b k v h found = cc
within-lookup ((j, w) ∷ a) b k v h found = elim (Bool-cases (key_beq j k)) [
  | inl same ↦
      subst (λ i. lookup i b ≡ some v) ((key_beq_iff j k).0 same)
        (found_eq_eq w (lookup j b) (both _ _ h).0 ∙ rw same at found)
  | inr other ↦ within-lookup a b k v (both _ _ h).1 (rw other at found)
]

pub same_lookup :
    (a b : Dict Key Buckets) (k : Key) (o r : Option Buckets)
    → dict_equal a b ≡ true
    → lookup k a ≡ o
    → lookup k b ≡ r
    → o ≡ r
same_lookup a b k (some v) r h found here = sym (within-lookup a b k v (both _ _ h).0 found) ∙ here
same_lookup a b k none none h found here = refl
same_lookup a b k none (some v) h found here =
    cc (sym found ∙ within-lookup b a k v (both (within a b) (within b a) h).1 here)

-- Every entry is what its key finds.
abbrev Own : Dict Key Buckets → Dict Key Buckets → Type 0
Own d = All (λ (e : Key × Buckets). lookup e.0 d ≡ some e.1)

pub within-Own :
    (a b es : Dict Key Buckets)
    → ((k : Key) → lookup k a ≡ lookup k b)
    → Own a es
    → within es b ≡ true
within-Own a b [] same h = refl
within-Own a b (e ∷ es) same h =
    rw (sym (same e.0) ∙ h.0, buckets_eq_refl e.1) (within-Own a b es same h.1)

Own-insert :
    (k : Key) (v : Buckets) (d es : Dict Key Buckets)
    → lookup k d ≡ none
    → Own d es
    → Own (insert k v d) es
Own-insert k v d [] fresh h = tt
Own-insert k v d (e ∷ es) fresh h = (
  rw (lookup-insert k e.0 v d) (elim (Bool-cases (key_beq k e.0)) [
    | inl same ↦ cc (subst (λ i. lookup i d ≡ some e.1) (sym ((key_beq_iff k e.0).0 same)) h.0)
    | inr other ↦ rw other h.0
  ]),
  Own-insert k v d es fresh h.1,
)

module _ {F : Type 0} where
  -- The buckets of the contract, from the first entry for it that is not empty.
  abbrev pub quantity : Key → List (ContractPosition F) → Option Buckets
  quantity k [] = none
  quantity k (p ∷ ps) =
      if not (is_empty p) && key_beq (position_key p) k then some (buckets_of p) else quantity k ps

  -- No contract has two entries that are not empty.
  abbrev pub Distinct : List (ContractPosition F) → Type 0
  Distinct [] = Unit
  Distinct (p ∷ ps) = (is_empty p ≡ false → quantity (position_key p) ps ≡ none) × Distinct ps

  -- The three rounds of the loop.
  pub step-empty : (p : ContractPosition F) (s : Normal) → is_empty p ≡ true → normal_step p s ≡ s
  step-empty p (r, d) empty = rw empty refl

  pub step-again :
      (p : ContractPosition F) (s : Normal)
      → is_empty p ≡ false
      → known (lookup (position_key p) s.0) ≡ true
      → normal_step p s ≡ (s.0, s.1 ++ position_key p ∷ [])
  step-again p (r, d) held again = rw (held, again) refl

  pub step-first :
      (p : ContractPosition F) (s : Normal)
      → is_empty p ≡ false
      → known (lookup (position_key p) s.0) ≡ false
      → normal_step p s ≡ (insert (position_key p) (buckets_of p) s.0, s.1)
  step-first p (r, d) held first = rw (held, first) refl

  pub normalized-Own :
      (ps : List (ContractPosition F)) (s : Normal)
      → Own s.0 s.0
      → Own (normalized ps s).0 (normalized ps s).0
  unfolding normalized
  normalized-Own [] s h = h
  normalized-Own (p ∷ ps) s h = elim (Bool-cases (is_empty p)) [
    | inl empty ↦ subst After (sym (step-empty p s empty)) (normalized-Own ps s h)
    | inr held ↦ elim (Bool-cases (known (lookup (position_key p) s.0))) [
      | inl again ↦
          subst After (sym (step-again p s held again))
            (normalized-Own ps (s.0, s.1 ++ position_key p ∷ []) h)
      | inr first ↦ subst After (sym (step-first p s held first)) (
          normalized-Own ps (insert (position_key p) (buckets_of p) s.0, s.1)
            (All-insert
              (λ (e : Key × Buckets).
                lookup e.0 (insert (position_key p) (buckets_of p) s.0) ≡ some e.1)
              (position_key p) (buckets_of p) s.0
              (lookup-insert_self (position_key p) (buckets_of p) s.0)
              (Own-insert (position_key p) (buckets_of p) s.0 s.0 (unknown _ first) h)))
    ]
  ]
    where
      After : Normal → Type 0
      After t = Own (normalized ps t).0 (normalized ps t).0

  pub normalized-lookup :
      (ps : List (ContractPosition F)) (s : Normal) (k : Key)
      → lookup k (normalized ps s).0 ≡ prefer (lookup k s.0) (quantity k ps)
  unfolding normalized
  normalized-lookup [] (r, d) k = right (lookup k r)
    where
      right : (o : Option Buckets) → o ≡ prefer o none
      right none = refl
      right (some b) = refl
  normalized-lookup (p ∷ ps) (r, d) k = elim (Bool-cases (is_empty p)) [
    | inl empty ↦
        subst Looked (sym (step-empty p (r, d) empty)) (rw empty (normalized-lookup ps (r, d) k))
    | inr held ↦ elim (Bool-cases (known (lookup (position_key p) r))) [
      | inl again ↦
          subst Looked (sym (step-again p (r, d) held again))
            (rw held (normalized-lookup ps (r, d ++ position_key p ∷ []) k ∙ kept again))
      | inr first ↦ subst Looked (sym (step-first p (r, d) held first)) (
          rw held
            (normalized-lookup ps (insert (position_key p) (buckets_of p) r, d) k ∙ added first))
    ]
  ]
    where
      Looked : Normal → Type 0
      Looked t = lookup k (normalized ps t).0 ≡ prefer (lookup k r) (quantity k (p ∷ ps))

      kept :
          known (lookup (position_key p) r) ≡ true
          → prefer (lookup k r) (quantity k ps)
            ≡ prefer
                (lookup k r)
                (if key_beq (position_key p) k then some (buckets_of p) else quantity k ps)
      kept again = elim (Bool-cases (key_beq (position_key p) k)) [
        | inl same ↦ rw same (
            let there =
              subst (λ i. known (lookup i r) ≡ true) ((key_beq_iff (position_key p) k).0 same)
                again in
            prefer-found (lookup k r) _ there ∙ sym (prefer-found (lookup k r) _ there))
        | inr other ↦ rw other refl
      ]

      added :
          known (lookup (position_key p) r) ≡ false
          → prefer (lookup k (insert (position_key p) (buckets_of p) r)) (quantity k ps)
            ≡ prefer
                (lookup k r)
                (if key_beq (position_key p) k then some (buckets_of p) else quantity k ps)
      added first =
          rw (lookup-insert (position_key p) k (buckets_of p) r)
            (elim (Bool-cases (key_beq (position_key p) k)) [
              | inl same ↦ rw same (
                  rw
                    (subst (λ i. lookup i r ≡ none) ((key_beq_iff (position_key p) k).0 same)
                      (unknown _ first))
                    refl)
              | inr other ↦ rw other refl
            ])

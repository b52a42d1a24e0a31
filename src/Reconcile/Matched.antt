-- ===== src/Reconcile/Matched.antt =====
-- What it means that `compare_positions` finds a match.
use mathlib.Core.Path.{subst}
use afuture.Prelude.{
  Bool, true, false, not, ◌&&◌, ◌||◌, ◌≡◌, refl, sym, ◌∙◌, ◌↔◌, inl, inr, Bool-cases, arith, Option,
  none, some, List, [], ◌∷◌, ◌++◌, All, if◌then◌else◌, known,
}
use afuture.Dict.{Dict, Key, key_beq, key_beq_iff, key_eq, lookup, insert, lookup-insert}
use afuture.Models.{ContractPosition, is_empty}
use afuture.Reconcile.{
  Buckets, position_key, buckets_of, Normal, normalized, dict_equal, no_keys, compare_positions,
}
use afuture.Reconcile.Agree.{
  quantity, Distinct, step-empty, step-again, step-first, normalized-Own, normalized-lookup,
  same_lookup, within-Own,
}

no_keys-more : (d : List Key) (k : Key) → no_keys (d ++ k ∷ []) ≡ false
no_keys-more [] k = refl
no_keys-more (j ∷ d) k = refl

not_there :
    (a b : Bool) (v : Buckets) (o : Option Buckets)
    → (if a && b then some v else o) ≡ none
    → (a ≡ true → b ≡ false) × (o ≡ none)
not_there true true v o h = cc
not_there true false v o h = (λ k. refl, h)
not_there false b v o h = (λ k. cc, h)

three :
    (a b c : Bool)
    → (if not a || not b then false else c) ≡ true
    → (a ≡ true) × (b ≡ true) × (c ≡ true)
three a b c h = ground arith

module _ {F : Type 0} where
  -- None of the entries that count is in the table.
  abbrev Fresh : Dict Key Buckets → List (ContractPosition F) → Type 0
  Fresh r = All (λ (p : ContractPosition F). is_empty p ≡ false → lookup (position_key p) r ≡ none)

  Fresh-insert :
      (k : Key) (v : Buckets) (r : Dict Key Buckets) (ps : List (ContractPosition F))
      → Fresh r ps
      → quantity k ps ≡ none
      → Fresh (insert k v r) ps
  Fresh-insert k v r [] fresh apart = tt
  Fresh-insert k v r (p ∷ ps) fresh apart =
      let other =
        not_there (not (is_empty p)) (key_beq (position_key p) k) (buckets_of p) (quantity k ps)
          apart in
      (
        λ held.
            rw (lookup-insert k (position_key p) v r)
              (rw (turned (position_key p) k (other.0 (rw held refl))) (fresh.0 held)),
        Fresh-insert k v r ps fresh.1 other.1,
      )
    where
      turned : (a b : Key) → key_beq a b ≡ false → key_beq b a ≡ false
      turned a b h = elim (Bool-cases (key_beq b a)) [
        | inl same ↦ cc (rw ((key_beq_iff b a).0 same, (key_beq_iff a a).1 refl) at h)
        | inr apart ↦ apart
      ]

  insert-Fresh :
      (k : Key) (v : Buckets) (r : Dict Key Buckets) (ps : List (ContractPosition F))
      → Fresh (insert k v r) ps
      → Fresh r ps × (quantity k ps ≡ none)
  insert-Fresh k v r [] fresh = (tt, refl)
  insert-Fresh k v r (p ∷ ps) fresh =
      let rest = insert-Fresh k v r ps fresh.1 in
      (
        (λ held. (split (is_empty p) refl held).0, rest.0),
        elim (Bool-cases (is_empty p)) [
          | inl empty ↦ rw empty rest.1
          | inr held ↦ rw (held, (split (is_empty p) refl held).1) rest.1
        ],
      )
    where
      split :
          (b : Bool)
          → is_empty p ≡ b
          → b ≡ false
          → (lookup (position_key p) r ≡ none) × (key_beq (position_key p) k ≡ false)
      split b same held =
          let there = rw (lookup-insert k (position_key p) v r) at (fresh.0 (same ∙ held)) in
          elim (Bool-cases (key_beq k (position_key p))) [
            | inl equal ↦ cc (rw equal at there)
            | inr apart ↦ (
              rw apart at there,
              elim (Bool-cases (key_beq (position_key p) k)) [
                | inl equal ↦ cc (
                    (key_beq_iff k (position_key p)).1
                      (sym ((key_beq_iff (position_key p) k).0 equal)))
                | inr away ↦ away
              ],
            )
          ]

  duplicate-free :
      (ps : List (ContractPosition F)) (s : Normal)
      → no_keys (normalized ps s).1 ≡ true
      → (no_keys s.1 ≡ true) × Fresh s.0 ps × Distinct ps
  unfolding normalized
  duplicate-free [] s h = (h, tt, tt)
  duplicate-free (p ∷ ps) s h = elim (Bool-cases (is_empty p)) [
    | inl empty ↦
        let r = duplicate-free ps s (subst None (step-empty p s empty) h) in
        (r.0, (λ held. cc, r.1), (λ held. cc, r.2))
    | inr held ↦ elim (Bool-cases (known (lookup (position_key p) s.0))) [
      | inl again ↦
          let r =
            duplicate-free ps (s.0, s.1 ++ position_key p ∷ [])
              (subst None (step-again p s held again) h) in
          cc (r.0, no_keys-more s.1 (position_key p))
      | inr first ↦
          let r =
            duplicate-free ps (insert (position_key p) (buckets_of p) s.0, s.1)
              (subst None (step-first p s held first) h) in
          let f = insert-Fresh (position_key p) (buckets_of p) s.0 ps r.1 in
          (r.0, (λ k. missing (lookup (position_key p) s.0) first, f.0), (λ k. f.1, r.2))
    ]
  ]
    where
      None : Normal → Type 0
      None t = no_keys (normalized ps t).1 ≡ true

      missing : (o : Option Buckets) → known o ≡ false → o ≡ none
      missing none k = refl
      missing (some b) k = cc

  free-duplicate :
      (ps : List (ContractPosition F)) (s : Normal)
      → no_keys s.1 ≡ true
      → Fresh s.0 ps
      → Distinct ps
      → no_keys (normalized ps s).1 ≡ true
  unfolding normalized
  free-duplicate [] s n f d = n
  free-duplicate (p ∷ ps) s n f d = elim (Bool-cases (is_empty p)) [
    | inl empty ↦ subst None (sym (step-empty p s empty)) (free-duplicate ps s n f.1 d.1)
    | inr held ↦ elim (Bool-cases (known (lookup (position_key p) s.0))) [
      | inl again ↦ cc (rw (f.0 held) at again)
      | inr first ↦ subst None (sym (step-first p s held first)) (
          free-duplicate ps (insert (position_key p) (buckets_of p) s.0, s.1) n
            (Fresh-insert (position_key p) (buckets_of p) s.0 ps f.1 (d.0 held)) d.1)
    ]
  ]
    where
      None : Normal → Type 0
      None t = no_keys (normalized ps t).1 ≡ true

  table_quantity :
      (ps : List (ContractPosition F)) (k : Key)
      → lookup k (normalized ps ([], [])).0 ≡ quantity k ps
  unfolding lookup
  table_quantity ps k = normalized-lookup ps ([], []) k

  all_Fresh : (ps : List (ContractPosition F)) → Fresh [] ps
  unfolding lookup
  all_Fresh [] = tt
  all_Fresh (p ∷ ps) = (λ held. refl, all_Fresh ps)

  -- The positions match exactly where neither side holds two entries that are not empty for one contract,
  -- and every contract has the same four buckets on both sides, or no entry that is not empty on both.
  pub compare_positions_iff :
      (local remote : List (ContractPosition F))
      → (compare_positions local remote ≡ true)
        ↔ (Distinct local × Distinct remote × ((k : Key) → quantity k local ≡ quantity k remote))
  unfolding compare_positions
  compare_positions_iff local remote = (
    λ h.
        let t = three (no_keys left.1) (no_keys right.1) (dict_equal left.0 right.0) h in
        (
          (duplicate-free local ([], []) t.0).2,
          (duplicate-free remote ([], []) t.1).2,
          λ k.
              same_lookup left.0 right.0 k (quantity k local) (quantity k remote) t.2
                (table_quantity local k) (table_quantity remote k),
        ),
    λ h.
        let same : (k : Key) → lookup k left.0 ≡ lookup k right.0 =
          λ k. table_quantity local k ∙ h.2 k ∙ sym (table_quantity remote k) in
        rw
          (
            free-duplicate local ([], []) refl (all_Fresh local) h.0,
            free-duplicate remote ([], []) refl (all_Fresh remote) h.1,
            within-Own left.0 right.0 left.0 same (normalized-Own local ([], []) tt),
            within-Own right.0 left.0 right.0 (λ k. sym (same k))
                (normalized-Own remote ([], []) tt),
          )
          refl,
  )
    where
      left : Normal
      left = normalized local ([], [])

      right : Normal
      right = normalized remote ([], [])

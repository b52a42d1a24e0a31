-- ===== src/Dict.antt =====
-- A Python dict in insertion order, over keys with a Boolean equality.
use mathlib.Core.Path.{subst}
use afuture.Prelude.{
  All, Bool-cases, inl, inr, sym, String, ◌≡◌, refl, ◌≢◌, ◌↔◌, Bool, true, false, ◌&&◌, Option,
  none, some, List, [], ◌∷◌, arith, if◌then◌else◌, known,
}
use afuture.Prelude.Sets.{member}
use afuture.Prelude.Text.{str_eq, str_eq_iff}

pub record Eq {ℓ} (K : Type ℓ) : Type ℓ where
  pub beq : K → K → Bool
  pub beq_iff : (a b : K) → (beq a b ≡ true) ↔ (a ≡ b)

instance abbrev pub string_eq : Eq String
string_eq = record { beq = str_eq; beq_iff = str_eq_iff }

-- The pair of a symbol and an exchange, the key of every table of contracts.
pub record Key : Type 0 where
  pub symbol : String
  pub exchange : String

abbrev pub key_beq : Key → Key → Bool
key_beq a b = str_eq a.symbol b.symbol && str_eq a.exchange b.exchange

pub key_beq_iff : (a b : Key) → (key_beq a b ≡ true) ↔ (a ≡ b)
key_beq_iff a b = (
  λ h. ground (arith, str_eq_iff a.symbol b.symbol, str_eq_iff a.exchange b.exchange),
  λ h. ground (arith, str_eq_iff a.symbol b.symbol, str_eq_iff a.exchange b.exchange),
)

instance abbrev pub key_eq : Eq Key
key_eq = record { beq = key_beq; beq_iff = key_beq_iff }

abbrev pub Dict {ℓ} : Type ℓ → Type ℓ → Type ℓ
Dict K V = List (K × V)

module _ {K : Type 0} ⦃e : Eq K⦄ where
  pub beq_refl : (k : K) → e.beq k k ≡ true
  beq_refl k = (e.beq_iff k k).1 refl

  pub beq_ne : (j k : K) → j ≢ k → e.beq j k ≡ false
  beq_ne j k h = ground (arith, e.beq_iff j k, h)

module _ {K V : Type 0} ⦃e : Eq K⦄ where
  -- `d.get(k)`
  unfoldable pub lookup : K → Dict K V → Option V
  lookup k [] = none
  lookup k ((j, v) ∷ d) = if e.beq j k then some v else lookup k d

  -- `d[k] = v`: a key that is there keeps its place.
  unfoldable pub insert : K → V → Dict K V → Dict K V
  insert k v [] = (k, v) ∷ []
  insert k v ((j, w) ∷ d) = if e.beq j k then (j, v) ∷ d else (j, w) ∷ insert k v d

  pub lookup-insert :
      (k j : K) (v : V) (d : Dict K V)
      → lookup j (insert k v d) ≡ (if e.beq k j then some v else lookup j d)
  unfolding lookup insert
  lookup-insert k j v [] = refl
  lookup-insert k j v ((i, w) ∷ d) =
      ground (arith, e.beq_iff k j, e.beq_iff i k, e.beq_iff i j, lookup-insert k j v d)

  pub lookup-insert_self : (k : K) (v : V) (d : Dict K V) → lookup k (insert k v d) ≡ some v
  lookup-insert_self k v d = simp (lookup-insert, beq_refl)

  pub lookup-insert_ne :
      (j k : K) (v : V) (d : Dict K V) → j ≢ k → lookup k (insert j v d) ≡ lookup k d
  lookup-insert_ne j k v d h = simp (lookup-insert, beq_ne j k h)

pub some_eq : {A : Type 0} (a b : A) → some a ≡ some b → a ≡ b
some_eq a b h = cc

-- A predicate on the entries that depends on a key only up to equality.
module _ {K V : Type 0} ⦃e : Eq K⦄ (P : K × V → Type 0) where
  pub All-insert : (k : K) (v : V) (d : Dict K V) → P (k, v) → All P d → All P (insert k v d)
  unfolding insert
  All-insert k v [] p h = (p, tt)
  All-insert k v ((j, w) ∷ d) p h = elim (Bool-cases (e.beq j k)) [
    | inl same ↦ rw same (subst (λ i. P (i, v)) (sym ((e.beq_iff j k).0 same)) p, h.1)
    | inr other ↦ rw other (h.0, All-insert k v d p h.1)
  ]

  pub All-lookup : (k : K) (v : V) (d : Dict K V) → All P d → lookup k d ≡ some v → P (k, v)
  unfolding lookup
  All-lookup k v [] h found = cc
  All-lookup k v ((j, w) ∷ d) h found = elim (Bool-cases (e.beq j k)) [
    | inl same ↦
        subst (λ u. P (k, u)) (some_eq w v (rw same at found))
          (subst (λ i. P (i, w)) ((e.beq_iff j k).0 same) h.0)
    | inr other ↦ All-lookup k v d h.1 (rw other at found)
  ]

-- A dict and its keys.
module _ {V : Type 0} where
  -- `d.keys()`
  abbrev pub keys : Dict String V → List String
  keys [] = []
  keys ((k, v) ∷ d) = k ∷ keys d

  -- A key occurs once, as in every Python dict.
  abbrev pub Unique : Dict String V → Type 0
  Unique [] = Unit
  Unique ((k, v) ∷ d) = (lookup k d ≡ none) × Unique d

  pub member-keys : (s : String) (d : Dict String V) → member s (keys d) ≡ known (lookup s d)
  unfolding lookup
  member-keys s [] = refl
  member-keys s ((k, v) ∷ d) = ground (arith, str_eq_iff s k, str_eq_iff k s, member-keys s d)

  pub lookup-none : (d : Dict String V) → ((s : String) → lookup s d ≡ none) → d ≡ []
  unfolding lookup
  lookup-none [] h = refl
  lookup-none ((k, v) ∷ d) h = cc (rw (beq_refl k) at (h k))

  nothing_at : (k : String) → lookup {V = V} k [] ≡ none
  unfolding lookup
  nothing_at k = refl

  Unique-entry :
      (k s : String) (v w : V) (d : Dict String V)
      → (lookup s d ≡ none) × Unique d
      → Unique (insert k v d)
      → Unique (if str_eq s k then (s, v) ∷ d else (s, w) ∷ insert k v d)
  Unique-entry k s v w d h u = elim (Bool-cases (str_eq s k)) [
    | inl same ↦ rw same h
    | inr other ↦
        rw other
          (rw (lookup-insert k s v d) (ground (arith, str_eq_iff s k, str_eq_iff k s, h.0)), u)
  ]

  pub Unique-insert : (k : String) (v : V) (d : Dict String V) → Unique d → Unique (insert k v d)
  unfolding insert
  Unique-insert k v [] u = (nothing_at k, tt)
  Unique-insert k v ((s, w) ∷ d) u = Unique-entry k s v w d (u.0, u.1) (Unique-insert k v d u.1)

-- ===== src/Risk/Rates.antt =====
-- The rate limiter against the rule that it stands for, which keeps every allowed time.
use afuture.Prelude.{
  ok_eq, ℕ, suc, ◌+◌, Bool, true, false, ◌≡◌, refl, sym, ◌∙◌, ap, inl, inr, Bool-cases, arith, List,
  [], ◌∷◌, ◌++◌, if◌then◌else◌, length, All, All-append, ok,
}
use mathlib.Core.Path.{subst}
use afuture.Prelude.Int.{ℤ, pos, leb_ℤ}
use afuture.Float.{FloatOps, FloatOrder}
use afuture.Risk.Limiter.{OrderRateLimiter, drop_expired, cutoff_of, allow, new_limiter}

module _ {F : Type 0} ⦃fl : FloatOps F⦄ where
  -- How many of the times come after the cutoff.
  unfoldable pub recent : F → List F → ℕ
  recent cutoff [] = 0
  recent cutoff (t ∷ ts) = let n = recent cutoff ts in if fl.le t cutoff then n else suc n

  -- The rule: an order is allowed where fewer than `limit` were allowed in the sixty seconds before.
  unfoldable pub decide_all : ℤ → List F → List F → List Bool
  unfolding recent
  decide_all limit history [] = []
  decide_all limit history (now ∷ later) =
      let yes = decide_all limit (history ++ now ∷ []) later in
      let no = decide_all limit history later in
      if leb_ℤ limit (pos (recent (cutoff_of now) history)) then false ∷ no else true ∷ yes

  -- The answers of the limiter, call after call.
  unfoldable pub allow_all : OrderRateLimiter F → List F → List Bool
  unfolding allow
  allow_all limiter [] = []
  allow_all limiter (now ∷ later) = let r = allow now limiter in r.0 ∷ allow_all r.1 later

  -- The times of a clock that does not go back.
  abbrev pub Ascending : List F → Type 0
  Ascending [] = Unit
  Ascending (t ∷ ts) = All (λ u. fl.le t u ≡ true) ts × Ascending ts

  recent-append : (c : F) (xs ys : List F) → recent c (xs ++ ys) ≡ recent c xs + recent c ys
  unfolding recent
  recent-append c [] ys = omega arith
  recent-append c (x ∷ xs) ys = elim (Bool-cases (fl.le x c)) [
    | inl old ↦ rw old (recent-append c xs ys)
    | inr new ↦ rw new (omega (arith, recent-append c xs ys))
  ]

  recent-expired : (c : F) (xs : List F) → All (λ t. fl.le t c ≡ true) xs → recent c xs ≡ 0
  unfolding recent
  recent-expired c [] h = refl
  recent-expired c (x ∷ xs) h = rw (h.0) (recent-expired c xs h.1)

module _ {F : Type 0} ⦃fl : FloatOps F⦄ (order : FloatOrder F fl) where
  -- The times that stay are those after the cutoff.
  recent-All : (c : F) (ts : List F) → All (λ t. fl.le t c ≡ false) ts → recent c ts ≡ length ts
  unfolding recent
  recent-All c [] h = refl
  recent-All c (t ∷ ts) h = rw h.0 (ap suc (recent-All c ts h.1))

  All-later :
      (c t : F) (ts : List F)
      → fl.le t c ≡ false
      → All (λ u. fl.le t u ≡ true) ts
      → All (λ u. fl.le u c ≡ false) ts
  All-later c t [] h k = tt
  All-later c t (u ∷ us) h k = (
    elim (Bool-cases (fl.le u c)) [
      | inl below ↦ cc (order.le_trans t u c k.0 below)
      | inr above ↦ above
    ],
    All-later c t us h k.1,
  )

  All-left : (P : F → Type 0) (xs ys : List F) → All P (xs ++ ys) → All P xs
  All-left P [] ys h = tt
  All-left P (x ∷ xs) ys h = (h.0, All-left P xs ys h.1)

  All-skip :
      (P : F → Type 0) (xs : List F) (y : F) (ys : List F) → All P (xs ++ y ∷ ys) → All P (xs ++ ys)
  All-skip P [] y ys h = h.1
  All-skip P (x ∷ xs) y ys h = (h.0, All-skip P xs y ys h.1)

  Ascending-skip :
      (xs : List F) (y : F) (ys : List F) → Ascending (xs ++ y ∷ ys) → Ascending (xs ++ ys)
  Ascending-skip [] y ys h = h.1
  Ascending-skip (x ∷ xs) y ys h =
      (All-skip (λ u. fl.le x u ≡ true) xs y ys h.0, Ascending-skip xs y ys h.1)

  Ascending-right : (xs ys : List F) → Ascending (xs ++ ys) → Ascending ys
  Ascending-right [] ys h = h
  Ascending-right (x ∷ xs) ys h = Ascending-right xs ys h.1

  append_assoc : (xs ys zs : List F) → (xs ++ ys) ++ zs ≡ xs ++ (ys ++ zs)
  append_assoc [] ys zs = refl
  append_assoc (x ∷ xs) ys zs = ap (λ r. x ∷ r) (append_assoc xs ys zs)

  record Split (cutoff : F) (ts later : List F) : Type 0 where
    old : List F
    split : ts ≡ old ++ drop_expired cutoff ts
    expired : All (λ t. fl.le t cutoff ≡ true) old
    live : All (λ t. fl.le t cutoff ≡ false) (drop_expired cutoff ts)
    ordered : Ascending (drop_expired cutoff ts ++ later)

  drop_expired-Split :
      (cutoff : F) (ts later : List F) → Ascending (ts ++ later) → Split cutoff ts later
  unfolding drop_expired
  drop_expired-Split cutoff [] later h = record {
    old = [];
    split = refl;
    expired = tt;
    live = tt;
    ordered = h;
  }
  drop_expired-Split cutoff (t ∷ ts) later h = elim (Bool-cases (fl.le t cutoff)) [
    | inl old ↦
        let s = drop_expired-Split cutoff ts later h.1 in
        record {
          old = t ∷ s.old;
          split = rw old (ap (λ r. t ∷ r) s.split);
          expired = (old, s.expired);
          live = rw old s.live;
          ordered = rw old s.ordered;
        }
    | inr new ↦ record {
      old = [];
      split = rw new refl;
      expired = tt;
      live =
          rw new (new, All-later cutoff t ts new (All-left (λ u. fl.le t u ≡ true) ts later h.0));
      ordered = rw new h;
    }
  ]

  expired_later :
      (now n : F) (xs : List F)
      → fl.le now n ≡ true
      → All (λ t. fl.le t (cutoff_of now) ≡ true) xs
      → All (λ t. fl.le t (cutoff_of n) ≡ true) xs
  expired_later now n [] h k = tt
  expired_later now n (x ∷ xs) h k = (
    order.le_trans x (cutoff_of now) (cutoff_of n) k.0
        (order.sub_mono now n (fl.of_int (pos 60)) (order.small_finite 60 (omega arith)) h),
    expired_later now n xs h k.1,
  )

  abbrev Expired : List F → List F → Type 0
  Expired old later = All (λ n. All (λ t. fl.le t (cutoff_of n) ≡ true) old) later

  Expired-append :
      (now : F) (old xs later : List F)
      → All (λ t. fl.le t (cutoff_of now) ≡ true) xs
      → All (λ n. fl.le now n ≡ true) later
      → Expired old later
      → Expired (old ++ xs) later
  Expired-append now old xs [] k a h = tt
  Expired-append now old xs (n ∷ ns) k a h = (
    All-append (λ t. fl.le t (cutoff_of n) ≡ true) old xs h.0 (expired_later now n xs a.0 k),
    Expired-append now old xs ns k a.1 h.1,
  )

  recent_count :
      (now : F) (old xs d : List F)
      → All (λ t. fl.le t (cutoff_of now) ≡ true) old
      → All (λ t. fl.le t (cutoff_of now) ≡ true) xs
      → All (λ t. fl.le t (cutoff_of now) ≡ false) d
      → recent (cutoff_of now) ((old ++ xs) ++ d) ≡ length d
  recent_count now old xs d h k l =
      let c = cutoff_of now in
      omega (
        arith,
        recent-append c (old ++ xs) d,
        recent-append c old xs,
        recent-expired c old h,
        recent-expired c xs k,
        recent-All c d l,
      )

  none-Expired : (nows : List F) → Expired [] nows
  none-Expired [] = tt
  none-Expired (n ∷ ns) = (tt, none-Expired ns)

  allow_all-refines :
      (limit : ℤ) (old ts nows : List F)
      → Expired old nows
      → Ascending (ts ++ nows)
      → allow_all (record { max_orders_per_minute = limit; timestamps = ts }) nows
        ≡ decide_all limit (old ++ ts) nows
  unfolding allow_all decide_all
  allow_all-refines limit old ts [] h k = refl
  allow_all-refines limit old ts (now ∷ later) h k =
      let s = drop_expired-Split (cutoff_of now) ts (now ∷ later) k in
      let d = drop_expired (cutoff_of now) ts in
      let history : old ++ ts ≡ (old ++ s.old) ++ d =
        ap (λ r. old ++ r) s.split ∙ sym (append_assoc old s.old d) in
      let after =
        Expired-append now old s.old later s.expired (Ascending-right d (now ∷ later) s.ordered).0
          h.1 in
      rw (history, recent_count now old s.old d h.0 s.expired s.live)
        (elim (Bool-cases (leb_ℤ limit (pos (length d)))) [
          | inl full ↦ rw full (
              ap (λ r. false ∷ r)
                (allow_all-refines limit (old ++ s.old) d later after
                  (Ascending-skip d now later s.ordered)))
          | inr free ↦ rw free (
              ap (λ r. true ∷ r)
                (allow_all-refines limit (old ++ s.old) (d ++ now ∷ []) later after
                    (subst Ascending (sym (append_assoc d (now ∷ []) later)) s.ordered)
                  ∙ ap (λ r. decide_all limit r later)
                      (sym (append_assoc (old ++ s.old) d (now ∷ [])))))
        ])

  -- On a clock that does not go back, the limiter, which forgets the times that expire, gives for any
  -- sequence of calls the answers of the rule that keeps them all: an order is allowed exactly where
  -- fewer than the limit were allowed in the sixty seconds before it.
  pub allow_all-eq-decide_all :
      (limit : ℤ) (limiter : OrderRateLimiter F) (nows : List F)
      → new_limiter limit ≡ ok limiter
      → Ascending nows
      → allow_all limiter nows ≡ decide_all limit [] nows
  unfolding new_limiter
  allow_all-eq-decide_all limit limiter nows made clock = elim (Bool-cases (leb_ℤ limit (pos 0))) [
    | inl bad ↦ cc (rw bad at made)
    | inr good ↦
        subst (λ l. allow_all l nows ≡ decide_all limit [] nows)
          (ok_eq _ limiter (new_limiter limit) (rw good refl) made)
          (allow_all-refines limit [] [] nows (none-Expired nows) clock)
  ]

-- ===== src/Execution/Closing.antt =====
-- The children of a close do not open, and how a property goes through steps that may raise.
use afuture.Prelude.{
  String, Bool, true, false, ◌||◌, ◌≡◌, refl, inl, inr, Bool-cases, List, [], ◌∷◌, map, All, Result,
  ok, err,
}
use afuture.Prelude.Int.{ℤ, pos, ◌+ℤ◌, ◌-ℤ◌, leb_ℤ, ltb_ℤ, eqb_ℤ, min_ℤ}
use afuture.Prelude.Text.{is_blank}
use afuture.Dict.{string_eq}
use afuture.Float.{FloatOps}
use afuture.Models.{
  Error, OrderSide, Offset, close_today, close_yesterday, is_opening, OrderRequest,
}
use afuture.Position.Book.{PositionBook, fetch, available}
use afuture.Position.Plan.{
  take_buckets, ordered_buckets, is_special, plan_children, child_request, plan_close,
}
use afuture.Execution.{and_then, raising}

abbrev ClosingPart : Offset × ℤ → Type 0
ClosingPart e = is_opening e.0 ≡ false

take_buckets-Closing :
    (n : ℤ) (bs : List (Offset × ℤ)) → All ClosingPart bs → All ClosingPart (take_buckets n bs)
unfolding take_buckets
take_buckets-Closing n [] h = tt
take_buckets-Closing n ((offset, held) ∷ bs) h =
    let rest = take_buckets-Closing (n -ℤ min_ℤ n held) bs h.1 in
    elim (Bool-cases (eqb_ℤ (min_ℤ n held) (pos 0))) [
      | inl none_left ↦ rw none_left rest
      | inr taken ↦ rw taken (h.0, rest)
    ]

plan_children-Closing :
    (special first : Bool) (today yesterday volume : ℤ)
    → All ClosingPart (plan_children special first today yesterday volume)
unfolding plan_children
plan_children-Closing false first today yesterday volume = (refl, tt)
plan_children-Closing true true today yesterday volume =
    take_buckets-Closing volume (ordered_buckets true today yesterday) (refl, (refl, tt))
plan_children-Closing true false today yesterday volume =
    take_buckets-Closing volume (ordered_buckets false today yesterday) (refl, (refl, tt))

-- What a step leaves where it returns, and where it raises.
abbrev pub Ends : {S A : Type 0} → (S → Type 0) → (A → Type 0) → Result Error A × S → Type 0
Ends P Q (ok a, s) = Q a × P s
Ends P Q (err e, s) = P s

pub and_then-Ends :
    {S A C : Type 0} (P : S → Type 0) (Q : A → Type 0) (R : C → Type 0) (r : Result Error A × S)
    (next : A → S → Result Error C × S)
    → Ends P Q r
    → ((a : A) (s : S) → Q a → P s → Ends P R (next a s))
    → Ends P R (and_then r next)
and_then-Ends P Q R (ok a, s) next h k = k a s h.0 h.1
and_then-Ends P Q R (err e, s) next h k = h

pub raising-Ends :
    {S A C : Type 0} (P : S → Type 0) (R : C → Type 0) (r : Result Error A) (s : S)
    (next : A → S → Result Error C × S)
    → P s
    → ((a : A) → Ends P R (next a s))
    → Ends P R (raising r s next)
raising-Ends P R (ok a) s next h k = k a
raising-Ends P R (err e) s next h k = h

abbrev pub Any : {A : Type 0} → A → Type 0
Any a = Unit

module _ {F : Type 0} ⦃fl : FloatOps F⦄ where
  abbrev pub Closing : OrderRequest F → Type 0
  Closing r = is_opening r.offset ≡ false

  map-Closing :
      (symbol exchange : String) (side : OrderSide) (price : F) (reference : String)
      (parts : List (Offset × ℤ))
      → All ClosingPart parts
      → All Closing (map (child_request symbol exchange side price reference) parts)
  map-Closing symbol exchange side price reference [] h = tt
  map-Closing symbol exchange side price reference ((offset, n) ∷ parts) h =
      (h.0, map-Closing symbol exchange side price reference parts h.1)

  pub plan_close-Closing :
      (symbol exchange : String) (side : OrderSide) (volume : ℤ) (first : Bool) (price : F)
      (reference : String) (book : PositionBook F)
      → Ends
          (λ _. Unit)
          (All Closing)
          (plan_close symbol exchange side volume first price reference book)
  unfolding plan_close
  plan_close-Closing symbol exchange side volume first price reference book =
      elim (Bool-cases (leb_ℤ volume (pos 0))) [
        | inl empty ↦ rw empty tt
        | inr sized ↦ elim (Bool-cases (is_blank symbol || is_blank exchange)) [
          | inl blank ↦ rw (sized, blank) tt
          | inr named ↦ elim (Bool-cases (ltb_ℤ (today +ℤ yesterday) volume)) [
            | inl over ↦ rw (sized, named, over) tt
            | inr fits ↦
                rw (sized, named, fits)
                  (
                    map-Closing symbol exchange side price reference _
                        (plan_children-Closing (is_special exchange) first today yesterday volume),
                    tt,
                  )
          ]
        ]
      ]
    where
      today : ℤ
      today =
          available side close_today
            (fetch (record { symbol = symbol; exchange = exchange }) book).0

      yesterday : ℤ
      yesterday =
          available side close_yesterday
            (fetch (record { symbol = symbol; exchange = exchange }) book).0

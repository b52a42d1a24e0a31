-- ===== src/Risk/Volumes.antt =====
-- What a batch of opening orders that passes has promised, order by order and in sum.
use mathlib.Core.Path.{subst}
use afuture.Prelude.{
  String, Bool, true, false, ◌&&◌, ◌≡◌, refl, inl, inr, Bool-cases, Option, none, some, List, [],
  ◌∷◌, All, any, ok, if◌then◌else◌, or_else, known, ok_eq,
}
use afuture.Prelude.Int.{ℤ, pos, ◌+ℤ◌, ◌≤ℤ◌, ◌<ℤ◌, leb_ℤ, ltb_ℤ, int_laws, ltb_ℤ→ge, leb_ℤ→gt}
use afuture.Prelude.Text.{str_eq, str_eq_iff}
use afuture.Dict.{Dict, string_eq, lookup, insert, lookup-insert}
use afuture.Float.{FloatOps}
use afuture.Models.{is_opening, OrderRequest, ContractSpec}
use afuture.Risk.Config.{RiskConfig}
use afuture.Risk.Batch.{volume_of, order_margin, add_margin, next_order, check_orders}

volume_of-insert :
    (s t : String) (v : ℤ) (table : Dict String ℤ)
    → volume_of s (insert t v table) ≡ (if str_eq t s then v else volume_of s table)
volume_of-insert s t v table = rw (lookup-insert t s v table) (picked (str_eq t s))
  where
    picked :
        (b : Bool)
        → or_else (if b then some v else lookup s table) (pos 0)
          ≡ (if b then v else or_else (lookup s table) (pos 0))
    picked true = refl
    picked false = refl

module _ {F : Type 0} where
  -- The order opens the symbol.
  abbrev pub opens : String → OrderRequest F → Bool
  opens s o = is_opening o.offset && str_eq o.symbol s

  abbrev pub opened : String → List (OrderRequest F) → ℤ
  opened s [] = pos 0
  opened s (o ∷ orders) = if opens s o then o.volume +ℤ opened s orders else opened s orders

  none_opened :
      (s : String) (orders : List (OrderRequest F))
      → any (opens s) orders ≡ false
      → opened s orders ≡ pos 0
  none_opened s [] h = refl
  none_opened s (o ∷ orders) h = elim (Bool-cases (opens s o)) [
    | inl here ↦ cc (rw here at h)
    | inr elsewhere ↦ rw elsewhere (none_opened s orders (rw elsewhere at h))
  ]

module _ {F : Type 0} ⦃fl : FloatOps F⦄ where
  -- An opening order has a volume, and its contract is known.
  abbrev pub OrderKnown : Dict String (ContractSpec F) → OrderRequest F → Type 0
  OrderKnown specs o =
      is_opening o.offset ≡ true → (pos 0 <ℤ o.volume) × (known (lookup o.symbol specs) ≡ true)

  abbrev pub margin_step : Option (ContractSpec F) → OrderRequest F → F → F
  margin_step none o margin = margin
  margin_step (some spec) o margin = fl.add margin (order_margin o spec)

  -- The margins of the opening orders, added up in their order.
  abbrev pub margin_after : Dict String (ContractSpec F) → List (OrderRequest F) → F → F
  margin_after specs [] margin = margin
  margin_after specs (o ∷ orders) margin =
      margin_after specs orders
        (if is_opening o.offset then margin_step (lookup o.symbol specs) o margin else margin)

  pub record Passed (c : RiskConfig F) (specs : Dict String (ContractSpec F))
      (current requested : Dict String ℤ) (orders : List (OrderRequest F)) (margin total : F)
      : Type 0 where
    pub each : All (OrderKnown specs) orders
    pub sum : total ≡ margin_after specs orders margin
    pub volumes :
        (s : String)
        → any (opens s) orders ≡ true
        → volume_of s current +ℤ (volume_of s requested +ℤ opened s orders) ≤ℤ c.max_contract_volume

  module _ (c : RiskConfig F) (specs : Dict String (ContractSpec F)) (current : Dict String ℤ) where
    wanted : OrderRequest F → Dict String ℤ → ℤ
    wanted o requested = volume_of o.symbol requested +ℤ o.volume

    -- The total of the order's own symbol, from the check of this order and from the later ones.
    own_volumes :
        (o : OrderRequest F) (orders : List (OrderRequest F)) (requested : Dict String ℤ)
        (margin total : F)
        → is_opening o.offset ≡ true
        → ltb_ℤ c.max_contract_volume
            (volume_of o.symbol current +ℤ (volume_of o.symbol requested +ℤ o.volume))
          ≡ false
        → Passed c specs current
            (insert o.symbol (volume_of o.symbol requested +ℤ o.volume) requested)
            orders
            margin
            total
        → volume_of o.symbol current
            +ℤ (volume_of o.symbol requested +ℤ (o.volume +ℤ opened o.symbol orders))
          ≤ℤ c.max_contract_volume
    own_volumes o orders requested margin total opening fits p =
        elim (Bool-cases (any (opens o.symbol) orders)) [
          | inl again ↦
              let h =
                rw
                  (
                    volume_of-insert o.symbol o.symbol (volume_of o.symbol requested +ℤ o.volume)
                        requested,
                    (str_eq_iff o.symbol o.symbol).1 refl,
                  )
                  at (p.volumes o.symbol again) in
              omega int_laws
          | inr last ↦ rw (none_opened o.symbol orders last) (
              let bound =
                ltb_ℤ→ge c.max_contract_volume
                  (volume_of o.symbol current +ℤ (volume_of o.symbol requested +ℤ o.volume)) fits in
              omega int_laws)
        ]

    Passed-opening :
        (o : OrderRequest F) (orders : List (OrderRequest F)) (requested : Dict String ℤ)
        (margin total : F) (spec : ContractSpec F)
        → is_opening o.offset ≡ true
        → leb_ℤ o.volume (pos 0) ≡ false
        → ltb_ℤ c.max_contract_volume
            (volume_of o.symbol current +ℤ (volume_of o.symbol requested +ℤ o.volume))
          ≡ false
        → lookup o.symbol specs ≡ some spec
        → Passed c specs current
            (insert o.symbol (volume_of o.symbol requested +ℤ o.volume) requested)
            orders
            (fl.add margin (order_margin o spec))
            total
        → Passed c specs current requested (o ∷ orders) margin total
    Passed-opening o orders requested margin total spec opening sized fits found p = record {
      each = (λ h. (leb_ℤ→gt o.volume sized, rw found refl), p.each);
      sum = rw (opening, found) p.sum;
      volumes = λ s h. elim (Bool-cases (str_eq o.symbol s)) [
        | inl same ↦ subst Within ((str_eq_iff o.symbol s).0 same) (
            rw (opening, (str_eq_iff o.symbol o.symbol).1 refl)
              (own_volumes o orders requested _ total opening fits p))
        | inr other ↦
            rw (opening, other)
              (rw
                (
                  volume_of-insert s o.symbol (volume_of o.symbol requested +ℤ o.volume) requested,
                  other,
                )
                at (p.volumes s (rw (opening, other) at h)))
      ];
    }
      where
        Within : String → Type 0
        Within s =
            volume_of s current +ℤ (volume_of s requested +ℤ opened s (o ∷ orders))
            ≤ℤ c.max_contract_volume

    check_one-Passed :
        (o : OrderRequest F) (orders : List (OrderRequest F)) (requested : Dict String ℤ)
        (margin total : F) (spec : Option (ContractSpec F))
        → ((requested' : Dict String ℤ) (margin' : F)
            → check_orders c specs current orders requested' margin' ≡ ok total
            → Passed c specs current requested' orders margin' total)
        → is_opening o.offset ≡ true
        → leb_ℤ o.volume (pos 0) ≡ false
        → ltb_ℤ c.max_contract_volume
            (volume_of o.symbol current +ℤ (volume_of o.symbol requested +ℤ o.volume))
          ≡ false
        → lookup o.symbol specs ≡ spec
        → next_order
            (check_orders c specs current orders)
            (insert o.symbol (volume_of o.symbol requested +ℤ o.volume) requested)
            (add_margin o margin spec)
          ≡ ok total
        → Passed c specs current requested (o ∷ orders) margin total
    check_one-Passed o orders requested margin total none later opening sized fits found r = cc
    check_one-Passed o orders requested margin total (some spec) later opening sized fits found r =
        Passed-opening o orders requested margin total spec opening sized fits found (later _ _ r)

    pub check_orders-Passed :
        (orders : List (OrderRequest F)) (requested : Dict String ℤ) (margin total : F)
        → check_orders c specs current orders requested margin ≡ ok total
        → Passed c specs current requested orders margin total
    unfolding check_orders
    check_orders-Passed [] requested margin total r = record {
      each = tt;
      sum = ok_eq total margin (check_orders c specs current [] requested margin) r refl;
      volumes = λ s h. cc;
    }
    check_orders-Passed (o ∷ orders) requested margin total r =
        let later : (requested' : Dict String ℤ) (margin' : F)
            → check_orders c specs current orders requested' margin' ≡ ok total
            → Passed c specs current requested' orders margin' total =
          λ requested' margin' k. check_orders-Passed orders requested' margin' total k in
        elim (Bool-cases (is_opening o.offset)) [
          | inr closing ↦
              let p = later requested margin (rw closing at r) in
              record {
                each = (λ h. cc, p.each);
                sum = rw closing p.sum;
                volumes = λ s h. rw closing (p.volumes s (rw closing at h));
              }
          | inl opening ↦ elim (Bool-cases (leb_ℤ o.volume (pos 0))) [
            | inl empty ↦ cc (rw (opening, empty) at r)
            | inr sized ↦
                elim (Bool-cases (
                  ltb_ℤ c.max_contract_volume
                    (volume_of o.symbol current +ℤ (volume_of o.symbol requested +ℤ o.volume)))) [
                      | inl over ↦ cc (rw (opening, sized, over) at r)
                      | inr fits ↦
                          check_one-Passed o orders requested margin total (lookup o.symbol specs)
                            later opening sized fits refl (rw (opening, sized, fits) at r)
                    ]
          ]
        ]

-- ===== src/Risk/Opening.antt =====
-- What a batch of opening orders has passed when `RiskManager` allows it.
use mathlib.Core.Path.{subst}
use afuture.Prelude.{
  String, Bool, true, false, ◌≡◌, refl, sym, ◌∙◌, inl, inr, Bool-cases, arith, Option, none, some,
  List, [], ◌∷◌, All, any, Result, ok, err, if◌then◌else◌,
}
use afuture.Prelude.Int.{ℤ, pos, ◌+ℤ◌, ◌≤ℤ◌, ◌<ℤ◌, leb_ℤ, ltb_ℤ, int_laws}
use afuture.Dict.{Dict, string_eq, lookup}
use afuture.Float.{FloatOps, FloatOrder, fzero}
use afuture.Models.{
  Error, is_opening, OrderRequest, AccountSnapshot, bad_snapshot, ContractSpec, RiskDecision,
}
use afuture.Risk.Config.{RiskConfig}
use afuture.Risk.Manager.{
  RiskManager, bad_equity, new_day, judge, judge_started, set_day_start_equity, check_account,
}
use afuture.Risk.Drawdown.{Allowed, WithinLimits, check_account-WithinLimits}
use afuture.Risk.Batch.{
  volume_of, add_margin, next_order, check_orders, check_margin, check_batch, check_open_orders,
  check_open_batch,
}
use afuture.Risk.Volumes.{opens, opened, OrderKnown, margin_after, check_orders-Passed}

leb_ℤ→lt : (a b : ℤ) → leb_ℤ a b ≡ false → b <ℤ a
leb_ℤ→lt a b h = ground arith

from_none : (a b l : ℤ) → a +ℤ (pos 0 +ℤ b) ≤ℤ l → a +ℤ b ≤ℤ l
from_none a b l h = omega int_laws

module _ {F : Type 0} ⦃fl : FloatOps F⦄ where
  -- What the batch would leave is inside the limits of the configuration.
  pub record BatchWithin (c : RiskConfig F) (specs : Dict String (ContractSpec F))
      (current : Dict String ℤ) (account : AccountSnapshot F) (orders : List (OrderRequest F))
      : Type 0 where
    pub each : All (OrderKnown specs) orders
    pub volumes :
        (s : String)
        → any (opens s) orders ≡ true
        → volume_of s current +ℤ opened s orders ≤ℤ c.max_contract_volume
    pub margin :
        let post =
          fl.add account.margin
            (fl.mul (margin_after specs orders fzero) c.margin_estimate_buffer) in
        (fl.lt c.max_margin_ratio (fl.div post account.equity) ≡ false)
        × (fl.lt (fl.div (fl.sub account.equity post) account.equity) c.min_available_ratio ≡ false)

  judge-config :
      (a : AccountSnapshot F) (m : RiskManager F) (start : Option F)
      → (judge a m start).1.config ≡ m.config
  judge-config a m none = refl
  judge-config a m (some s) = refl

  started-config :
      (a : AccountSnapshot F) (r : Result Error (Unit {0}) × RiskManager F)
      → (judge_started a r).1.config ≡ r.1.config
  started-config a (ok _, m) = judge-config a m m.day_start_equity
  started-config a (err e, m) = refl

  day-config :
      (a : AccountSnapshot F) (m : RiskManager F) (b : Bool)
      → (if b then set_day_start_equity a.equity a.trading_day m else (ok tt, m)).1.config
        ≡ m.config
  unfolding set_day_start_equity
  day-config a m false = refl
  day-config a m true = elim (Bool-cases (bad_equity a.equity)) [
    | inl bad ↦ rw bad refl
    | inr good ↦ rw good refl
  ]

  check_account-config :
      (a : AccountSnapshot F) (m : RiskManager F) → (check_account a m).1.config ≡ m.config
  unfolding check_account
  check_account-config a m = elim (Bool-cases (bad_snapshot a)) [
    | inl bad ↦ rw bad refl
    | inr good ↦ rw good (started-config a _ ∙ day-config a m (new_day a m))
  ]

  abbrev Refuses : Result RiskDecision F → Type 0
  Refuses (ok margin) = Unit
  Refuses (err d) = d.allowed ≡ false

  next_order-Refuses :
      (o : OrderRequest F) (rest : Dict String ℤ → F → Result RiskDecision F)
      (requested : Dict String ℤ) (margin : F) (spec : Option (ContractSpec F))
      → ((table : Dict String ℤ) (sum : F) → Refuses (rest table sum))
      → Refuses (next_order rest requested (add_margin o margin spec))
  next_order-Refuses o rest requested margin none later = refl
  next_order-Refuses o rest requested margin (some spec) later = later requested _

  check_orders-Refuses :
      (c : RiskConfig F) (specs : Dict String (ContractSpec F)) (current : Dict String ℤ)
      (orders : List (OrderRequest F)) (requested : Dict String ℤ) (margin : F)
      → Refuses (check_orders c specs current orders requested margin)
  unfolding check_orders
  check_orders-Refuses c specs current [] requested margin = tt
  check_orders-Refuses c specs current (o ∷ orders) requested margin =
      elim (Bool-cases (is_opening o.offset)) [
        | inr closing ↦ rw closing (check_orders-Refuses c specs current orders requested margin)
        | inl opening ↦ elim (Bool-cases (leb_ℤ o.volume (pos 0))) [
          | inl empty ↦ rw (opening, empty) refl
          | inr sized ↦
              elim (Bool-cases (
                ltb_ℤ c.max_contract_volume
                  (volume_of o.symbol current +ℤ (volume_of o.symbol requested +ℤ o.volume)))) [
                    | inl over ↦ rw (opening, sized, over) refl
                    | inr fits ↦
                        rw (opening, sized, fits)
                          (next_order-Refuses o (check_orders c specs current orders) _ margin
                            (lookup o.symbol specs)
                            (λ table sum. check_orders-Refuses c specs current orders table sum))
                  ]
        ]
      ]

  check_margin-BatchWithin :
      (c : RiskConfig F) (specs : Dict String (ContractSpec F)) (current : Dict String ℤ)
      (account : AccountSnapshot F) (orders : List (OrderRequest F)) (r : Result RiskDecision F)
      → check_orders c specs current orders [] fzero ≡ r
      → Refuses r
      → (check_margin c account r).allowed ≡ true
      → BatchWithin c specs current account orders
  check_margin-BatchWithin c specs current account orders (err d) made refused h = cc
  check_margin-BatchWithin c specs current account orders (ok total) made refused h =
      let p = check_orders-Passed c specs current orders [] fzero total made in
      record {
        each = p.each;
        volumes = λ s k.
            from_none (volume_of s current) (opened s orders) c.max_contract_volume
              (unfold lookup in p.volumes s k);
        margin = subst Affordable p.sum (ground arith);
      }
    where
      Affordable : F → Type 0
      Affordable estimated =
          let post = fl.add account.margin (fl.mul estimated c.margin_estimate_buffer) in
          (fl.lt c.max_margin_ratio (fl.div post account.equity) ≡ false)
          × (fl.lt (fl.div (fl.sub account.equity post) account.equity) c.min_available_ratio
              ≡ false)

module _ {F : Type 0} ⦃fl : FloatOps F⦄ (order : FloatOrder F fl) where
  check_batch-Safe :
      (account : AccountSnapshot F) (orders : List (OrderRequest F))
      (specs : Dict String (ContractSpec F)) (current : Dict String ℤ)
      (r : Result Error RiskDecision × RiskManager F)
      → (Allowed r.0 → WithinLimits account r.1)
      → Allowed (check_batch account orders specs current r).0
      → let after = (check_batch account orders specs current r).1 in
        WithinLimits account after × BatchWithin after.config specs current account orders
  check_batch-Safe account orders specs current (err e, m) within h = absurd h
  check_batch-Safe account orders specs current (ok d, m) within h = elim (Bool-cases d.allowed) [
    | inl allowed ↦ rw allowed (
      within allowed,
      check_margin-BatchWithin m.config specs current account orders _ refl
          (check_orders-Refuses m.config specs current orders [] fzero) (rw allowed at h),
    )
    | inr refused ↦ cc (rw refused at h)
  ]

  check_batch-config :
      (account : AccountSnapshot F) (orders : List (OrderRequest F))
      (specs : Dict String (ContractSpec F)) (current : Dict String ℤ)
      (r : Result Error RiskDecision × RiskManager F)
      → (check_batch account orders specs current r).1.config ≡ r.1.config
  check_batch-config account orders specs current (err e, m) = refl
  check_batch-config account orders specs current (ok d, m) = elim (Bool-cases d.allowed) [
    | inl allowed ↦ rw allowed refl
    | inr refused ↦ rw refused refl
  ]

  -- A batch of opening orders that is allowed leaves the account inside its limits: there is room for
  -- another pair, the account itself is inside the daily loss, drawdown, margin and cash limits, every
  -- opening order has a volume and a known contract, no contract that it opens exceeds the volume
  -- limit counting what is held and the whole batch, and the buffered margin of the batch stays
  -- within the margin ratio and the cash reserve. The configuration does not change.
  pub check_open_batch-Safe :
      (count : ℤ) (account : AccountSnapshot F) (orders : List (OrderRequest F))
      (specs : Dict String (ContractSpec F)) (current : Dict String ℤ) (m : RiskManager F)
      → Allowed (check_open_batch count account orders specs current m).0
      → let after = (check_open_batch count account orders specs current m).1 in
        (count <ℤ after.config.max_open_pairs)
        × (after.config ≡ m.config)
        × WithinLimits account after
        × BatchWithin after.config specs current account orders
  unfolding check_open_batch check_open_orders
  check_open_batch-Safe count account orders specs current m h =
      elim (Bool-cases (leb_ℤ m.config.max_open_pairs count)) [
        | inl full ↦ cc (rw full at h)
        | inr room ↦
            let same =
              check_batch-config account orders specs current (check_account account m)
              ∙ check_account-config account m in
            let safe =
              check_batch-Safe account orders specs current (check_account account m)
                (check_account-WithinLimits order account m) (rw room at h) in
            rw room (
              subst (λ c. count <ℤ c.max_open_pairs) (sym same)
                  (leb_ℤ→lt m.config.max_open_pairs count room),
              same,
              safe.0,
              safe.1,
            )
      ]

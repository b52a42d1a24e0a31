-- ===== src/Risk/Sizing.antt =====
-- `size_pair` of risk.py, and the caps on what it returns.
use mathlib.Core.Path.{subst}
use afuture.Prelude.{
  ok_eq, String, false, ◌||◌, ◌≡◌, refl, ◌∙◌, ◌⊎◌, inl, inr, Bool-cases, arith, Option, none, some,
  Result, ok, err, if◌then◌else◌,
}
use afuture.Prelude.Int.{ℤ, pos, ◌≤ℤ◌, min_ℤ, max_ℤ}
use afuture.Dict.{Dict, string_eq, lookup}
use afuture.Float.{
  FloatOps, FloatOrder, fzero, fmin, fmax, fmin-right, fmin-keeps, fmax-right, fmax-keeps,
}
use afuture.Models.{Error, unknown_contract, AccountSnapshot, ContractSpec, PairConfig, Tick}
use afuture.Risk.Config.{RiskConfig}

module _ {F : Type 0} ⦃fl : FloatOps F⦄ where
  -- The literal 1e-9: the quotient is rounded to the same float.
  abbrev nano : F
  nano = fl.div (fl.of_int (pos 1)) (fl.of_int (pos 1000000000))

  -- The lots that the risk budget carries.
  unfoldable pub risk_lots : RiskConfig F → F → F → ContractSpec F → ContractSpec F → ℤ
  risk_lots c equity spread_std near_spec far_spec =
      let per_lot_risk =
        fl.mul (fl.mul spread_std (fmax near_spec.multiplier far_spec.multiplier))
          c.risk_sigma_multiplier in
      fl.floor (fl.div (fl.mul equity c.risk_budget_ratio) (fmax per_lot_risk nano))

  -- The lots that the thinnest of the four queues carries.
  unfoldable pub depth_lots : RiskConfig F → Tick F → Tick F → ℤ
  depth_lots c near far = fl.floor (
      fl.div (fmin (fmin (fmin near.bid_volume near.ask_volume) far.bid_volume) far.ask_volume)
        c.min_depth_multiple)

  abbrev pub size_specs :
      RiskConfig F
      → AccountSnapshot F
      → PairConfig F
      → Tick F
      → Tick F
      → F
      → Option (ContractSpec F)
      → Option (ContractSpec F)
      → Result Error ℤ
  size_specs c account pair near far spread_std none far_spec = err unknown_contract
  size_specs c account pair near far spread_std (some near_spec) none = err unknown_contract
  size_specs c account pair near far spread_std (some near_spec) (some far_spec) = ok (
      max_ℤ (pos 0) (
        min_ℤ
          (min_ℤ (min_ℤ pair.volume c.max_contract_volume)
            (risk_lots c account.equity spread_std near_spec far_spec))
          (depth_lots c near far)))

  -- `size_pair`
  unfoldable pub size_pair :
      RiskConfig F
      → AccountSnapshot F
      → PairConfig F
      → Dict String (ContractSpec F)
      → Tick F
      → Tick F
      → F
      → Result Error ℤ
  unfolding risk_lots depth_lots
  size_pair c account pair specs near far spread_std =
      if fl.le spread_std fzero || fl.le account.equity fzero
      then ok (pos 0)
      else size_specs c account pair near far spread_std (lookup pair.near_symbol specs)
          (lookup pair.far_symbol specs)

  -- A queue that none of the four is below.
  pub record Thinnest (near far : Tick F) (queue : F) : Type 0 where
    pub one_of :
        (queue ≡ near.bid_volume)
        ⊎ ((queue ≡ near.ask_volume) ⊎ ((queue ≡ far.bid_volume) ⊎ (queue ≡ far.ask_volume)))
    pub near_bid : fl.lt near.bid_volume queue ≡ false
    pub near_ask : fl.lt near.ask_volume queue ≡ false
    pub far_bid : fl.lt far.bid_volume queue ≡ false
    pub far_ask : fl.lt far.ask_volume queue ≡ false

  -- The multiplier of one of the two contracts, which is below none of them.
  pub record Largest (near far : ContractSpec F) (multiplier : F) : Type 0 where
    pub one_of : (multiplier ≡ near.multiplier) ⊎ (multiplier ≡ far.multiplier)
    pub near_side : fl.lt multiplier near.multiplier ≡ false
    pub far_side : fl.lt multiplier far.multiplier ≡ false

  -- The lots are within the pair's own volume, the contract limit, the risk budget over the risk of a lot
  -- at the larger multiplier, and the thinnest queue over the depth multiple.
  pub record Capped (c : RiskConfig F) (account : AccountSnapshot F) (pair : PairConfig F)
      (specs : Dict String (ContractSpec F)) (near far : Tick F) (spread_std : F) (n : ℤ)
      : Type 0 where
    pub near_spec : ContractSpec F
    pub far_spec : ContractSpec F
    pub near_found : lookup pair.near_symbol specs ≡ some near_spec
    pub far_found : lookup pair.far_symbol specs ≡ some far_spec
    pub spread : fl.le spread_std fzero ≡ false
    pub pair_volume : n ≤ℤ pair.volume
    pub contract_volume : n ≤ℤ c.max_contract_volume
    pub multiplier : F
    pub largest : Largest near_spec far_spec multiplier
    pub lot_risk : F
    pub lot_risk_covers :
        fl.lt lot_risk (fl.mul (fl.mul spread_std multiplier) c.risk_sigma_multiplier) ≡ false
    pub budget : n ≤ℤ fl.floor (fl.div (fl.mul account.equity c.risk_budget_ratio) lot_risk)
    pub queue : F
    pub thinnest : Thinnest near far queue
    pub depth : n ≤ℤ fl.floor (fl.div queue c.min_depth_multiple)

fmin-either : {F : Type 0} ⦃fl : FloatOps F⦄ (a b : F) → (fmin a b ≡ a) ⊎ (fmin a b ≡ b)
fmin-either ⦃fl⦄ a b = elim (Bool-cases (fl.lt b a)) [
  | inl less ↦ inr (rw less refl)
  | inr not_less ↦ inl (rw not_less refl)
]

fmax-either : {F : Type 0} ⦃fl : FloatOps F⦄ (a b : F) → (fmax a b ≡ a) ⊎ (fmax a b ≡ b)
fmax-either ⦃fl⦄ a b = elim (Bool-cases (fl.lt a b)) [
  | inl less ↦ inr (rw less refl)
  | inr not_less ↦ inl (rw not_less refl)
]

fmin-one_of_three :
    {F : Type 0} ⦃fl : FloatOps F⦄ (a b c : F)
    → (fmin (fmin a b) c ≡ a) ⊎ ((fmin (fmin a b) c ≡ b) ⊎ (fmin (fmin a b) c ≡ c))
fmin-one_of_three a b c = elim (fmin-either (fmin a b) c) [
  | inr last ↦ inr (inr last)
  | inl kept ↦ elim (fmin-either a b) [
    | inl one ↦ inl (kept ∙ one)
    | inr two ↦ inr (inl (kept ∙ two))
  ]
]

module _ {F : Type 0} ⦃fl : FloatOps F⦄ (order : FloatOrder F fl) where
  Thinnest-fmin :
      (near far : Tick F)
      → Thinnest near far
          (fmin (fmin (fmin near.bid_volume near.ask_volume) far.bid_volume) far.ask_volume)
  Thinnest-fmin near far =
      let a = near.bid_volume in
      let b = near.ask_volume in
      let c = far.bid_volume in
      let d = far.ask_volume in
      let three = fmin (fmin a b) c in
      record {
        one_of = elim (fmin-either three d) [
          | inr last ↦ inr (inr (inr last))
          | inl kept ↦ elim (fmin-one_of_three a b c) [
            | inl one ↦ inl (kept ∙ one)
            | inr (inl two) ↦ inr (inl (kept ∙ two))
            | inr (inr third) ↦ inr (inr (inl (kept ∙ third)))
          ]
        ];
        near_bid =
            fmin-keeps order a three d
              (fmin-keeps order a (fmin a b) c (fmin-keeps order a a b (order.lt_irrefl a)));
        near_ask =
            fmin-keeps order b three d (fmin-keeps order b (fmin a b) c (fmin-right order a b));
        far_bid = fmin-keeps order c three d (fmin-right order (fmin a b) c);
        far_ask = fmin-right order three d;
      }

  larger_multiplier :
      (near far : ContractSpec F) → Largest near far (fmax near.multiplier far.multiplier)
  larger_multiplier near far = record {
    one_of = fmax-either near.multiplier far.multiplier;
    near_side =
        fmax-keeps order near.multiplier near.multiplier far.multiplier
          (order.lt_irrefl near.multiplier);
    far_side = fmax-right order near.multiplier far.multiplier;
  }

least_of_four :
    (a b c d : ℤ)
    → let n = max_ℤ (pos 0) (min_ℤ (min_ℤ (min_ℤ a b) c) d) in
      (pos 0 ≤ℤ n) × ((n ≤ℤ pos 0) ⊎ ((n ≤ℤ a) × (n ≤ℤ b) × (n ≤ℤ c) × (n ≤ℤ d)))
least_of_four a b c d = ground arith

module _ {F : Type 0} ⦃fl : FloatOps F⦄ (order : FloatOrder F fl) where
  size_specs-Capped :
      (c : RiskConfig F) (account : AccountSnapshot F) (pair : PairConfig F)
      (specs : Dict String (ContractSpec F)) (near far : Tick F) (spread_std : F)
      (near_spec far_spec : Option (ContractSpec F)) (n : ℤ)
      → lookup pair.near_symbol specs ≡ near_spec
      → lookup pair.far_symbol specs ≡ far_spec
      → fl.le spread_std fzero ≡ false
      → size_specs c account pair near far spread_std near_spec far_spec ≡ ok n
      → (pos 0 ≤ℤ n) × ((n ≤ℤ pos 0) ⊎ Capped c account pair specs near far spread_std n)
  unfolding risk_lots depth_lots
  size_specs-Capped c account pair specs near far spread_std none far_spec n h k l r = cc
  size_specs-Capped c account pair specs near far spread_std (some p) none n h k l r = cc
  size_specs-Capped c account pair specs near far spread_std (some p) (some q) n h k l r =
      let least =
        least_of_four pair.volume c.max_contract_volume (risk_lots c account.equity spread_std p q)
          (depth_lots c near far) in
      subst (λ m. (pos 0 ≤ℤ m) × ((m ≤ℤ pos 0) ⊎ Capped c account pair specs near far spread_std m))
        (ok_eq _ n (size_specs c account pair near far spread_std (some p) (some q)) refl r)
        (
          least.0,
          elim least.1 [
            | inl zero ↦ inl zero
            | inr caps ↦ inr (record {
              near_spec = p;
              far_spec = q;
              near_found = h;
              far_found = k;
              spread = l;
              pair_volume = caps.0;
              contract_volume = caps.1;
              multiplier = fmax p.multiplier q.multiplier;
              largest = larger_multiplier order p q;
              lot_risk =
                  fmax
                    (fl.mul (fl.mul spread_std (fmax p.multiplier q.multiplier))
                      c.risk_sigma_multiplier)
                    nano;
              lot_risk_covers =
                  fmax-keeps order
                    (fl.mul (fl.mul spread_std (fmax p.multiplier q.multiplier))
                      c.risk_sigma_multiplier)
                    (fl.mul (fl.mul spread_std (fmax p.multiplier q.multiplier))
                      c.risk_sigma_multiplier)
                    nano (order.lt_irrefl _);
              budget = caps.2;
              queue =
                  fmin (fmin (fmin near.bid_volume near.ask_volume) far.bid_volume) far.ask_volume;
              thinnest = Thinnest-fmin order near far;
              depth = caps.3;
            })
          ],
        )

  -- Where `size_pair` returns, its lots are not negative, and if there are any then the spread deviation
  -- is positive, both contracts are known, and the lots are within the pair's volume, the contract
  -- limit, the risk budget over a risk of a lot that covers the larger of the two multipliers, and the
  -- thinnest of the four queues over the depth multiple.
  pub size_pair-Capped :
      (c : RiskConfig F) (account : AccountSnapshot F) (pair : PairConfig F)
      (specs : Dict String (ContractSpec F)) (near far : Tick F) (spread_std : F) (n : ℤ)
      → size_pair c account pair specs near far spread_std ≡ ok n
      → (pos 0 ≤ℤ n) × ((n ≤ℤ pos 0) ⊎ Capped c account pair specs near far spread_std n)
  unfolding size_pair
  size_pair-Capped c account pair specs near far spread_std n r =
      elim (Bool-cases (fl.le spread_std fzero || fl.le account.equity fzero)) [
        | inl idle ↦
            subst
              (λ m.
                (pos 0 ≤ℤ m) × ((m ≤ℤ pos 0) ⊎ Capped c account pair specs near far spread_std m))
              (ok_eq (pos 0) n (ok (pos 0)) refl (rw idle at r)) (omega arith, inl (omega arith))
        | inr going ↦
            size_specs-Capped c account pair specs near far spread_std
              (lookup pair.near_symbol specs) (lookup pair.far_symbol specs) n refl refl
              (ground (arith, going)) (rw going at r)
      ]

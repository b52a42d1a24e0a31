-- ===== src/Models/Orders.antt =====
-- `OrderRequest`, `Order`, `Trade` and `Trade.validate` of models.py.
use afuture.Prelude.{◌≡◌, ◌↔◌, ap, arith, ◌==◌, ℕ, String, Bool, ◌||◌, not}
use afuture.Prelude.Int.{ℤ, pos, leb_ℤ}
use afuture.Prelude.Text.{is_blank, str_eq, str_eq_iff}
use afuture.Dict.{Eq}
use afuture.Prelude.{Result, raise_if, ◌>>◌}
use afuture.Float.{FloatOps, fzero}
use afuture.Models.Enums.{
  OrderSide, Offset, OrderType, OrderStatus, is_active, Error, blank_identity, bad_volume,
  bad_price, naive_timestamp, bad_commission,
}

-- A datetime: whether it has a time zone, and its instant in microseconds since the epoch.
pub record Timestamp : Type 0 where
  pub aware : Bool
  pub instant : ℤ

-- The text of an order or trade id. The simulator's ids are f"SIM-{n}" and f"SIM-T-{n}", which are
-- never blank and are equal only for equal n: they are written by that number.
pub data Ident : Type 0 where
  text : String → Ident
  sim_order : ℕ → Ident
  sim_trade : ℕ → Ident

abbrev pub ident_beq : Ident → Ident → Bool
ident_beq (text s) (text t) = str_eq s t
ident_beq (sim_order n) (sim_order m) = n == m
ident_beq (sim_trade n) (sim_trade m) = n == m
ident_beq _ _ = Bool.false

pub ident_beq_iff : (a b : Ident) → (ident_beq a b ≡ Bool.true) ↔ (a ≡ b)
ident_beq_iff (text s) (text t) =
    (λ h. ap text ((str_eq_iff s t).0 h), λ h. (str_eq_iff s t).1 (cc))
ident_beq_iff (sim_order n) (sim_order m) = (λ h. ground arith, λ h. ground arith)
ident_beq_iff (sim_trade n) (sim_trade m) = (λ h. ground arith, λ h. ground arith)
ident_beq_iff _ _ = (λ h. cc, λ h. cc)

instance abbrev pub ident_eq : Eq Ident
ident_eq = record { beq = ident_beq; beq_iff = ident_beq_iff }

abbrev pub blank_ident : Ident → Bool
blank_ident (text s) = is_blank s
blank_ident (sim_order n) = Bool.false
blank_ident (sim_trade n) = Bool.false

pub record OrderRequest (F : Type 0) : Type 0 where
  pub symbol : String
  pub exchange : String
  pub side : OrderSide
  pub offset : Offset
  pub volume : ℤ
  pub price : F
  pub order_type : OrderType
  pub reference : String

pub record Order (F : Type 0) : Type 0 where
  pub order_id : Ident
  pub request : OrderRequest F
  pub status : OrderStatus
  pub traded : ℤ
  pub average_price : F

pub record Trade (F : Type 0) : Type 0 where
  pub trade_id : Ident
  pub order_id : Ident
  pub symbol : String
  pub exchange : String
  pub side : OrderSide
  pub offset : Offset
  pub volume : ℤ
  pub price : F
  pub timestamp : Timestamp
  pub commission : F

module _ {F : Type 0} where
  -- The property `Order.active`.
  unfoldable pub active : Order F → Bool
  active order = is_active order.status

module _ {F : Type 0} ⦃fl : FloatOps F⦄ where
  -- `Trade.validate`; the `isinstance` tests hold by the types of the fields.
  unfoldable pub validate_trade : Trade F → Result Error (Unit {0})
  validate_trade t = do
    raise_if
        (blank_ident t.trade_id
          || blank_ident t.order_id
          || is_blank t.symbol
          || is_blank t.exchange)
        blank_identity
    raise_if (leb_ℤ t.volume (pos 0)) bad_volume
    raise_if (not (fl.is_finite t.price) || fl.le t.price fzero) bad_price
    raise_if (not t.timestamp.aware) naive_timestamp
    raise_if (not (fl.is_finite t.commission) || fl.lt t.commission fzero) bad_commission

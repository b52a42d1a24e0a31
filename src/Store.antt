-- ===== src/Store.antt =====
-- state.py: the JSON values of the runtime state, and the tests on them.
-- A JSON object is listed in the order of its names: the file is written with sorted names, and no
-- comparison of dicts sees another order.
pub mod Payload
pub mod Disk
pub mod Saves
pub mod Sorted
pub mod RoundTrip
use afuture.Prelude.{
  String, Bool, true, false, not, ◌&&◌, ◌||◌, Option, none, some, List, [], ◌∷◌, ◌++◌, map,
  if◌then◌else◌, any, all, length, leb, Result, ok, err,
}
use afuture.Prelude.Int.{ℤ, pos, negsuc, ltb_ℤ}
use afuture.Prelude.Text.{str_eq}
use afuture.Prelude.Sets.{member}
use afuture.Dict.{Key, key_beq}
use afuture.Float.{FloatOps}
use afuture.Models.{Error, bad_state, ContractPosition, validate_position}

mutual
  pub data Json (F : Type 0) : Type 0 where
    null : Json F
    boolean : Bool → Json F
    integer : ℤ → Json F
    float : F → Json F
    string : String → Json F
    array : Items F → Json F
    object : Fields F → Json F

  pub data Items (F : Type 0) : Type 0 where
    nil : Items F
    cons : Json F → Items F → Items F

  pub data Fields (F : Type 0) : Type 0 where
    end : Fields F
    field : String → Json F → Fields F → Fields F

-- A `RuntimeState`, whose fields Python leaves untyped.
abbrev pub RuntimeState : Type 0 → Type 0
RuntimeState F = Fields F

module _ {F : Type 0} where
  -- `payload[name]`, once the names have been checked.
  unfoldable pub field_at : String → Fields F → Json F
  field_at name end = null
  field_at name (field n v fs) = if str_eq n name then v else field_at name fs

  unfoldable pub names : Fields F → List String
  names end = []
  names (field n v fs) = n ∷ names fs

  unfoldable pub field_values : Fields F → List (Json F)
  field_values end = []
  field_values (field n v fs) = v ∷ field_values fs

  unfoldable pub elements : Items F → List (Json F)
  elements nil = []
  elements (cons v vs) = v ∷ elements vs

  -- `set(payload) == fields`
  abbrev pub has_names : List String → Fields F → Bool
  has_names expected fs =
      all (λ name. member name (names fs)) expected && all (λ name. member name expected) (names fs)

  abbrev pub is_bool : Json F → Bool
  is_bool (boolean b) = true
  is_bool _ = false

  abbrev pub is_text : Json F → Bool
  is_text (string s) = true
  is_text _ = false

  abbrev pub is_object : Json F → Bool
  is_object (object fs) = true
  is_object _ = false

  abbrev pub is_list : Json F → Bool
  is_list (array vs) = true
  is_list _ = false

  abbrev pub items_of : Json F → List (Json F)
  items_of (array vs) = elements vs
  items_of _ = []

  abbrev pub values_of : Json F → List (Json F)
  values_of (object fs) = field_values fs
  values_of _ = []

  abbrev pub is_settlement_id : Json F → Bool
  is_settlement_id (integer n) = not (ltb_ℤ n (negsuc 0))
  is_settlement_id _ = false

  abbrev pub is_named_text : Json F → Bool
  is_named_text (string s) = not (str_eq s "")
  is_named_text _ = false

  abbrev pub text_of : Json F → String
  text_of (string s) = s
  text_of _ = ""

  abbrev pub is_mode : Json F → Bool
  is_mode (string s) = member s ("RUNNING" ∷ "REDUCE_ONLY" ∷ "HALTED" ∷ [])
  is_mode _ = false

-- ===== src/Store/Sorted.antt =====
-- JSON values whose objects are listed by name, as `sort_keys=True` writes them.
use afuture.Prelude.{String, Bool, true, ◌&&◌}
use afuture.Prelude.Text.{str_lt}
use afuture.Store.{Json, array, object, Items, nil, cons, Fields, end, field}

abbrev pub before_first : {F : Type 0} → String → Fields F → Bool
before_first name end = true
before_first name (field next v fs) = str_lt name next

unfoldable mutual
  pub sorted_json : {F : Type 0} → Json F → Bool
  sorted_json (array vs) = sorted_items vs
  sorted_json (object fs) = sorted_fields fs
  sorted_json _ = true

  pub sorted_items : {F : Type 0} → Items F → Bool
  sorted_items nil = true
  sorted_items (cons v vs) = sorted_json v && sorted_items vs

  pub sorted_fields : {F : Type 0} → Fields F → Bool
  sorted_fields end = true
  sorted_fields (field name v fs) = before_first name fs && sorted_json v && sorted_fields fs

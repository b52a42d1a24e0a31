-- ===== src/Tests/Stores.antt =====
-- A state saved to empty files and saved again, with JSON values as their own text.
use afuture.Prelude.{
  String, true, false, ◌≡◌, refl, Option, none, some, List, [], ◌∷◌, ok, err, if◌then◌else◌,
}
use afuture.Prelude.Int.{ℤ, pos, negsuc, ◌+ℤ◌}
use afuture.Prelude.Text.{is_blank, str_append}
use afuture.Models.{concurrent_change, file_error, validate_position, validate_side}
use afuture.Store.{
  Json, boolean, integer, string, array, object, nil, cons, Fields, end, field, RuntimeState,
  field_at, names, field_values, elements,
}
use afuture.Store.Payload.{repeats, repeats_key, position_of, valid_payload, state_from_payload}
use afuture.Store.Disk.{
  Codec, Disk, RuntimeStateRecord, decode_verified, load_record, sequence_of, before_save, save,
  Faults, returned, raised_after,
}
use afuture.Store.RoundTrip.{Saved, save-Saved, Survives, save-Survives, save-next}
use afuture.Store.Sorted.{sorted_json, sorted_fields}
use afuture.Prelude.Int.{eqb_ℤ}
use afuture.Tests.Numbers.{whole}

-- The day that a state names, and whether the number is the first, as a checksum.
abbrev day_of : Json ℤ → String
day_of (string day) = day
day_of _ = ""

abbrev digest : ℤ → Fields ℤ → String
unfolding field_at
digest n payload =
    str_append (if eqb_ℤ n (pos 1) then "first:" else "later:")
      (day_of (field_at "trading_day" payload))

-- Values with sorted names are their own text.
abbrev load_sorted : Json ℤ → Option (Json ℤ)
unfolding sorted_json
load_sorted j = if sorted_json j then some j else none

abbrev codec : Codec ℤ (Json ℤ)
codec = record {
  dumps = λ j. j;
  loads = load_sorted;
  checksum = λ schema n payload. digest n payload;
}

sorted-loads : (j : Json ℤ) → sorted_json j ≡ true → codec.loads (codec.dumps j) ≡ some j
unfolding load_sorted
sorted-loads j h = rw h refl

abbrev sound : Faults
sound = record { backup = returned; current = returned }

-- The second replacement raises after the file has changed.
abbrev torn : Faults
torn = record { backup = returned; current = raised_after }

abbrev fields : List (String × Json ℤ) → Fields ℤ
fields [] = end
fields ((name, value) ∷ rest) = field name value (fields rest)

abbrev position : Fields ℤ
position = fields (
    ("exchange", string "SHFE")
    ∷ ("long_price", integer (pos 100))
    ∷ ("long_today", integer (pos 3))
    ∷ ("long_yesterday", integer (pos 0))
    ∷ ("short_price", integer (pos 0))
    ∷ ("short_today", integer (pos 0))
    ∷ ("short_yesterday", integer (pos 0))
    ∷ ("symbol", string "rb2501")
    ∷ [])

abbrev state : RuntimeState ℤ
state = fields (
    ("auto_pairs", object end)
    ∷ ("day_start_equity", integer (pos 1000))
    ∷ ("directional_daily_circuit_day", string "")
    ∷ ("equity_high_watermark", integer (pos 1000))
    ∷ ("kill_reason", string "")
    ∷ ("kill_switch", boolean false)
    ∷ ("last_account_cash_flow_verified", boolean true)
    ∷ ("last_account_deposit", integer (pos 0))
    ∷ ("last_account_equity", integer (pos 1000))
    ∷ ("last_account_settlement_id", integer (negsuc 0))
    ∷ ("last_account_trading_day", string "20240105")
    ∷ ("last_account_withdrawal", integer (pos 0))
    ∷ ("last_order_id", string "")
    ∷ ("last_trade_id", string "T2")
    ∷ ("metadata_verified", boolean true)
    ∷ ("positions", array (cons (object position) nil))
    ∷ ("recent_daily_returns", array nil)
    ∷ ("recent_trade_ids", array (cons (string "T1") (cons (string "T2") nil)))
    ∷ ("reconciled", boolean true)
    ∷ ("reduce_reason", string "")
    ∷ ("runtime_mode", string "RUNNING")
    ∷ ("strategy_states", object end)
    ∷ ("trading_day", string "20240105")
    ∷ [])

abbrev empty : Disk (Json ℤ)
empty = record { current = none; previous = none; locked = false }

abbrev stored : ℤ → Json ℤ
stored n = object (
    fields (
      ("checksum", string (digest n state))
      ∷ ("schema_version", integer (pos 3))
      ∷ ("sequence", integer n)
      ∷ ("state", object state)
      ∷ []))

abbrev once : Disk (Json ℤ)
once = record { current = some (stored (pos 1)); previous = none; locked = false }

abbrev twice : Disk (Json ℤ)
twice = record { current = some (stored (pos 2)); previous = some (stored (pos 1)); locked = false }

abbrev entry : ℤ → RuntimeStateRecord ℤ
entry n = record { state = state; sequence = n; checksum = digest n state }

saved_twice : save codec sound (some (pos 1)) none state once ≡ (ok (entry (pos 2)), twice)
unfolding save before_save load_record decode_verified field_at names field_values elements
    position_of repeats repeats_key valid_payload state_from_payload validate_position validate_side
    is_blank ◌+ℤ◌ sorted_json
saved_twice = refl

torn_run : save codec torn (some (pos 1)) none state once ≡ (err file_error, twice)
unfolding save before_save load_record decode_verified field_at names field_values elements
    position_of repeats repeats_key valid_payload state_from_payload validate_position validate_side
    is_blank ◌+ℤ◌ sorted_json
torn_run = refl

-- A writer that has read nothing is refused.
stale_writer : save codec sound (some (pos 0)) none state once ≡ (err concurrent_change, once)
unfolding save before_save load_record decode_verified field_at names field_values elements
    position_of repeats repeats_key valid_payload state_from_payload validate_position validate_side
    is_blank ◌+ℤ◌ sorted_json
stale_writer = refl

state_sorted : sorted_fields state ≡ true
unfolding sorted_json
state_sorted = refl

save-Saved_example : Saved codec sorted-loads state once twice (entry (pos 2))
save-Saved_example =
    save-Saved codec sorted-loads sound (some (pos 1)) none state once twice (entry (pos 2))
      state_sorted saved_twice

save-next_example :
    (old : Option (RuntimeStateRecord ℤ)) × (load_record codec once ≡ ok old)
    × (sequence_of codec old ≡ pos 1)
    × ((entry (pos 2)).sequence ≡ pos 1 +ℤ pos 1)
save-next_example =
    save-next codec sorted-loads sound (pos 1) none state once twice (entry (pos 2)) state_sorted
      saved_twice

save-Survives_example :
    Survives codec sorted-loads state once (save codec torn (some (pos 1)) none state once).1
save-Survives_example =
    save-Survives codec sorted-loads torn (some (pos 1)) none state once state_sorted

-- ===== src/Store/Disk.antt =====
-- `StateStore` of state.py on the files of one state. The text and the checksum of a JSON value are
-- parameters. The replacement of a file may raise before or after the file is changed.
use afuture.Prelude.{
  String, Bool, false, not, ◌&&◌, ◌||◌, Option, none, some, List, [], ◌∷◌, if◌then◌else◌, Result,
  ok, err, ◌>>=◌, ◌>>◌, raise_if, known,
}
use afuture.Prelude.Int.{ℤ, pos, ◌+ℤ◌, leb_ℤ, eqb_ℤ}
use afuture.Prelude.Text.{str_eq}
use afuture.Float.{FloatOps}
use afuture.Models.{Error, bad_state, concurrent_change, missing_evidence, file_error}
use afuture.Store.{
  Json, integer, float, string, object, Fields, end, field, RuntimeState, field_at, names,
  has_names,
}
use afuture.Store.Payload.{state_from_payload}

-- `json.dumps` and `json.loads` with their UTF-8 bytes, and `_checksum`. Loading has no value where the
-- bytes are no JSON text or a name is repeated. `dumps` sorts the names of every object.
pub record Codec (F B : Type 0) : Type 0 where
  pub dumps : Json F → B
  pub loads : B → Option (Json F)
  pub checksum : Json F → ℤ → Fields F → String

-- What a call of `_atomic_replace` does: it returns, or raises before or after `temp_path.replace`.
pub data Replacement : Type 0 where
  returned raised_before raised_after : Replacement

-- The two calls of `save`.
pub record Faults : Type 0 where
  pub backup : Replacement
  pub current : Replacement

-- The files of a state: the current one, the previous one, and the lock.
pub record Disk (B : Type 0) : Type 0 where
  pub current : Option B
  pub previous : Option B
  pub locked : Bool

pub record RuntimeStateRecord (F : Type 0) : Type 0 where
  pub state : RuntimeState F
  pub sequence : ℤ
  pub checksum : String

abbrev pub envelope_names : List String
envelope_names = "checksum" ∷ "schema_version" ∷ "sequence" ∷ "state" ∷ []

module _ {F : Type 0} ⦃fl : FloatOps F⦄ where
  -- `schema_version == SCHEMA_VERSION`
  abbrev pub is_current_schema : Json F → Bool
  is_current_schema (integer n) = eqb_ℤ n (pos 3)
  is_current_schema (float x) = fl.eq x (fl.of_int (pos 3))
  is_current_schema _ = false

module _ {F : Type 0} where
  abbrev pub integer_part : Json F → Option ℤ
  integer_part (integer n) = some n
  integer_part _ = none

  abbrev pub object_part : Json F → Option (Fields F)
  object_part (object fields) = some fields
  object_part _ = none

  abbrev pub recorded :
      ℤ → String → Result Error (RuntimeState F) → Result Error (RuntimeStateRecord F)
  recorded sequence checksum (ok state) =
      ok (record { state = state; sequence = sequence; checksum = checksum })
  recorded sequence checksum (err e) = err e

  abbrev checksum_is : Json F → String → Bool
  checksum_is (string s) expected = str_eq expected s
  checksum_is _ expected = false

module _ {F B : Type 0} ⦃fl : FloatOps F⦄ (codec : Codec F B) where
  abbrev pub verified : Json F → ℤ → Fields F → Json F → Result Error (RuntimeStateRecord F)
  verified schema sequence payload checksum =
      let expected = codec.checksum schema sequence payload in
      if checksum_is checksum expected
      then recorded sequence expected (state_from_payload payload)
      else err bad_state

  abbrev pub with_sequence :
      Json F → Option ℤ → Option (Fields F) → Json F → Result Error (RuntimeStateRecord F)
  with_sequence schema none payload checksum = err bad_state
  with_sequence schema (some n) none checksum = err bad_state
  with_sequence schema (some n) (some payload) checksum =
      if leb_ℤ n (pos 0) then err bad_state else verified schema n payload checksum

  abbrev pub of_envelope : Option (Fields F) → Result Error (RuntimeStateRecord F)
  of_envelope none = err bad_state
  of_envelope (some raw) =
      if has_names envelope_names raw && is_current_schema (field_at "schema_version" raw)
      then with_sequence (field_at "schema_version" raw) (integer_part (field_at "sequence" raw))
          (object_part (field_at "state" raw)) (field_at "checksum" raw)
      else err bad_state

  abbrev pub of_root : Option (Json F) → Result Error (RuntimeStateRecord F)
  of_root none = err bad_state
  of_root (some raw) = of_envelope (object_part raw)

  -- `_decode_verified`
  unfoldable pub decode_verified : B → Result Error (RuntimeStateRecord F)
  unfolding field_at names state_from_payload
  decode_verified bytes = of_root (codec.loads bytes)

  -- The current file is missing while the previous file or the lock is there.
  abbrev pub is_incident : Disk B → Bool
  is_incident disk = not (known disk.current) && (known disk.previous || disk.locked)

  abbrev pub decode_some : Option B → Result Error (Option (RuntimeStateRecord F))
  decode_some none = ok none
  decode_some (some bytes) = decode_verified bytes >>= λ entry. ok (some entry)

  -- `load_record`
  unfoldable pub load_record : Disk B → Result Error (Option (RuntimeStateRecord F))
  unfolding decode_verified
  load_record disk = raise_if (is_incident disk) missing_evidence >> decode_some disk.current

  -- The record behind `load_previous`.
  unfoldable pub load_previous : Disk B → Result Error (Option (RuntimeStateRecord F))
  unfolding decode_verified
  load_previous disk = decode_some disk.previous

  abbrev pub sequence_of : Option (RuntimeStateRecord F) → ℤ
  sequence_of none = pos 0
  sequence_of (some found) = found.sequence

  abbrev pub checksum_of : Option (RuntimeStateRecord F) → String
  checksum_of none = ""
  checksum_of (some found) = found.checksum

  abbrev pub other_sequence : Option ℤ → ℤ → Bool
  other_sequence none current = false
  other_sequence (some expected) current = not (eqb_ℤ expected current)

  abbrev pub other_checksum : Option String → String → Bool
  other_checksum none current = false
  other_checksum (some expected) current = not (str_eq expected current)

  -- The envelope that `save` writes.
  abbrev pub envelope : ℤ → Fields F → Json F
  envelope sequence payload = object (
      field "checksum" (string (codec.checksum (integer (pos 3)) sequence payload)) (
        field "schema_version" (integer (pos 3))
          (field "sequence" (integer sequence) (field "state" (object payload) end))))

  -- `if previous_bytes is not None: self._atomic_replace(self.previous_path, previous_bytes)`
  abbrev pub back_up : Option B → Disk B → Disk B
  back_up none disk = disk
  back_up (some bytes) disk = record disk { previous = some bytes }

  abbrev pub put_current : B → Disk B → Disk B
  put_current bytes disk = record disk { current = some bytes }

  -- What `save` checks before it writes: the sequence that it will write.
  unfoldable pub before_save :
      Option ℤ → Option String → RuntimeState F → Disk B → Result Error (ℤ × RuntimeState F)
  unfolding load_record state_from_payload
  before_save expected_sequence expected_checksum state disk = load_record disk >>= λ current.
      raise_if (other_sequence expected_sequence (sequence_of current)) concurrent_change
      >> (raise_if (other_checksum expected_checksum (checksum_of current)) concurrent_change
          >> (state_from_payload state >>= λ payload. ok (sequence_of current +ℤ pos 1, payload)))

  -- `_atomic_replace`, for the change that it makes to the files.
  abbrev pub replace_file :
      Replacement → (Disk B → Disk B) → Disk B → Result Error (Unit {0}) × Disk B
  replace_file returned change disk = (ok tt, change disk)
  replace_file raised_before change disk = (err file_error, disk)
  replace_file raised_after change disk = (err file_error, change disk)

  abbrev pub write_backup : Replacement → Option B → Disk B → Result Error (Unit {0}) × Disk B
  write_backup r none disk = (ok tt, disk)
  write_backup r (some bytes) disk = replace_file r (back_up (some bytes)) disk

  abbrev pub decode_written :
      B → Result Error (Unit {0}) × Disk B → Result Error (RuntimeStateRecord F) × Disk B
  decode_written encoded (ok u, disk) = (decode_verified encoded, disk)
  decode_written encoded (err e, disk) = (err e, disk)

  abbrev pub write_current :
      Replacement
      → B
      → Result Error (Unit {0}) × Disk B
      → Result Error (RuntimeStateRecord F) × Disk B
  write_current r encoded (ok u, disk) =
      decode_written encoded (replace_file r (put_current encoded) disk)
  write_current r encoded (err e, disk) = (err e, disk)

  abbrev pub write_out :
      Faults
      → Result Error (ℤ × RuntimeState F)
      → Disk B
      → Result Error (RuntimeStateRecord F) × Disk B
  write_out faults (err e) disk = (err e, disk)
  write_out faults (ok (sequence, payload)) disk =
      write_current faults.current (codec.dumps (envelope sequence payload))
        (write_backup faults.backup disk.current disk)

  -- `save`
  unfoldable pub save :
      Faults
      → Option ℤ
      → Option String
      → RuntimeState F
      → Disk B
      → Result Error (RuntimeStateRecord F) × Disk B
  unfolding before_save decode_verified
  save faults expected_sequence expected_checksum state disk =
      write_out faults (before_save expected_sequence expected_checksum state disk) disk

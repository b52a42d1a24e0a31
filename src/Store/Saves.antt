-- ===== src/Store/Saves.antt =====
-- About the checks before a save, and the decoding of what it encodes.
use mathlib.Core.Path.{subst}
use afuture.Prelude.{
  String, Bool, true, false, ◌&&◌, ◌≡◌, refl, sym, ◌∙◌, ap, inl, inr, Bool-cases, arith, Option,
  none, some, if◌then◌else◌, Result, ok, err, raise_if, >>=-eq-ok, >>-eq-ok, raise_if-eq-ok, ok_inj,
}
use afuture.Prelude.Int.{ℤ, pos, ◌+ℤ◌, ◌<ℤ◌, ◌≤ℤ◌, leb_ℤ, leb_ℤ→gt, +ℤ_parts}
use afuture.Prelude.Text.{str_eq_refl}
use afuture.Float.{FloatOps}
use afuture.Models.{Error, bad_state, concurrent_change, missing_evidence}
use afuture.Store.{Json, integer, Fields, RuntimeState, has_names, field_at}
use afuture.Store.Payload.{state_from_payload, state_fields, valid_payload}
use afuture.Store.Disk.{
  Codec, Disk, RuntimeStateRecord, envelope_names, integer_part, object_part, is_current_schema,
  recorded, with_sequence, of_envelope, of_root, decode_verified, is_incident, decode_some,
  load_record, sequence_of, checksum_of, other_sequence, other_checksum, envelope, before_save,
}

positive_test : (n : ℤ) → pos 0 <ℤ n → leb_ℤ n (pos 0) ≡ false
positive_test n h = ground arith

module _ {F B : Type 0} ⦃fl : FloatOps F⦄ (codec : Codec F B) where
  recorded_sequence :
      (n : ℤ) (c : String) (state : Result Error (RuntimeState F)) (r : RuntimeStateRecord F)
      → recorded n c state ≡ ok r
      → r.sequence ≡ n
  recorded_sequence n c (ok s) r e =
      sym (ap (λ (x : RuntimeStateRecord F). x.sequence) (ok_inj _ r e))
  recorded_sequence n c (err f) r e = cc

  if_ok :
      (b : Bool) (x : Result Error (RuntimeStateRecord F)) (f : Error) (r : RuntimeStateRecord F)
      → (if b then x else err f) ≡ ok r
      → x ≡ ok r
  if_ok true x f r e = e
  if_ok false x f r e = cc

  with_sequence_positive :
      (schema : Json F) (n : Option ℤ) (payload : Option (Fields F)) (c : Json F)
      (r : RuntimeStateRecord F)
      → with_sequence codec schema n payload c ≡ ok r
      → pos 0 <ℤ r.sequence
  with_sequence_positive schema none payload c r e = cc
  with_sequence_positive schema (some n) none c r e = cc
  with_sequence_positive schema (some n) (some payload) c r e =
      elim (Bool-cases (leb_ℤ n (pos 0))) [
        | inl low ↦ cc (rw low at (e))
        | inr high ↦
            subst (λ m. pos 0 <ℤ m)
              (sym (
                recorded_sequence n _ (state_from_payload payload) r
                  (if_ok _ _ bad_state r (rw high at (e)))))
              (leb_ℤ→gt n high)
      ]

  of_envelope_positive :
      (raw : Option (Fields F)) (r : RuntimeStateRecord F)
      → of_envelope codec raw ≡ ok r
      → pos 0 <ℤ r.sequence
  of_envelope_positive none r e = cc
  of_envelope_positive (some raw) r e =
      with_sequence_positive (field_at "schema_version" raw)
        (integer_part (field_at "sequence" raw)) (object_part (field_at "state" raw))
        (field_at "checksum" raw) r
        (if_ok (has_names envelope_names raw && is_current_schema (field_at "schema_version" raw)) _
          bad_state r e)

  of_root_positive :
      (raw : Option (Json F)) (r : RuntimeStateRecord F)
      → of_root codec raw ≡ ok r
      → pos 0 <ℤ r.sequence
  of_root_positive none r e = cc
  of_root_positive (some raw) r e = of_envelope_positive _ r e

  decode_positive :
      (bytes : B) (r : RuntimeStateRecord F)
      → decode_verified codec bytes ≡ ok r
      → pos 0 <ℤ r.sequence
  unfolding decode_verified
  decode_positive bytes r e = of_root_positive (codec.loads bytes) r e

  decode_some_sequence :
      (bytes : Option B) (found : Option (RuntimeStateRecord F))
      → decode_some codec bytes ≡ ok found
      → pos 0 ≤ℤ sequence_of codec found
  decode_some_sequence none found e =
      subst (λ f. pos 0 ≤ℤ sequence_of codec f) (ok_inj none found e) (omega arith)
  decode_some_sequence (some bytes) found e =
      let decoded = >>=-eq-ok (decode_verified codec bytes) (λ entry. ok (some entry)) e in
      subst (λ f. pos 0 ≤ℤ sequence_of codec f) (ok_inj (some decoded.0) found decoded.2)
        (omega (arith, decode_positive bytes decoded.0 decoded.1))

  -- What `save` encodes decodes to itself.
  pub decode-envelope :
      (n : ℤ) (payload : RuntimeState F)
      → codec.loads (codec.dumps (envelope codec n payload)) ≡ some (envelope codec n payload)
      → pos 0 <ℤ n
      → state_from_payload payload ≡ ok payload
      → decode_verified codec (codec.dumps (envelope codec n payload))
        ≡ ok (record {
          state = payload;
          sequence = n;
          checksum = codec.checksum (integer (pos 3)) n payload;
        })
  unfolding decode_verified
  decode-envelope n payload law positive valid =
      rw
        (
          law,
          positive_test n positive,
          str_eq_refl (codec.checksum (integer (pos 3)) n payload),
          valid,
        )
        refl

  state_kept :
      (payload state : RuntimeState F) → state_from_payload payload ≡ ok state → payload ≡ state
  unfolding state_from_payload
  state_kept payload state e =
      elim (Bool-cases (has_names state_fields payload && valid_payload payload)) [
        | inl good ↦ ok_inj payload state (rw good at (e))
        | inr bad ↦ cc (rw bad at (e))
      ]

  pub next_positive : (n : ℤ) → pos 0 ≤ℤ n → pos 0 <ℤ n +ℤ pos 1
  next_positive n h = omega (arith, +ℤ_parts n (pos 1))

  -- What the checks before a write have seen.
  pub record Checked (expected_sequence : Option ℤ) (expected_checksum : Option String)
      (state : RuntimeState F) (disk : Disk B) (sequence : ℤ) (payload : RuntimeState F)
      : Type 0 where
    pub before : Option (RuntimeStateRecord F)
    pub loaded : load_record codec disk ≡ ok before
    pub same_sequence : other_sequence codec expected_sequence (sequence_of codec before) ≡ false
    pub same_checksum : other_checksum codec expected_checksum (checksum_of codec before) ≡ false
    pub next : sequence ≡ sequence_of codec before +ℤ pos 1
    pub same_state : payload ≡ state
    pub valid : state_from_payload payload ≡ ok payload
    pub first : pos 0 ≤ℤ sequence_of codec before

  load_record-first :
      (disk : Disk B) (before : Option (RuntimeStateRecord F))
      → load_record codec disk ≡ ok before
      → pos 0 ≤ℤ sequence_of codec before
  unfolding load_record
  load_record-first disk before e =
      decode_some_sequence disk.current before
        (>>-eq-ok (raise_if (is_incident codec disk) missing_evidence)
          (decode_some codec disk.current) e).1

  pub before_save-Checked :
      (expected_sequence : Option ℤ) (expected_checksum : Option String) (state : RuntimeState F)
      (disk : Disk B) (n : ℤ) (payload : RuntimeState F)
      → before_save codec expected_sequence expected_checksum state disk ≡ ok (n, payload)
      → Checked expected_sequence expected_checksum state disk n payload
  unfolding before_save
  before_save-Checked expected_sequence expected_checksum state disk n payload e =
      let loaded = >>=-eq-ok (load_record codec disk) _ e in
      let sequence_now = sequence_of codec loaded.0 in
      let checksum_now = checksum_of codec loaded.0 in
      let sequence_test =
        >>-eq-ok (raise_if (other_sequence codec expected_sequence sequence_now) concurrent_change)
          _ loaded.2 in
      let checksum_test =
        >>-eq-ok (raise_if (other_checksum codec expected_checksum checksum_now) concurrent_change)
          _ sequence_test.1 in
      let taken = >>=-eq-ok (state_from_payload state) _ checksum_test.1 in
      let result = ok_inj (sequence_now +ℤ pos 1, taken.0) (n, payload) taken.2 in
      let same = ap (λ (x : ℤ × RuntimeState F). x.1) result in
      let kept = state_kept state taken.0 taken.1 in
      record {
        before = loaded.0;
        loaded = loaded.1;
        same_sequence = raise_if-eq-ok _ concurrent_change sequence_test.0;
        same_checksum = raise_if-eq-ok _ concurrent_change checksum_test.0;
        next = sym (ap (λ (x : ℤ × RuntimeState F). x.0) result);
        same_state = sym same ∙ sym kept;
        valid =
            subst (λ p. state_from_payload p ≡ ok p) same
              (subst (λ p. state_from_payload p ≡ ok taken.0) kept taken.1);
        first = load_record-first disk loaded.0 loaded.1;
      }

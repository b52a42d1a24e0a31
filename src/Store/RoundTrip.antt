-- ===== src/Store/RoundTrip.antt =====
-- About `save` and the next load, also where a write fails.
use mathlib.Core.Path.{subst}
use afuture.Prelude.{
  ◌⊎◌, true, String, Bool, false, not, ◌≡◌, refl, sym, ◌∙◌, ap, inl, inr, arith, Option, none, some,
  Result, ok, err, ok_inj, Result-cases,
}
use afuture.Prelude.Int.{ℤ, pos, ◌+ℤ◌, ◌<ℤ◌, eqb_ℤ, eq_of_parts}
use afuture.Float.{FloatOps}
use afuture.Models.{Error}
use afuture.Store.{Json, integer, RuntimeState}
use afuture.Store.Sorted.{sorted_json, sorted_fields}
use afuture.Store.Disk.{
  Codec, Disk, RuntimeStateRecord, decode_verified, load_record, sequence_of, envelope, back_up,
  put_current, before_save, write_out, save, Replacement, Faults, returned, raised_before,
  raised_after, write_backup, write_current,
}
use afuture.Store.Saves.{Checked, before_save-Checked, decode-envelope, next_positive}

err_not_ok : {E C : Type 0} (f : E) (a : C) → Path (Result E C) (err f) (ok a) → ⊥
err_not_ok f a h = cc

same_number : (n m : ℤ) → not (eqb_ℤ n m) ≡ false → n ≡ m
same_number n m h = eq_of_parts n m (ground arith)

-- JSON text with sorted names loads as it was dumped.
module _ {F B : Type 0} ⦃fl : FloatOps F⦄ (codec : Codec F B)
    (law : (j : Json F) → sorted_json j ≡ true → codec.loads (codec.dumps j) ≡ some j) where
  -- What a save that returns promises.
  pub record Saved (state : RuntimeState F) (before after : Disk B) (saved : RuntimeStateRecord F)
      : Type 0 where
    pub old : Option (RuntimeStateRecord F)
    pub old_loaded : load_record codec before ≡ ok old
    pub same_state : saved.state ≡ state
    pub next_sequence : saved.sequence ≡ sequence_of codec old +ℤ pos 1
    pub loads_again : load_record codec after ≡ ok (some saved)
    pub previous_kept : (bytes : B) → before.current ≡ some bytes → after.previous ≡ some bytes

  loads_current :
      (bytes : B) (disk : Disk B) (r : RuntimeStateRecord F)
      → decode_verified codec bytes ≡ ok r
      → load_record codec (put_current codec bytes disk) ≡ ok (some r)
  unfolding load_record
  loads_current bytes disk r e = rw e refl

  backed_up :
      (old : Option B) (disk : Disk B) (bytes : B)
      → old ≡ some bytes
      → (back_up codec old disk).previous ≡ some bytes
  backed_up none disk bytes e = cc
  backed_up (some b) disk bytes e = e

  still_loads :
      (current previous : Option B) (locked : Bool)
      → load_record codec (
          back_up codec current
            (record { current = current; previous = previous; locked = locked }))
        ≡ load_record codec (record { current = current; previous = previous; locked = locked })
  unfolding load_record
  still_loads none previous locked = refl
  still_loads (some bytes) previous locked = refl

  envelope-sorted :
      (n : ℤ) (payload : RuntimeState F)
      → sorted_fields payload ≡ true
      → sorted_json (envelope codec n payload) ≡ true
  unfolding sorted_json
  envelope-sorted n payload h = rw h refl

  -- Both writes were done where a result is returned.
  both_written :
      (b c : Replacement) (old : Option B) (encoded : B) (before after : Disk B)
      (r : RuntimeStateRecord F)
      → write_current codec c encoded (write_backup codec b old before) ≡ (ok r, after)
      → (decode_verified codec encoded ≡ ok r)
        × (put_current codec encoded (back_up codec old before) ≡ after)
  both_written b returned none encoded before after r e = (
    ap (λ (x : Result Error (RuntimeStateRecord F) × Disk B). x.0) e,
    ap (λ (x : Result Error (RuntimeStateRecord F) × Disk B). x.1) e,
  )
  both_written b raised_before none encoded before after r e = cc
  both_written b raised_after none encoded before after r e = cc
  both_written returned returned (some bytes) encoded before after r e = (
    ap (λ (x : Result Error (RuntimeStateRecord F) × Disk B). x.0) e,
    ap (λ (x : Result Error (RuntimeStateRecord F) × Disk B). x.1) e,
  )
  both_written returned raised_before (some bytes) encoded before after r e = cc
  both_written returned raised_after (some bytes) encoded before after r e = cc
  both_written raised_before c (some bytes) encoded before after r e = cc
  both_written raised_after c (some bytes) encoded before after r e = cc

  -- Whatever the writes do, the files are as they were, or have the backup, or both writes.
  written_files :
      (b c : Replacement) (old : Option B) (encoded : B) (before : Disk B)
      → let after = (write_current codec c encoded (write_backup codec b old before)).1 in
        (after ≡ before)
        ⊎ ((after ≡ back_up codec old before)
            ⊎ (after ≡ put_current codec encoded (back_up codec old before)))
  written_files b returned none encoded before = inr (inr refl)
  written_files b raised_before none encoded before = inl refl
  written_files b raised_after none encoded before = inr (inr refl)
  written_files returned returned (some bytes) encoded before = inr (inr refl)
  written_files returned raised_before (some bytes) encoded before = inr (inl refl)
  written_files returned raised_after (some bytes) encoded before = inr (inr refl)
  written_files raised_before c (some bytes) encoded before = inl refl
  written_files raised_after c (some bytes) encoded before = inr (inl refl)

  decoded_envelope :
      (expected_sequence : Option ℤ) (expected_checksum : Option String) (state : RuntimeState F)
      (before : Disk B) (n : ℤ) (payload : RuntimeState F)
      → sorted_fields state ≡ true
      → Checked codec expected_sequence expected_checksum state before n payload
      → decode_verified codec (codec.dumps (envelope codec n payload))
        ≡ ok (record {
          state = payload;
          sequence = n;
          checksum = codec.checksum (integer (pos 3)) n payload;
        })
  decoded_envelope expected_sequence expected_checksum state before n payload sorted c =
      decode-envelope codec n payload
        (law (envelope codec n payload) (
          envelope-sorted n payload
            (subst (λ s. sorted_fields s ≡ true) (sym c.same_state) sorted)))
        (subst (λ m. pos 0 <ℤ m) (sym c.next)
          (next_positive codec (sequence_of codec c.before) c.first))
        c.valid

  written-Saved :
      (faults : Faults) (expected_sequence : Option ℤ) (expected_checksum : Option String)
      (state : RuntimeState F) (before after : Disk B) (n : ℤ) (payload : RuntimeState F)
      (r : RuntimeStateRecord F)
      → sorted_fields state ≡ true
      → Checked codec expected_sequence expected_checksum state before n payload
      → write_out codec faults (ok (n, payload)) before ≡ (ok r, after)
      → Saved state before after r
  written-Saved faults expected_sequence expected_checksum state before after n payload r sorted c
        e =
      let encoded = codec.dumps (envelope codec n payload) in
      let decoded =
        decoded_envelope expected_sequence expected_checksum state before n payload sorted c in
      let (returns, disk) =
        both_written faults.backup faults.current before.current encoded before after r e in
      let same = ok_inj _ r (sym decoded ∙ returns) in
      record {
        old = c.before;
        old_loaded = c.loaded;
        same_state = sym (ap (λ (x : RuntimeStateRecord F). x.state) same) ∙ c.same_state;
        next_sequence = sym (ap (λ (x : RuntimeStateRecord F). x.sequence) same) ∙ c.next;
        loads_again =
            ap (load_record codec) (sym disk)
            ∙ loads_current encoded (back_up codec before.current before) r returns;
        previous_kept = λ bytes held.
            ap (λ (d : Disk B). d.previous) (sym disk) ∙ backed_up before.current before bytes held;
      }

  -- A save that returns has passed its checks and written.
  saved_Checked :
      (faults : Faults) (expected_sequence : Option ℤ) (expected_checksum : Option String)
      (state : RuntimeState F) (before after : Disk B) (r : RuntimeStateRecord F)
      → save codec faults expected_sequence expected_checksum state before ≡ (ok r, after)
      → (n : ℤ) × (payload : RuntimeState F) × Checked codec expected_sequence expected_checksum
          state before n payload
        × (write_out codec faults (ok (n, payload)) before ≡ (ok r, after))
  unfolding save
  saved_Checked faults expected_sequence expected_checksum state before after r e =
      elim (Result-cases (before_save codec expected_sequence expected_checksum state before)) [
        | inl checked ↦ (
          checked.0.0,
          checked.0.1,
          before_save-Checked codec expected_sequence expected_checksum state before checked.0.0
              checked.0.1 checked.1,
          rw checked.1 at (e),
        )
        | inr refused ↦
            elim (err_not_ok refused.0 r (
              ap (λ (x : Result Error (RuntimeStateRecord F) × Disk B). x.0)
                (rw refused.1 at (e)))) [ ]
      ]

  -- A save round trips: where `save` returns a record, it holds the saved state and the number after
  -- the one that the files held, loading the files gives that record, and the bytes that were current
  -- are the previous ones. The state is given with its dicts listed by name, and the JSON text of a
  -- value with sorted names loads as that value.
  pub save-Saved :
      (faults : Faults) (expected_sequence : Option ℤ) (expected_checksum : Option String)
      (state : RuntimeState F) (before after : Disk B) (r : RuntimeStateRecord F)
      → sorted_fields state ≡ true
      → save codec faults expected_sequence expected_checksum state before ≡ (ok r, after)
      → Saved state before after r
  save-Saved faults expected_sequence expected_checksum state before after r sorted e =
      let found = saved_Checked faults expected_sequence expected_checksum state before after r e in
      written-Saved faults expected_sequence expected_checksum state before after found.0 found.1 r
        sorted found.2 found.3

  -- What the files hold after a save that may have failed: the record that they held, or that of the
  -- new state with the next number.
  pub data Survives (state : RuntimeState F) (before after : Disk B) : Type 0 where
    old_record : load_record codec after ≡ load_record codec before → Survives state before after
    new_record :
        (old : Option (RuntimeStateRecord F)) (r : RuntimeStateRecord F)
        → load_record codec before ≡ ok old
        → load_record codec after ≡ ok (some r)
        → r.state ≡ state
        → r.sequence ≡ sequence_of codec old +ℤ pos 1
        → Survives state before after

  -- A save never loses the state: whether it returns, is refused, or raises because a replacement of a
  -- file fails before or after the file has changed, the files load as they did before, or they
  -- load as the new state with the next number. The state is given with its dicts listed by name, and
  -- the JSON text of a value with sorted names loads as that value.
  pub save-Survives :
      (faults : Faults) (expected_sequence : Option ℤ) (expected_checksum : Option String)
      (state : RuntimeState F) (before : Disk B)
      → sorted_fields state ≡ true
      → Survives state before (save codec faults expected_sequence expected_checksum state before).1
  unfolding save
  save-Survives faults expected_sequence expected_checksum state before sorted =
      elim (Result-cases (before_save codec expected_sequence expected_checksum state before)) [
        | inr refused ↦ rw refused.1 (old_record refl)
        | inl checked ↦
            let ((n, payload), passed) = checked in
            let encoded = codec.dumps (envelope codec n payload) in
            let c =
              before_save-Checked codec expected_sequence expected_checksum state before n payload
                passed in
            let decoded =
              decoded_envelope expected_sequence expected_checksum state before n payload sorted
                c in
            rw passed
              (elim (written_files faults.backup faults.current before.current encoded before) [
                | inl same ↦ old_record (ap (load_record codec) same)
                | inr (inl backup) ↦ old_record (
                    ap (load_record codec) backup
                    ∙ still_loads before.current before.previous before.locked)
                | inr (inr both) ↦
                    new_record c.before _ c.loaded
                      (ap (load_record codec) both
                        ∙ loads_current encoded (back_up codec before.current before) _ decoded)
                      c.same_state c.next
              ])
      ]

  -- A save that names the sequence it has read returns only where that is still the number in the
  -- files when it checks them, and then writes the next one, if no other writer comes between its check
  -- and its writes. The state is given with its dicts listed by name, and the JSON text of a value
  -- with sorted names loads as that value.
  pub save-next :
      (faults : Faults) (n : ℤ) (expected_checksum : Option String) (state : RuntimeState F)
      (before after : Disk B) (r : RuntimeStateRecord F)
      → sorted_fields state ≡ true
      → save codec faults (some n) expected_checksum state before ≡ (ok r, after)
      → (old : Option (RuntimeStateRecord F)) × (load_record codec before ≡ ok old)
        × (sequence_of codec old ≡ n)
        × (r.sequence ≡ n +ℤ pos 1)
  save-next faults n expected_checksum state before after r sorted e =
      let found = saved_Checked faults (some n) expected_checksum state before after r e in
      let c = found.2 in
      let saved =
        written-Saved faults (some n) expected_checksum state before after found.0 found.1 r sorted
          c found.3 in
      let same = same_number n (sequence_of codec c.before) c.same_sequence in
      let held = ok_inj c.before saved.old (sym c.loaded ∙ saved.old_loaded) in
      (
        c.before,
        c.loaded,
        sym same,
        saved.next_sequence
            ∙ ap (λ o. sequence_of codec o +ℤ pos 1) (sym held)
            ∙ ap (λ m. m +ℤ pos 1) (sym same),
      )

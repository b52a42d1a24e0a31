-- ===== src/Engine/Memory.antt =====
-- About the list and the set of remembered identities.
use text.Mathlib.Text.{starts_with}
use afuture.Prelude.{
  ◌≤◌, String, Bool, false, not, ◌&&◌, ◌≡◌, refl, sym, ◌∙◌, inl, inr, Bool-cases, arith, List, [],
  ◌∷◌, ◌++◌, keep, length, length-append, ltb,
}
use afuture.Prelude.Text.{str_eq, str_eq_iff, str_append}
use afuture.Prelude.Sets.{member, member-append}
use afuture.Store.Payload.{repeats}
use afuture.Engine.{
  TradeMemory, TradeEvent, trade_identity, unqualified_trade_identity, discard, drop_oldest,
  remember, decide_trade, handle_trade, roll_memory, Outcome, IsDate, TradeState, can_advance,
  with_memory,
}

pub record IsMemory (m : TradeMemory) : Type 0 where
  pub distinct : repeats m.recent_ids ≡ false
  pub bounded : length m.recent_ids ≤ 10000
  pub same : (s : String) → member s m.id_set ≡ member s m.recent_ids

pub repeats-snoc :
    (q : String) (xs : List String)
    → repeats xs ≡ false
    → member q xs ≡ false
    → repeats (xs ++ q ∷ []) ≡ false
unfolding repeats
repeats-snoc q [] h k = refl
repeats-snoc q (x ∷ xs) h k =
    ground (arith, str_eq_iff q x, str_eq_iff x q, member-append x xs (q ∷ []), repeats-snoc q xs)

member-keep :
    (t : String → Bool) (s : String) (xs : List String)
    → member s xs ≡ false
    → member s (keep t xs) ≡ false
member-keep t s [] h = refl
member-keep t s (x ∷ xs) h = ground (arith, member-keep t s xs)

repeats-keep :
    (t : String → Bool) (xs : List String) → repeats xs ≡ false → repeats (keep t xs) ≡ false
unfolding repeats
repeats-keep t [] h = refl
repeats-keep t (x ∷ xs) h = ground (arith, repeats-keep t xs, member-keep t x xs)

length-keep : (t : String → Bool) (xs : List String) → length (keep t xs) ≤ length xs
length-keep t [] = omega arith
length-keep t (x ∷ xs) = ground (arith, length-keep t xs)

member-discard :
    (oldest s : String) (ids : List String)
    → member s (discard oldest ids) ≡ (not (str_eq s oldest) && member s ids)
member-discard oldest s [] = ground arith
member-discard oldest s (x ∷ ids) =
    ground
      (arith, str_eq_iff s x, str_eq_iff s oldest, str_eq_iff x oldest, member-discard oldest s ids)

drop_oldest-IsMemory :
    (ids id_set : List String)
    → repeats ids ≡ false
    → length ids ≤ 10001
    → ((s : String) → member s id_set ≡ member s ids)
    → IsMemory (drop_oldest ids id_set)
unfolding repeats
drop_oldest-IsMemory [] id_set h k same = record {
  distinct = refl;
  bounded = omega arith;
  same = same;
}
drop_oldest-IsMemory (oldest ∷ ids) id_set h k same = record {
  distinct = ground (arith, h);
  bounded = omega (arith, k);
  same = λ s. rw (member-discard oldest s id_set, same s) (ground (arith, str_eq_iff s oldest, h));
}

added_same :
    (identity s : String) (m : TradeMemory)
    → member s m.id_set ≡ member s m.recent_ids
    → member s (identity ∷ m.id_set) ≡ member s (m.recent_ids ++ identity ∷ [])
added_same identity s m h = rw (member-append s m.recent_ids (identity ∷ []), h) (ground arith)

pub remember-IsMemory :
    (identity : String) (m : TradeMemory)
    → IsMemory m
    → member identity m.id_set ≡ false
    → IsMemory (remember identity m)
remember-IsMemory identity m v fresh =
    let ids = m.recent_ids ++ identity ∷ [] in
    let distinct = repeats-snoc identity m.recent_ids v.distinct (sym (v.same identity) ∙ fresh) in
    let same = λ (s : String). added_same identity s m (v.same s) in
    elim (Bool-cases (ltb 10000 (length ids))) [
      | inl over ↦ rw over (
          drop_oldest-IsMemory ids (identity ∷ m.id_set) distinct
            (omega (arith, length-append m.recent_ids (identity ∷ []), v.bounded)) same)
      | inr room ↦
          rw room (record { distinct = distinct; bounded = ground (arith, room); same = same })
    ]

decide_trade-IsMemory :
    (identity unqualified : String) (owned : Bool) (m : TradeMemory)
    → IsMemory m
    → IsMemory (decide_trade identity unqualified owned m).1
decide_trade-IsMemory identity unqualified owned m v =
    elim (Bool-cases (member identity m.id_set)) [
      | inl seen ↦ rw seen v
      | inr fresh ↦ elim (Bool-cases (member unqualified m.id_set)) [
        | inl unclear ↦ rw (fresh, unclear) v
        | inr clear ↦ elim (Bool-cases owned) [
          | inl ours ↦ rw (fresh, clear, ours) (remember-IsMemory identity m v fresh)
          | inr theirs ↦ rw (fresh, clear, theirs) v
        ]
      ]
    ]

roll_memory-IsMemory :
    (new_day old_day : String) (m : TradeMemory)
    → IsMemory m
    → IsMemory (roll_memory new_day old_day m)
unfolding roll_memory
roll_memory-IsMemory new_day old_day m v =
    elim (Bool-cases
      (not (str_eq new_day "") && not (str_eq old_day "") && not (str_eq new_day old_day))) [
        | inl rolls ↦ rw rolls (record {
          distinct = repeats-keep _ m.recent_ids v.distinct;
          bounded = omega (
            arith,
            length-keep (λ id. starts_with id (str_append new_day ":")) m.recent_ids,
            v.bounded,
          );
          same = λ s. refl;
        })
        | inr stays ↦ rw stays v
      ]

with_memory-IsMemory :
    (day : String) (decided : Outcome × TradeMemory)
    → IsMemory decided.1
    → IsMemory (with_memory day decided).1.memory
with_memory-IsMemory day (outcome, m) v = v

-- What the engine remembers of trades stays fit to be saved: after any trade event, whatever it does
-- with the trade and with the event's trading day, and after a new trading day, the identities are
-- distinct and at most 10,000, as a loaded state must be, and the set agrees with the list.
pub handle_trade-IsMemory :
    (is_date : IsDate) (e : TradeEvent) (new_day : String) (s : TradeState)
    → IsMemory s.memory
    → IsMemory (handle_trade is_date e s).1.memory
      × IsMemory (roll_memory new_day s.trading_day s.memory)
unfolding handle_trade
handle_trade-IsMemory is_date e new_day s v = (
  elim (Bool-cases (can_advance is_date e.trading_day s.trading_day)) [
    | inl dated ↦ rw dated (
        with_memory-IsMemory e.trading_day
          (decide_trade (trade_identity e) (unqualified_trade_identity e) e.owned
            (roll_memory e.trading_day s.trading_day s.memory))
          (decide_trade-IsMemory (trade_identity e) (unqualified_trade_identity e) e.owned
            (roll_memory e.trading_day s.trading_day s.memory)
            (roll_memory-IsMemory e.trading_day s.trading_day s.memory v)))
    | inr undated_day ↦ rw undated_day v
  ],
  roll_memory-IsMemory new_day s.trading_day s.memory v,
)

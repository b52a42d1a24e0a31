-- ===== src/Engine/Once.antt =====
-- About runs of trade events.
use mathlib.Core.Path.{subst}
use mathlib.Core.List.{append_assoc}
use afuture.Prelude.{
  All, if◌then◌else◌, ℕ, suc, ◌+◌, ◌≤◌, String, false, ◌≡◌, refl, ◌∙◌, ap, inl, inr, Bool-cases,
  arith, List, [], ◌∷◌, ◌++◌, length, length-append, ltb,
}
use afuture.Prelude.Sets.{member}
use afuture.Prelude.Text.{str_eq_refl}
use afuture.Store.Payload.{repeats}
use afuture.Engine.{
  TradeMemory, TradeEvent, TradeState, IsDate, can_advance, roll_memory, undated, with_memory,
  decide_trade, trade_identity, unqualified_trade_identity, remember, handle_trade, handle_trades,
}
use afuture.Engine.Memory.{IsMemory, remember-IsMemory}

-- A run that keeps its identities: those it applied are added to the remembered ones.
pub record Once (m : TradeMemory) (run : List String × TradeState) : Type 0 where
  pub added : run.1.memory.recent_ids ≡ m.recent_ids ++ run.0
  pub distinct : repeats (m.recent_ids ++ run.0) ≡ false

applied-Once :
    (identity : String) (m : TradeMemory) (run : List String × TradeState)
    → Once (record { recent_ids = m.recent_ids ++ identity ∷ []; id_set = identity ∷ m.id_set }) run
    → Once m (identity ∷ run.0, run.1)
applied-Once identity m run once =
    let same = append_assoc m.recent_ids (identity ∷ []) run.0 in
    record {
      added = once.added ∙ same;
      distinct = subst (λ ids. repeats ids ≡ false) same once.distinct;
    }

append-nothing : (xs : List String) → xs ≡ xs ++ []
append-nothing [] = refl
append-nothing (x ∷ xs) = ap (λ ys. x ∷ ys) (append-nothing xs)

remembered :
    (m : TradeMemory) (identity : String)
    → ltb 10000 (length (m.recent_ids ++ identity ∷ [])) ≡ false
    → remember identity m
      ≡ record { recent_ids = m.recent_ids ++ identity ∷ []; id_set = identity ∷ m.id_set }
remembered m identity h = rw h refl

has_room :
    (m : TradeMemory) (identity : String) (n : ℕ)
    → length m.recent_ids + suc n ≤ 10000
    → ltb 10000 (length (m.recent_ids ++ identity ∷ [])) ≡ false
has_room m identity n h = ground (arith, length-append m.recent_ids (identity ∷ []), h)

less_room :
    (m : TradeMemory) (n : ℕ)
    → length m.recent_ids + suc n ≤ 10000
    → length m.recent_ids + n ≤ 10000
less_room m n h = omega (arith, h)

more_ids :
    (m : TradeMemory) (identity : String) (n : ℕ)
    → length m.recent_ids + suc n ≤ 10000
    → length (m.recent_ids ++ identity ∷ []) + n ≤ 10000
more_ids m identity n h = omega (arith, length-append m.recent_ids (identity ∷ []), h)

abbrev pub on_day : String → TradeMemory → TradeState
on_day day m = record { trading_day = day; memory = m }

same_day : (day : String) (m : TradeMemory) → roll_memory day day m ≡ m
unfolding roll_memory
same_day day m = rw (str_eq_refl day) (ground arith)

handle_trade-on_day :
    (is_date : IsDate) (day : String) (e : TradeEvent) (m : TradeMemory)
    → e.trading_day ≡ day
    → handle_trade is_date e (on_day day m) ≡ (
        if can_advance is_date day day
        then with_memory day
            (decide_trade (trade_identity e) (unqualified_trade_identity e) e.owned m)
        else (undated, on_day day m))
unfolding handle_trade
handle_trade-on_day is_date day e m d = rw (d, same_day day m) refl

-- A fill is applied at most once in a trading day: in a run of trade events of the engine's day that
-- fits in the memory, whatever trades the broker repeats, the identities of the applied trades are
-- distinct and none was remembered before, and afterwards exactly these are remembered beside the
-- earlier ones.
pub handle_trades-Once :
    (is_date : IsDate) (day : String) (es : List TradeEvent) (m : TradeMemory)
    → IsMemory m
    → All (λ (e : TradeEvent). e.trading_day ≡ day) es
    → length m.recent_ids + length es ≤ 10000
    → Once m (handle_trades is_date es (on_day day m))
unfolding handle_trades
handle_trades-Once is_date day [] m v d h = record {
  added = append-nothing m.recent_ids;
  distinct = subst (λ ids. repeats ids ≡ false) (append-nothing m.recent_ids) v.distinct;
}
handle_trades-Once is_date day (e ∷ es) m v d h =
    let identity = trade_identity e in
    let skipped = handle_trades-Once is_date day es m v d.1 (less_room m (length es) h) in
    elim (Bool-cases (can_advance is_date day day)) [
      | inr undated_day ↦ rw (handle_trade-on_day is_date day e m d.0, undated_day) skipped
      | inl dated ↦
          rw (handle_trade-on_day is_date day e m d.0, dated)
            (elim (Bool-cases (member identity m.id_set)) [
              | inl seen ↦ rw seen skipped
              | inr fresh ↦ elim (Bool-cases (member (unqualified_trade_identity e) m.id_set)) [
                | inl unclear ↦ rw (fresh, unclear) skipped
                | inr clear ↦ elim (Bool-cases e.owned) [
                  | inl ours ↦
                      rw (fresh, clear, ours, has_room m identity (length es) h)
                        (applied-Once identity m _ (
                          handle_trades-Once is_date day es
                            (record {
                              recent_ids = m.recent_ids ++ identity ∷ [];
                              id_set = identity ∷ m.id_set;
                            })
                            (subst IsMemory
                              (remembered m identity (has_room m identity (length es) h))
                              (remember-IsMemory identity m v fresh))
                            d.1 (more_ids m identity (length es) h)))
                  | inr theirs ↦ rw (fresh, clear, theirs) skipped
                ]
              ]
            ])
    ]

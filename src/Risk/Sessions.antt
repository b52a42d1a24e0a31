-- ===== src/Risk/Sessions.antt =====
-- The trading sessions of risk.py, on the clock of Asia/Shanghai.
use afuture.Prelude.{
  ℕ, ◌+◌, ◌*◌, ◌≤◌, Bool, true, false, ◌&&◌, ◌||◌, ◌≡◌, ◌⊎◌, inl, inr, Bool-cases, arith, List, [],
  ◌∷◌, any, if◌then◌else◌, leb, ltb, ◌<◌, All,
}
use afuture.Models.{SessionWindow}

-- The time of day that `_china_timestamp` gives.
pub record LocalTime : Type 0 where
  pub hour : ℕ
  pub minute : ℕ
  pub second : ℕ
  pub microsecond : ℕ

abbrev pub minutes : LocalTime → ℕ
minutes t = t.hour * 60 + t.minute

-- A `time` of day by the number of its microseconds, which orders it.
abbrev pub time_of : ℕ → ℕ → ℕ → ℕ → ℕ
time_of hour minute second microsecond =
    (hour * 60 + minute) * 60000000 + (second * 1000000 + microsecond)

abbrev pub start_of : SessionWindow → ℕ
start_of w = w.start_hour * 60 + w.start_minute

abbrev pub end_of : SessionWindow → ℕ
end_of w = w.end_hour * 60 + w.end_minute

-- `_inside_window`
unfoldable pub inside_window : LocalTime → SessionWindow → Bool
inside_window t w =
    let now = time_of t.hour t.minute t.second t.microsecond in
    let start = time_of w.start_hour w.start_minute 0 0 in
    let end = time_of w.end_hour w.end_minute 0 0 in
    if leb start end then leb start now && leb now end else leb start now || leb now end

-- `_inside_sessions`
unfoldable pub inside_sessions : LocalTime → List SessionWindow → Bool
unfolding inside_window
inside_sessions t windows = any (inside_window t) windows

-- The minute of the round, and the end of the window, both of the next day where it crosses midnight.
abbrev pub current_minute : ℕ → SessionWindow → ℕ
current_minute now w =
    if ltb (end_of w) (start_of w) then (if ltb now (start_of w) then now + 1440 else now) else now

abbrev pub end_minute_of : SessionWindow → ℕ
end_minute_of w = if ltb (end_of w) (start_of w) then end_of w + 1440 else end_of w

-- `_inside_open_close_buffer`: the first window around the minute decides.
unfoldable pub inside_open_close_buffer : ℕ → ℕ → ℕ → List SessionWindow → Bool
inside_open_close_buffer cooldown blackout now [] = false
inside_open_close_buffer cooldown blackout now (w ∷ windows) =
    let current = current_minute now w in
    let rest = inside_open_close_buffer cooldown blackout now windows in
    if leb (start_of w) current && leb current (end_minute_of w)
    then leb (start_of w + cooldown) current && leb (current + blackout) (end_minute_of w)
    else rest

-- The minute is inside one of the windows, at its distances from the window's two ends.
abbrev pub InBuffer : ℕ → ℕ → ℕ → List SessionWindow → Type 0
InBuffer cooldown blackout now [] = ⊥
InBuffer cooldown blackout now (w ∷ windows) =
    ((start_of w + cooldown ≤ current_minute now w)
      × (current_minute now w + blackout ≤ end_minute_of w))
    ⊎ InBuffer cooldown blackout now windows

inside_one :
    (start end current cooldown blackout : ℕ) (rest : Bool)
    → (if leb start current && leb current end
        then leb (start + cooldown) current && leb (current + blackout) end
        else rest)
      ≡ true
    → ((start + cooldown ≤ current) × (current + blackout ≤ end)) ⊎ (rest ≡ true)
inside_one start end current cooldown blackout rest h = ground arith

-- Where the safety window lets an opening order pass, the minute is inside one of the session windows,
-- at least the cooldown after its start and at least the blackout before its end, also across midnight.
buffer_inside :
    (cooldown blackout now : ℕ) (windows : List SessionWindow)
    → inside_open_close_buffer cooldown blackout now windows ≡ true
    → InBuffer cooldown blackout now windows
unfolding inside_open_close_buffer
buffer_inside cooldown blackout now [] h = cc
buffer_inside cooldown blackout now (w ∷ windows) h =
    elim (inside_one (start_of w) (end_minute_of w) (current_minute now w) cooldown blackout
      (inside_open_close_buffer cooldown blackout now windows) h) [
        | inl here ↦ inl here
        | inr later ↦ inr (buffer_inside cooldown blackout now windows later)
      ]

-- A time of day that a clock shows.
pub record IsClock (t : LocalTime) : Type 0 where
  pub hour : t.hour < 24
  pub minute : t.minute < 60
  pub second : t.second < 60
  pub microsecond : t.microsecond < 1000000

inside_minute :
    (start end now part : ℕ)
    → part < 60000000
    → now < 1440
    → start < 1440
    → (let s = start * 60000000 + (0 * 1000000 + 0) in
        let e = end * 60000000 + (0 * 1000000 + 0) in
        let t = now * 60000000 + part in if leb s e then leb s t && leb t e else leb s t || leb t e)
      ≡ true
    → let current = if ltb end start then (if ltb now start then now + 1440 else now) else now in
      let last = if ltb end start then end + 1440 else end in (start ≤ current) × (current ≤ last)
inside_minute start end now part p n s h = ground arith

inside_window-minute :
    (t : LocalTime) (w : SessionWindow)
    → IsClock t
    → start_of w < 1440
    → inside_window t w ≡ true
    → (start_of w ≤ current_minute (minutes t) w) × (current_minute (minutes t) w ≤ end_minute_of w)
unfolding inside_window
inside_window-minute t w clock early h =
    let c = clock.hour in
    let m = clock.minute in
    let s = clock.second in
    let u = clock.microsecond in
    inside_minute (start_of w) (end_of w) (minutes t) (t.second * 1000000 + t.microsecond)
      (omega arith) (omega arith) early h

in_both :
    (start end current : ℕ) (rest : Bool)
    → start ≤ current
    → current ≤ end
    → (if leb start current && leb current end
        then leb (start + 0) current && leb (current + 0) end
        else rest)
      ≡ true
in_both start end current rest h k = ground arith

in_rest :
    (start end current : ℕ) (rest : Bool)
    → rest ≡ true
    → (if leb start current && leb current end
        then leb (start + 0) current && leb (current + 0) end
        else rest)
      ≡ true
in_rest start end current rest h = ground arith

-- With no cooldown and no blackout, and windows that start before midnight, every time of day that is
-- inside a session passes the safety window: the two tests, on times and on minutes, agree there.
pub inside_sessions-buffer :
    (t : LocalTime) (windows : List SessionWindow)
    → IsClock t
    → All (λ w. start_of w < 1440) windows
    → inside_sessions t windows ≡ true
    → inside_open_close_buffer 0 0 (minutes t) windows ≡ true
unfolding inside_sessions inside_open_close_buffer
inside_sessions-buffer t [] clock early h = h
inside_sessions-buffer t (w ∷ windows) clock early h = elim (Bool-cases (inside_window t w)) [
  | inl here ↦
      let i = inside_window-minute t w clock early.0 here in
      let lower = i.0 in
      let upper = i.1 in
      in_both (start_of w) (end_minute_of w) (current_minute (minutes t) w)
        (inside_open_close_buffer 0 0 (minutes t) windows) lower upper
  | inr outside ↦
      in_rest (start_of w) (end_minute_of w) (current_minute (minutes t) w)
        (inside_open_close_buffer 0 0 (minutes t) windows)
        (inside_sessions-buffer t windows clock early.1 (rw outside at h))
]

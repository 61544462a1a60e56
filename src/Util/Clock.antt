-- ===== src/Util/Clock.antt =====
-- The stamp thread of src/Util/util.cpp with the times that it keeps, and Ticker of
-- src/Util/TimeTicker.h. What gettimeofday answers, in microseconds, is the argument `now`.
mod Tests
pub mod Elapsed
use ffzkit.Base.Words.{add64, sub64}
use ffzkit.Base.{
  ℕ, ◌+◌, ◌*◌, ◌/◌, ◌^◌, Bool, true, false, ◌&&◌, List, [], ◌∷◌, Option, none, some, ltb,
  if◌then◌else◌,
}

pub record Clock : Type 0 where
  -- s_currentMicrosecond and its kin.
  pub microsecond : ℕ
  pub millisecond : ℕ
  pub microsecond_system : ℕ
  pub millisecond_system : ℕ
  -- The locals of the thread.
  pub last : ℕ
  pub total : ℕ

-- The thread starts at `now`; the times of the system were read at `origin`.
pub start : ℕ → ℕ → Clock
start origin now = record {
  microsecond = 0;
  millisecond = 0;
  microsecond_system = origin;
  millisecond_system = origin / 1000;
  last = now;
  total = 0;
}

-- `expired > 0 && expired < 1000 * 1000` for the int64_t of this word.
abbrev pub is_reasonable : ℕ → Bool
is_reasonable expired = ltb 0 expired && ltb expired (2 ^ 63) && ltb expired (1000 * 1000)

-- One round of the loop.
unfoldable pub tick : ℕ → Clock → Clock
unfolding sub64 add64
tick now c =
    let expired = sub64 now c.last in
    let seen = record c { microsecond_system = now; millisecond_system = now / 1000; last = now } in
    let total = add64 c.total expired in
    if is_reasonable expired
    then record seen { total = total; microsecond = total; millisecond = total / 1000 }
    else seen

unfoldable pub run : List ℕ → Clock → Clock
unfolding tick
run [] c = c
run (now ∷ nows) c = run nows (tick now c)

abbrev pub get_current_millisecond : Bool → Clock → ℕ
get_current_millisecond true c = c.millisecond_system
get_current_millisecond false c = c.millisecond

abbrev pub get_current_microsecond : Bool → Clock → ℕ
get_current_microsecond true c = c.microsecond_system
get_current_microsecond false c = c.microsecond

pub record Ticker : Type 0 where
  pub min_ms : ℕ
  pub created : ℕ
  pub begin : ℕ

abbrev pub ticker : ℕ → Clock → Ticker
ticker min_ms c = record {
  min_ms = min_ms;
  created = get_current_millisecond false c;
  begin = get_current_millisecond false c;
}

unfoldable pub elapsed_time : Clock → Ticker → ℕ
unfolding sub64
elapsed_time c t = sub64 (get_current_millisecond false c) t.begin

unfoldable pub created_time : Clock → Ticker → ℕ
unfolding sub64
created_time c t = sub64 (get_current_millisecond false c) t.created

abbrev pub reset_time : Clock → Ticker → Ticker
reset_time c t = record t { begin = get_current_millisecond false c }

-- The time that the destructor reports, if it does.
unfoldable pub reported : Clock → Ticker → Option ℕ
unfolding created_time
reported c t = if ltb t.min_ms (created_time c t) then some (created_time c t) else none

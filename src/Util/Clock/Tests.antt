-- ===== src/Util/Clock/Tests.antt =====
-- A clock that starts at 5 s and sees the time of the system set back, and then go on.
use ffzkit.Base.{◌≤◌, ◌<◌, ◌≡◌, refl, true, some, [], ◌∷◌, arith}
use ffzkit.Util.Clock.{
  Clock, tick, run, get_current_millisecond, get_current_microsecond, ticker, reported,
}
use ffzkit.Util.Clock.Elapsed.{IsKept, tick_forward}

abbrev fresh : Clock
fresh = record {
  microsecond = 0;
  millisecond = 0;
  microsecond_system = 5000000;
  millisecond_system = 5000;
  last = 5000000;
  total = 0;
}

set_back : (run (5000500 ∷ 1000 ∷ 1600 ∷ []) fresh).microsecond ≡ 1100
unfolding run
set_back = refl

reports : reported (run (5900000 ∷ []) fresh) (ticker 5 fresh) ≡ some 900
unfolding run reported
reports = refl

fresh-IsKept : IsKept fresh
fresh-IsKept = omega arith

tick_forward_example :
    IsKept (tick 1000 fresh)
    × (0 ≤ (tick 1000 fresh).microsecond)
    × ((tick 1000 fresh).microsecond < 1000000)
    × (0 ≤ (tick 1000 fresh).millisecond)
    × (get_current_microsecond true (tick 1000 fresh) ≡ 1000)
    × (get_current_millisecond true (tick 1000 fresh) ≡ 1)
tick_forward_example = tick_forward 1000 fresh fresh-IsKept (omega arith)

-- ===== src/Thread/LoadCounter/Tests.antt =====
-- A run of the counter, and its theorems at that run.
use ffzkit.Base.Words.{add64, sub64, mul64}
use ffzkit.Base.{◌≤◌, ◌≡◌, refl, ◌⊎◌, inr, true, false, List, [], ◌∷◌, ◌++◌, length, arith}
use ffzkit.Thread.LoadCounter.History.{Reached, created, sleeps, wakes, Reached-load}
use ffzkit.Thread.LoadCounter.Sums.{current}
use ffzkit.Thread.LoadCounter.Window.{Fits, IsTimed, load-longest}
use ffzkit.Thread.LoadCounter.{
  TimeRecord, Counter, create, push_record, start_sleep, sleep_wake_up, load, load_loop, percent,
}

-- A thread that was started at 1000, ran for 30, slept for 70, and has been running since 1100.
abbrev busy : Counter
busy = sleep_wake_up (start_sleep (create 2 100 1000) 1030) 1100

busy_records :
    busy.time_list ≡ record { sleep = false; time = 30 } ∷ record { sleep = true; time = 70 } ∷ []
unfolding start_sleep sleep_wake_up create sub64 push_record
busy_records = refl

-- At 1120 the first record no longer fits the window of 100.
busy_percent : (load busy 1120).0 ≡ 22
unfolding load percent load_loop start_sleep sleep_wake_up create sub64 add64 mul64 push_record
busy_percent = refl

busy-Reached : Reached 2 100 busy
unfolding create start_sleep
busy-Reached =
    wakes 1100 (sleeps 1030 (created 1000) (inr refl) (omega arith) (omega arith)) refl
      (omega arith) (omega arith)

busy-IsTimed : IsTimed busy 1120
unfolding start_sleep sleep_wake_up create sub64 push_record
busy-IsTimed = record { asleep = omega arith; awake = omega arith; summed = omega arith }

load-longest_example :
    ((gone : List TimeRecord) × (busy.time_list ≡ gone ++ (load busy 1120).1.time_list))
    × (((load busy 1120).1.time_list ≡ [])
        ⊎ Fits busy.max_usec busy.max_size (current busy 1120) (load busy 1120).1.time_list)
    × ((before suffix : List TimeRecord)
        → busy.time_list ≡ before ++ suffix
        → Fits busy.max_usec busy.max_size (current busy 1120) suffix
        → length suffix ≤ length (load busy 1120).1.time_list)
load-longest_example = load-longest busy 1120 (omega arith) busy-IsTimed

Reached-load_example : (load busy 1120).0 ≤ 100
unfolding start_sleep sleep_wake_up create
Reached-load_example = Reached-load 1120 busy-Reached (omega arith) (omega arith)

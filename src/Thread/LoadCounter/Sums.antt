-- ===== src/Thread/LoadCounter/Sums.antt =====
-- The sums of ThreadLoadCounter::load, src/Thread/TaskExecutor.cpp, taken without wrap-around.
use ffzkit.Base.Words.{u64_mod, add64-lt}
use ffzkit.Base.{ℕ, ◌+◌, ◌-◌, ◌≤◌, ◌<◌, ◌≡◌, List, [], ◌∷◌, ◌++◌, if◌then◌else◌, arith, ◌∙◌}
use ffzkit.Thread.LoadCounter.{TimeRecord, Counter, Totals, add_record, sum_records}

-- The time of the records, and the part of it that was not slept.
abbrev pub time_sum : List TimeRecord → ℕ
time_sum [] = 0
time_sum (r ∷ rs) = r.time + time_sum rs

abbrev pub run_sum : List TimeRecord → ℕ
run_sum [] = 0
run_sum (r ∷ rs) = (if r.sleep then 0 else r.time) + run_sum rs

-- The interval that has not ended at time `now`, and how much of it the thread runs.
abbrev pub current : Counter → ℕ → ℕ
current c now = now - (if c.sleeping then c.last_sleep_time else c.last_wake_time)

abbrev pub current_run : Counter → ℕ → ℕ
current_run c now = if c.sleeping then 0 else current c now

pub time_sum-append : (l m : List TimeRecord) → time_sum (l ++ m) ≡ time_sum l + time_sum m
time_sum-append [] m = omega arith
time_sum-append (r ∷ l) m = omega (arith, time_sum-append l m)

pub run_sum-le : (l : List TimeRecord) → run_sum l ≤ time_sum l
run_sum-le [] = omega arith
run_sum-le (r ∷ rs) = ground (arith, run_sum-le rs)

add_record_lem :
    (t : Totals) (r : TimeRecord)
    → t.total_sleep + t.total_run + r.time < u64_mod
    → ((add_record t r).total_run ≡ t.total_run + (if r.sleep then 0 else r.time))
      × ((add_record t r).total_sleep + (add_record t r).total_run
          ≡ t.total_sleep + t.total_run + r.time)
unfolding add_record
add_record_lem t r h = ground (arith, add64-lt t.total_run r.time, add64-lt t.total_sleep r.time)

pub sum_records_lem :
    (t : Totals) (l : List TimeRecord)
    → t.total_sleep + t.total_run + time_sum l < u64_mod
    → ((sum_records t l).total_run ≡ t.total_run + run_sum l)
      × ((sum_records t l).total_sleep + (sum_records t l).total_run
          ≡ t.total_sleep + t.total_run + time_sum l)
unfolding sum_records
sum_records_lem t [] h = omega arith
sum_records_lem t (r ∷ rs) h =
    let one = add_record_lem t r (omega arith) in
    let rest = sum_records_lem (add_record t r) rs (omega arith) in
    (rest.0 ∙ omega arith, rest.1 ∙ omega arith)

-- ===== src/Thread/LoadCounter.antt =====
-- ThreadLoadCounter of src/Thread/TaskExecutor.h and TaskExecutor.cpp. The clock, which each
-- operation reads once under the lock, is the argument `now`.

mod Tests
pub mod Sums
pub mod Window
pub mod History
use ffzkit.Base.Words.{add64, sub64, mul64}
use ffzkit.Base.{
  ℕ, ◌/◌, ◌%◌, ◌^◌, Bool, true, false, ◌||◌, List, [], ◌∷◌, ◌++◌, ltb, ◌==◌, if◌then◌else◌, length,
}

pub record TimeRecord : Type 0 where
  pub sleep : Bool
  pub time : ℕ

pub record Counter : Type 0 where
  pub sleeping : Bool
  pub last_sleep_time : ℕ
  pub last_wake_time : ℕ
  pub max_size : ℕ
  pub max_usec : ℕ
  pub time_list : List TimeRecord

pub create : ℕ → ℕ → ℕ → Counter
create max_size max_usec now = record {
  sleeping = true;
  last_sleep_time = now;
  last_wake_time = now;
  max_size = max_size;
  max_usec = max_usec;
  time_list = [];
}

-- `pop_front()`; it is called on a list that is not empty.
abbrev pub pop_front {ℓ} : {A : Type ℓ} → List A → List A
pop_front [] = []
pop_front (x ∷ xs) = xs

-- `emplace_back` and the size check behind it.
pub push_record : ℕ → List TimeRecord → TimeRecord → List TimeRecord
push_record max_size l r =
    let l' = l ++ r ∷ [] in if ltb max_size (length l') then pop_front l' else l'

pub start_sleep : Counter → ℕ → Counter
start_sleep c now = record c {
  sleeping = true;
  last_sleep_time = now;
  time_list =
      push_record c.max_size c.time_list
        (record { sleep = false; time = sub64 now c.last_wake_time });
}

pub sleep_wake_up : Counter → ℕ → Counter
sleep_wake_up c now = record c {
  sleeping = false;
  last_wake_time = now;
  time_list =
      push_record c.max_size c.time_list
        (record { sleep = true; time = sub64 now c.last_sleep_time });
}

-- The local variables of `load`.
pub record Totals : Type 0 where
  pub total_sleep : ℕ
  pub total_run : ℕ

pub add_record : Totals → TimeRecord → Totals
add_record t r =
    if r.sleep
    then record t { total_sleep = add64 t.total_sleep r.time }
    else record t { total_run = add64 t.total_run r.time }

-- The `for_each` over the records.
pub sum_records : Totals → List TimeRecord → Totals
unfolding add_record
sum_records t [] = t
sum_records t (r ∷ rs) = sum_records (add_record t r) rs

-- The interval that has not ended yet.
pub add_current : Counter → ℕ → Totals → Totals
add_current c now t =
    if c.sleeping
    then record t { total_sleep = add64 t.total_sleep (sub64 now c.last_sleep_time) }
    else record t { total_run = add64 t.total_run (sub64 now c.last_wake_time) }

pub record Loop : Type 0 where
  pub kept : List TimeRecord
  pub run : ℕ
  pub total : ℕ

-- The `while` loop: the oldest records go until the window and the size are met.
-- `totalSleepTime` is not read behind it.
pub trim_window : ℕ → ℕ → List TimeRecord → ℕ → ℕ → Loop
trim_window max_usec max_size [] run total = record { kept = []; run = run; total = total }
trim_window max_usec max_size (r ∷ rs) run total =
    let rest =
      trim_window max_usec max_size rs (if r.sleep then run else sub64 run r.time)
        (sub64 total r.time) in
    if ltb max_usec total || ltb max_size (length (r ∷ rs))
    then rest
    else record { kept = r ∷ rs; run = run; total = total }

-- `(int)(totalRunTime * 100 / totalTime)` with the test for 0 before it: the bits of the int, whose value is
-- this one below 2 ^ 31.
pub percent : ℕ → ℕ → ℕ
percent run total = if total == 0 then 0 else (mul64 run 100 / total) % 2 ^ 32

pub load_loop : Counter → ℕ → Loop
unfolding sum_records add_current trim_window
load_loop c now =
    let t =
      add_current c now (sum_records (record { total_sleep = 0; total_run = 0 }) c.time_list) in
    trim_window c.max_usec c.max_size c.time_list t.total_run (add64 t.total_run t.total_sleep)

-- `load` returns the percentage and leaves the records of the window.
pub load : Counter → ℕ → ℕ × Counter
load c now = let l = load_loop c now in (percent l.run l.total, record c { time_list = l.kept })

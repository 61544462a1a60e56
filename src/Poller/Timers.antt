-- ===== src/Poller/Timers.antt =====
-- The timers of EventPoller, src/Poller/EventPoller.cpp: doDelayTask, flushDelayTask and
-- getMinDelay, and the TaskCancelableImp of src/Thread/TaskExecutor.h that they call. What a task
-- does is a parameter.
mod Tests
pub mod Queue
pub mod Flush
use ffzkit.Base.Words.{u64_mod, add64, sub64}
use ffzkit.Base.{ℕ, ◌-◌, Bool, true, false, List, [], ◌∷◌, ◌++◌, leb, ltb, ◌==◌, if◌then◌else◌}

-- std::multimap: the entries by key, those of one key in the order in which they came.
abbrev pub Timers {ℓ} : Type ℓ → Type ℓ
Timers T = List (ℕ × T)

pub emplace {ℓ} : {T : Type ℓ} → ℕ → T → Timers T → Timers T
emplace k t [] = (k, t) ∷ []
emplace k t ((j, u) ∷ m) = if ltb k j then (k, t) ∷ (j, u) ∷ m else (j, u) ∷ emplace k t m

-- `insert(first, last)`.
pub insert_all {ℓ} : {T : Type ℓ} → List (ℕ × T) → Timers T → Timers T
unfolding emplace
insert_all [] m = m
insert_all ((k, t) ∷ es) m = insert_all es (emplace k t m)

-- A task returns the delay to its next run, or throws a std::exception.
pub data Outcome : Type 0 where
  returns : ℕ → Outcome
  throws : Outcome

-- `S` is the rest of the program's state. A task may set timers: on the thread of the loop
-- doDelayTask puts them into `delay_task_map_` at once.
pub record Ran (T : Type 0) (S : Type 0) : Type 0 where
  pub outcome : Outcome
  pub added : List (ℕ × T)
  pub state : S

pub record Tasks (T : Type 0) (S : Type 0) : Type 0 where
  pub cancelled : T → S → Bool
  pub run : T → S → Ran T S

-- What -1 is as a uint64_t.
abbrev pub minus_one : ℕ
minus_one = u64_mod - 1

module _ {T S : Type 0} (tasks : Tasks T S) where
  -- TaskCancelableImp::operator(): a task that was cancelled returns the default value 0.
  pub call : T → S → Ran T S
  call t s =
      if tasks.cancelled t s
      then record { outcome = returns 0; added = []; state = s }
      else tasks.run t s

  -- The timer that a task leaves behind.
  pub again : ℕ → T → Outcome → List (ℕ × T)
  again now t (returns next_delay) = if next_delay == 0 then [] else (add64 next_delay now, t) ∷ []
  again now t throws = []

  pub record Flushed : Type 0 where
    pub task_copy : Timers T
    pub delay_task_map : Timers T
    pub state : S

  -- The `for` loop of flushDelayTask.
  pub flush_loop : ℕ → Timers T → Timers T → S → Flushed
  unfolding call again insert_all
  flush_loop now [] m s = record { task_copy = []; delay_task_map = m; state = s }
  flush_loop now ((k, t) ∷ copy) m s =
      let r = call t s in
      let rest =
        flush_loop now copy (insert_all (again now t r.outcome) (insert_all r.added m)) r.state in
      if leb k now
      then rest
      else record { task_copy = (k, t) ∷ copy; delay_task_map = m; state = s }

  pub record Waited : Type 0 where
    pub delay : ℕ
    pub timers : Timers T
    pub after : S

  pub first_delay : ℕ → Timers T → ℕ
  first_delay now [] = minus_one
  first_delay now ((k, t) ∷ m) = sub64 k now

  pub flush_delay_task : ℕ → Timers T → S → Waited
  unfolding flush_loop first_delay
  flush_delay_task now m s =
      let l = flush_loop now m [] s in
      let m' = insert_all l.delay_task_map l.task_copy in
      record { delay = first_delay now m'; timers = m'; after = l.state }

  pub get_min_delay : ℕ → Timers T → S → Waited
  unfolding flush_delay_task
  get_min_delay now [] s = record { delay = minus_one; timers = []; after = s }
  get_min_delay now ((k, t) ∷ m) s =
      if ltb now k
      then record { delay = sub64 k now; timers = (k, t) ∷ m; after = s }
      else flush_delay_task now ((k, t) ∷ m) s

-- doDelayTask when it runs on the thread of the loop, at the time `now`; from another thread the
-- same `emplace` is a task of `async_first`.
pub do_delay_task {ℓ} : {T : Type ℓ} → ℕ → ℕ → T → Timers T → Timers T
unfolding emplace
do_delay_task now delay_ms t m = emplace (add64 now delay_ms) t m

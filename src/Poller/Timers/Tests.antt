-- ===== src/Poller/Timers/Tests.antt =====
-- Tasks are numbers: task 0 runs every 10 ms, task 1 throws, and any other runs once.
use mathlib.Core.List.{Perm}
use ffzkit.Base.Words.{add64, sub64}
use ffzkit.Base.{ℕ, ◌+◌, ◌<◌, ◌≡◌, refl, false, List, [], ◌∷◌, ◌++◌, suc, zero, arith}
use ffzkit.Poller.Timers.Flush.{
  due, later, run_all, flush_delay_task_lem, IsTimely, Sleeps, get_min_delay-Sleeps, max_ms,
}
use ffzkit.Poller.Timers.{
  Timers, Outcome, returns, throws, Tasks, call, flush_delay_task, get_min_delay,
}

outcome_of : ℕ → Outcome
outcome_of zero = returns 10
outcome_of (suc zero) = throws
outcome_of (suc (suc t)) = returns 0

-- The state is the list of the tasks that have run, the last first.
abbrev tasks : Tasks ℕ (List ℕ)
tasks = record {
  cancelled = λ t s. false;
  run = λ t s. record { outcome = outcome_of t; added = []; state = t ∷ s };
}

abbrev set : Timers ℕ
set = (100, 1) ∷ (103, 0) ∷ (105, 2) ∷ (120, 3) ∷ []

flushed :
    get_min_delay tasks 105 set []
    ≡ record { delay = 10; timers = (115, 0) ∷ (120, 3) ∷ []; after = 2 ∷ 0 ∷ 1 ∷ [] }
unfolding get_min_delay outcome_of add64 sub64
flushed = refl

flush_delay_task_lem_example :
    ((flush_delay_task tasks 105 set []).after ≡ (run_all tasks 105 (due 105 set) []).1)
    × Perm
        (flush_delay_task tasks 105 set []).timers
        ((run_all tasks 105 (due 105 set) []).0 ++ later 105 set)
flush_delay_task_lem_example = flush_delay_task_lem tasks 105 set []

outcome_of-lt : (t d : ℕ) → outcome_of t ≡ returns d → d + 105 < max_ms
unfolding outcome_of
outcome_of-lt zero d e = ground arith
outcome_of-lt (suc zero) d e = cc
outcome_of-lt (suc (suc t)) d e = ground arith

tasks-IsTimely : IsTimely tasks 105
unfolding call
tasks-IsTimely = record { added = λ t s. tt; again_at = λ t s d e. outcome_of-lt t d e }

get_min_delay-Sleeps_example : Sleeps tasks 105 (get_min_delay tasks 105 set [])
get_min_delay-Sleeps_example =
    get_min_delay-Sleeps tasks 105 set [] tasks-IsTimely (omega arith) (omega arith)

-- ===== src/Poller/Async.antt =====
-- async, async_first, async_I and onPipeEvent of src/Poller/EventPoller.cpp: tasks for the thread of
-- the loop, and the pipe that wakes it up. A task is an element of `T`; what it does is a parameter.
mod Tests
pub mod Steps
pub mod Wakeup
pub mod Order
use ffzkit.Base.{
  ℕ, zero, suc, ◌+◌, Bool, true, false, ◌&&◌, List, [], ◌∷◌, ◌++◌, Option, none, some,
  if◌then◌else◌,
}

-- The part of async_I under the lock.
unfoldable pub enqueue {ℓ} : {T : Type ℓ} → Bool → T → List T → List T
enqueue first t l = if first then t ∷ l else l ++ t ∷ []

-- What async_I does with the task: it runs at once, or it goes into the list and a byte into the pipe.
pub data Placed {ℓ} (T : Type ℓ) : Type ℓ where
  ran : T → Placed T
  queued : List T → Placed T

unfoldable pub async_I {ℓ} : {T : Type ℓ} → Bool → Bool → Bool → T → List T → Placed T
unfolding enqueue
async_I may_sync first is_current_thread t l =
    if may_sync && is_current_thread then ran t else queued (enqueue first t l)

-- The list behind it.
abbrev pub waiting {ℓ} : {T : Type ℓ} → List T → Placed T → List T
waiting l (ran t) = l
waiting l (queued l') = l'

-- What one `pipe_.read` answers: a number of bytes above 0, the end of the file, EAGAIN, or
-- another error.
pub data Read : Type 0 where
  bytes : ℕ → Read
  eof again error : Read

-- The `for (;;)` of onPipeEvent over the answers of its reads, true if it reopens the pipe;
-- `none` means that it is still reading at their end.
pub drain : List Read → Option Bool
drain [] = none
drain (bytes n ∷ rs) = drain rs
drain (eof ∷ rs) = some true
drain (again ∷ rs) = some false
drain (error ∷ rs) = some true

-- How a task ends: it returns, throws ExitException, or throws another std::exception.
pub data Ending : Type 0 where
  returned exited threw : Ending

-- The state of the loop: the flag, and the tasks it has run, in order.
pub record Loop {ℓ} (T : Type ℓ) : Type ℓ where
  pub exit_flag : Bool
  pub done : List T

-- One round of the `for_each` of onPipeEvent.
unfoldable pub run_task {ℓ} : {T : Type ℓ} → (T → Ending) → Loop T → T → Loop T
run_task ending s t = elim (ending t) [
  | exited ↦ record { exit_flag = true; done = s.done ++ t ∷ [] }
  | _ ↦ record s { done = s.done ++ t ∷ [] }
]

unfoldable pub run_tasks {ℓ} : {T : Type ℓ} → (T → Ending) → Loop T → List T → Loop T
unfolding run_task
run_tasks ending s [] = s
run_tasks ending s (t ∷ ts) = run_tasks ending (run_task ending s t) ts

-- onPipeEvent when nothing comes between: the loop, the new `list_task_`, and whether the pipe was
-- reopened. With `flush` nothing is read.
pub on_pipe_event {ℓ} :
    {T : Type ℓ}
    → (T → Ending)
    → Bool
    → List Read
    → Loop T
    → List T
    → Option (Loop T × List T × Bool)
unfolding drain run_tasks
on_pipe_event ending flush reads s l = elim (if flush then some false else drain reads) [
  | none ↦ none
  | some reopened ↦ some (run_tasks ending s l, [], reopened)
]

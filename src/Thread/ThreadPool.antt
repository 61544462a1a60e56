-- ===== src/Thread/ThreadPool.antt =====
-- ThreadPool of src/Thread/ThreadPool.h: the calls, over the queue of Thread/TaskQueue and the group
-- of Thread/ThreadGroup. What its threads do with the queue is Steps.
mod Tests
pub mod Steps
pub mod Census
pub mod Tasks
pub mod Shutdown
use ffzkit.Base.Words.{sub64, u64_mod}
use ffzkit.Base.{
  ℕ, suc, ◌+◌, ◌-◌, Bool, true, false, ◌&&◌, List, [], ◌∷◌, Option, none, some, ◌==◌, if◌then◌else◌,
  length,
}
use ffzkit.Thread.TaskQueue
use ffzkit.Thread.ThreadGroup.{Group, is_this_thread_in, create_thread}

-- `thread_num_` is a size_t that is set from an int: here the int by its sign and its size.
pub thread_num : Bool → ℕ → ℕ
unfolding sub64
thread_num negative n = if negative then sub64 0 n else n

-- The number of threads that `start` makes; `threads` are in the group.
pub start_count : ℕ → ℕ → ℕ
unfolding sub64
start_count num threads = if num == 0 then 0 else sub64 num threads

-- The loop of `start`, by the identifiers that the new threads get.
pub start {ℓ} : {V : Type ℓ} → List (ℕ × V) → Group V → Group V
unfolding create_thread
start [] g = g
start ((id, v) ∷ made) g = start made (create_thread id v g)

-- What async and async_first do with a task: run it here, or put it into the queue.
pub data Placed {ℓ} (T : Type ℓ) : Type ℓ where
  ran : T → Placed T
  queued : TaskQueue.Queue T → Placed T

module _ {ℓ κ} {T : Type ℓ} {V : Type κ} where
  pub async : Bool → ℕ → Group V → T → TaskQueue.Queue T → Placed T
  unfolding is_this_thread_in TaskQueue.push_task
  async may_sync cur g t q =
      if may_sync && is_this_thread_in cur g then ran t else queued (TaskQueue.push_task q t)

  pub async_first : Bool → ℕ → Group V → T → TaskQueue.Queue T → Placed T
  unfolding is_this_thread_in TaskQueue.push_task_first
  async_first may_sync cur g t q =
      if may_sync && is_this_thread_in cur g then ran t else queued (TaskQueue.push_task_first q t)

-- shutdown, and the size that the pool answers.
pub shutdown {ℓ} : {T : Type ℓ} → ℕ → TaskQueue.Queue T → TaskQueue.Queue T
unfolding TaskQueue.push_exit
shutdown num q = TaskQueue.push_exit q num

abbrev pub pool_size {ℓ} : {T : Type ℓ} → TaskQueue.Queue T → ℕ
pool_size q = TaskQueue.size q

-- ===== src/Thread/TaskQueue.antt =====
-- semaphore.h, List.h and TaskQueue.h of src/Thread and src/Util. A thread that waits is a thread
-- that has not taken the step `passes`: what wakes it up is left to the condition variable.
mod Tests
pub mod Steps
pub mod Accounting
pub mod Order
use ffzkit.Base.{
  ℕ, zero, suc, ◌+◌, ◌≡◌, Bool, true, false, List, [], ◌∷◌, ◌++◌, Option, none, some, length,
}

-- semaphore: `post` adds, and `wait` goes on once the count is not 0 and takes one off.
unfoldable pub post : ℕ → ℕ → ℕ
post count n = count + n

unfoldable pub wait : ℕ → Option ℕ
wait zero = none
wait (suc count) = some count

-- List::append moves the elements of the other list to the end; the pair is both lists behind it.
pub append {ℓ} : {A : Type ℓ} → List A → List A → List A × List A
append xs [] = (xs, [])
append xs (y ∷ ys) = (xs ++ y ∷ ys, [])

pub record Queue {ℓ} (T : Type ℓ) : Type ℓ where
  pub tasks : List T
  pub count : ℕ

module _ {ℓ} {T : Type ℓ} where
  unfoldable pub empty : Queue T
  empty = record { tasks = []; count = 0 }

  -- The part of `push_task` and `push_task_first` under the lock.
  unfoldable pub emplace_back : Queue T → T → Queue T
  emplace_back q t = record q { tasks = q.tasks ++ t ∷ [] }

  unfoldable pub emplace_front : Queue T → T → Queue T
  emplace_front q t = record q { tasks = t ∷ q.tasks }

  -- The `sem_.post` behind it, and `push_exit`.
  unfoldable pub post_n : Queue T → ℕ → Queue T
  unfolding post
  post_n q n = record q { count = post q.count n }

  unfoldable pub push_task : Queue T → T → Queue T
  unfolding emplace_back post_n
  push_task q t = post_n (emplace_back q t) 1

  unfoldable pub push_task_first : Queue T → T → Queue T
  unfolding emplace_front post_n
  push_task_first q t = post_n (emplace_front q t) 1

  unfoldable pub push_exit : Queue T → ℕ → Queue T
  unfolding post_n
  push_exit q n = post_n q n

  -- The part of `get_task` behind `sem_.wait()`, under the lock; `none` is the result `false`.
  unfoldable pub pop_task : List T → Option T × List T
  pop_task [] = (none, [])
  pop_task (t ∷ ts) = (some t, ts)

  -- `get_task` when nothing comes between; `none` means that the call blocks.
  pub get_task : Queue T → Option (Option T × Queue T)
  unfolding wait pop_task
  get_task q = elim (wait q.count) [
    | none ↦ none
    | some count ↦ let (r, ts) = pop_task q.tasks in some (r, record { tasks = ts; count = count })
  ]

  abbrev pub size : Queue T → ℕ
  size q = length q.tasks

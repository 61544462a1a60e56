-- ===== src/Thread/TaskQueue/Tests.antt =====
-- Tasks are numbers; one thread puts in a task and asks for an exit, another takes the task.
use ffzkit.Base.{ℕ, ◌<◌, ◌≡◌, refl, ◌⊎◌, [], ◌∷◌, none, some, arith}
use ffzkit.Thread.TaskQueue.Accounting.{Reach-no_lost_wakeup}
use ffzkit.Thread.TaskQueue.Steps.{System, start, pushes, posts, Reach, here, next}
use ffzkit.Thread.TaskQueue.{
  empty, emplace_back, post_n, push_exit, wait, push_task, push_task_first, get_task,
}

two_tasks :
    get_task {T = ℕ} (push_task_first (push_task (empty {T = ℕ}) 1) 2)
    ≡ some (some 2, record { tasks = 1 ∷ []; count = 1 })
unfolding get_task push_task_first push_task empty
two_tasks = refl

exit_only : get_task (push_exit (empty {T = ℕ}) 1) ≡ some (none, empty)
unfolding get_task push_exit empty
exit_only = refl

abbrev waiting : System ℕ
waiting = record (start {T = ℕ}) {
  queue = post_n (emplace_back (emplace_back empty 7) 8) 1;
  posting = 1;
  pushed = 7 ∷ 8 ∷ [];
}

waiting-Reach : Reach waiting
unfolding empty emplace_back post_n
waiting-Reach = next (next (next here (pushes 7)) (pushes 8)) (posts (omega arith))

Reach-no_lost_wakeup_example :
    ((n : ℕ) × (wait waiting.queue.count ≡ some n)) ⊎ (0 < waiting.taking) ⊎ (0 < waiting.posting)
unfolding empty emplace_back post_n
Reach-no_lost_wakeup_example = Reach-no_lost_wakeup waiting-Reach (λ e. cc)

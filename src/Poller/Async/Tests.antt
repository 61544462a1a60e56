-- ===== src/Poller/Async/Tests.antt =====
-- Tasks are numbers; task 0 throws ExitException and task 1 another exception.
use mathlib.Core.List.{Perm}
use ffzkit.Base.{ℕ, zero, suc, ◌<◌, ◌≡◌, refl, ◌⊎◌, true, false, [], ◌∷◌, some, arith}
use ffzkit.Poller.Async.Steps.{System, start, Reach, here, next, submits, writes}
use ffzkit.Poller.Async.Order.{line}
use ffzkit.Poller.Async.Wakeup.{IsAwake, Reach-no_stranded_task}
use ffzkit.Poller.Async.{
  async_I, enqueue, bytes, again, Ending, returned, exited, threw, Loop, on_pipe_event,
}

ending : ℕ → Ending
ending zero = exited
ending (suc zero) = threw
ending (suc (suc t)) = returned

abbrev idle : Loop ℕ
idle = record { exit_flag = false; done = [] }

three_tasks :
    on_pipe_event ending false (bytes 3 ∷ again ∷ []) idle (5 ∷ 0 ∷ 1 ∷ [])
    ≡ some (record { exit_flag = true; done = 5 ∷ 0 ∷ 1 ∷ [] }, [], false)
unfolding on_pipe_event ending
three_tasks = refl

abbrev handed : System ℕ
handed = record (start ending 16) {
  list_task = enqueue false 8 (enqueue false 7 []);
  pipe = 1;
  edge = true;
  writing = 1;
  submitted = enqueue false 8 (enqueue false 7 []);
}

handed-Reach : Reach ending 16 handed
unfolding async_I enqueue
handed-Reach =
    next (next (next here (submits false 7)) (submits false 8)) (writes (omega arith) (omega arith))

Reach-no_stranded_task_example :
    Perm handed.submitted (line ending 16 handed)
    × ((handed.list_task ≡ []) ⊎ (handed.broken ≡ true) ⊎ (0 < handed.writing) ⊎ IsAwake handed)
Reach-no_stranded_task_example = Reach-no_stranded_task ending 16 (omega arith) handed-Reach

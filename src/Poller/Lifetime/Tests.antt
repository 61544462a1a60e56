-- ===== src/Poller/Lifetime/Tests.antt =====
-- Tasks are numbers; task 0 throws ExitException, and shutdown hands it over. A task 7 is handed to
-- a poller whose loop is never started, and to one whose loop runs.
use mathlib.Core.List.{Perm}
use ffzkit.Base.{ℕ, zero, suc, refl, true, false, [], ◌∷◌, ◌++◌, inr, arith}
use ffzkit.Poller.Async.{async_I, enqueue, run_task, Ending, returned, exited}
use ffzkit.Poller.Async.Steps.{running, start, submits, runs}
use ffzkit.Poller.Lifetime.{
  Life, joining, gone, is_gone, works, shuts, joins, flushes, dies, Lived, here, next,
}
use ffzkit.Poller.Lifetime.Finished.{Lived_all_done}
use ffzkit.Poller.Lifetime.Returns.{Returns, Lived-Returns}

ending : ℕ → Ending
ending zero = exited
ending (suc t) = returned

abbrev unstarted : Life ℕ
unstarted = record {
  system = record (start ending 16) {
    list_task = 8 ∷ [];
    writing = 3;
    phase = running;
    submitted = 0 ∷ 7 ∷ 8 ∷ [];
    loop = record { exit_flag = true; done = 0 ∷ 7 ∷ [] };
  };
  stage = gone;
  ended = true;
  flushed = 0 ∷ 7 ∷ [];
}

-- Task 8 comes in during the last flush.
unstarted-Lived : Lived ending 16 0 false unstarted
unfolding is_gone async_I enqueue run_task ending
unstarted-Lived =
    let handed = next here (works (submits false 7) refl refl) in
    let flush = next (next (next handed (shuts refl)) (joins refl refl)) (flushes refl) in
    let first = next flush (works (runs 0 (7 ∷ []) refl refl) (inr refl) refl) in
    let late = next first (works (submits false 8) refl refl) in
    next (next late (works (runs 7 [] refl refl) (inr refl) refl)) (dies refl refl)

Lived_all_done_example :
    Perm unstarted.flushed unstarted.system.loop.done
    × Perm unstarted.system.submitted (unstarted.system.loop.done ++ unstarted.system.list_task)
Lived_all_done_example = Lived_all_done ending 16 0 unstarted-Lived refl

abbrev waiting : Life ℕ
waiting = record {
  system = record (start ending 16) { list_task = 0 ∷ 7 ∷ []; writing = 2; submitted = 0 ∷ 7 ∷ [] };
  stage = joining;
  ended = false;
  flushed = [];
}

waiting-Lived : Lived ending 16 0 true waiting
unfolding is_gone async_I enqueue
waiting-Lived = next (next here (works (submits false 7) refl refl)) (shuts refl)

Lived-Returns_example : Returns ending 16 0 waiting
unfolding ending
Lived-Returns_example = Lived-Returns ending 16 0 (omega arith) refl waiting-Lived refl refl

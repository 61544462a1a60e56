-- ===== src/Poller/Lifetime.antt =====
-- The end of an EventPoller: runLoop's test of exit_flag_, shutdown and the destructor of
-- src/Poller/EventPoller.cpp, over the relation of Poller/Async. `quit` is the task that shutdown hands over,
-- which throws ExitException.
pub mod Finished
pub mod Told
pub mod Progress
pub mod Returns
mod Tests
use ffzkit.Base.{ℕ, ◌+◌, ◌≡◌, Bool, true, false, not, List, [], ◌∷◌, ◌⊎◌}
use ffzkit.Poller.Async.{async_I, waiting, Ending}
use ffzkit.Poller.Async.Steps.{
  polling, running, System, start, Step, submits, writes, write_fails, reported, reads, drained,
  reopens, reopen_fails, swaps, runs, finishes,
}

-- Where the thread is that destroys the poller: it has not begun, waits in join, is behind it, runs
-- what was left in the list, or is done.
pub data Stage : Type 0 where
  alive joining joined flushing gone : Stage

pub record Life {ℓ} (T : Type ℓ) : Type ℓ where
  pub system : System T
  pub stage : Stage
  -- There is no thread in runLoop: it was not started, or it has left the loop.
  pub ended : Bool
  -- What had been handed over when the destructor took the list.
  pub flushed : List T

unfoldable pub is_gone : Stage → Bool
is_gone gone = true
is_gone s = false

module _ {ℓ} {T : Type ℓ} (ending : T → Ending) (capacity : ℕ) (quit : T) where
  abbrev pub created : Bool → Life T
  created started = record {
    system = start ending capacity;
    stage = alive;
    ended = not started;
    flushed = [];
  }

  -- Other threads and the tasks themselves may hand tasks over as long as there is a poller; a step of
  -- the loop has a thread in the loop, and a wait for events begins only behind the test of exit_flag_. The
  -- last flush runs tasks too.
  abbrev pub IsFree : (s : Life T) {u : System T} → Step ending capacity s.system u → Type 0
  IsFree s (submits first t) = is_gone s.stage ≡ false
  IsFree s (writes h k) = is_gone s.stage ≡ false
  IsFree s (write_fails h k) = is_gone s.stage ≡ false
  IsFree s (reported e w g) = (s.ended ≡ false) × (s.system.loop.exit_flag ≡ false)
  IsFree s (reads n e h k) = s.ended ≡ false
  IsFree s (drained e p) = s.ended ≡ false
  IsFree s (reopens e) = s.ended ≡ false
  IsFree s (reopen_fails e) = s.ended ≡ false
  IsFree s (swaps e) = s.ended ≡ false
  IsFree s (runs t ts e l) = (s.ended ≡ false) ⊎ (s.stage ≡ flushing)
  IsFree s (finishes e l) = s.ended ≡ false

  pub data Lives (s : Life T) : Life T → Type ℓ where
    works :
        {u : System T} (st : Step ending capacity s.system u)
        → IsFree s st
        → is_gone s.stage ≡ false
        → Lives s (record s { system = u })
    leaves :
        s.ended ≡ false
        → s.system.phase ≡ polling
        → s.system.loop.exit_flag ≡ true
        → Lives s (record s { ended = true })
    -- The task goes to the front of the list.
    shuts :
        s.stage ≡ alive
        → Lives s (record {
          system = record s.system {
            list_task =
                waiting s.system.list_task (async_I false true false quit s.system.list_task);
            writing = s.system.writing + 1;
            submitted = quit ∷ s.system.submitted;
          };
          stage = joining;
          ended = s.ended;
          flushed = s.flushed;
        })
    joins : s.stage ≡ joining → s.ended ≡ true → Lives s (record s { stage = joined })
    -- onPipeEvent(true) of the destructor: it takes the list, and is done when it has run it.
    flushes :
        s.stage ≡ joined
        → Lives s (record {
          system = record s.system {
            phase = running;
            list_swap = s.system.list_task;
            list_task = [];
          };
          stage = flushing;
          ended = s.ended;
          flushed = s.system.submitted;
        })
    dies : s.stage ≡ flushing → s.system.list_swap ≡ [] → Lives s (record s { stage = gone })

  pub data Lived (started : Bool) : Life T → Type ℓ where
    here : Lived started (created started)
    next : {s s' : Life T} → Lived started s → Lives s s' → Lived started s'

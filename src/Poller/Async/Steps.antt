-- ===== src/Poller/Async/Steps.antt =====
-- The loop and any number of threads that hand tasks to it, step by step. The pipe is the number
-- of its bytes; `edge` is true if there was a write since the last report of the poller.
use ffzkit.Base.{
  ℕ, ◌+◌, ◌-◌, ◌≤◌, ◌<◌, ◌≡◌, ◌⊎◌, Bool, true, false, List, [], ◌∷◌, ◌++◌, if◌then◌else◌,
}
use ffzkit.Poller.Async.{async_I, waiting, Ending, Loop, run_task}

-- Where the thread of the loop is: in the poller or between events, in the read loop of
-- onPipeEvent, between that and the swap, or running the tasks it has swapped out.
pub data Phase : Type 0 where
  polling draining swapping running : Phase

pub record System {ℓ} (T : Type ℓ) : Type ℓ where
  pub list_task : List T
  pub pipe : ℕ
  pub edge : Bool
  -- Threads between the push and the write to the pipe.
  pub writing : ℕ
  pub phase : Phase
  pub list_swap : List T
  pub loop : Loop T
  -- The pipe could not be opened again, or is not watched any more.
  pub broken : Bool
  -- The tasks that were handed over.
  pub submitted : List T

module _ {ℓ} {T : Type ℓ} (ending : T → Ending) (capacity : ℕ) where
  abbrev pub start : System T
  start = record {
    list_task = [];
    pipe = 0;
    edge = false;
    writing = 0;
    phase = polling;
    list_swap = [];
    loop = record { exit_flag = false; done = [] };
    broken = false;
    submitted = [];
  }

  pub data Step (s : System T) : System T → Type ℓ where
    -- A call of async_I that does not run the task at once: `may_sync` is not set, or it comes from
    -- another thread.
    submits :
        (first : Bool) (t : T)
        → Step s (record s {
          list_task = waiting s.list_task (async_I false first false t s.list_task);
          writing = s.writing + 1;
          submitted = if first then t ∷ s.submitted else s.submitted ++ t ∷ [];
        })
    writes :
        0 < s.writing
        → s.pipe < capacity
        → Step s (record s { pipe = s.pipe + 1; edge = true; writing = s.writing - 1 })
    -- The pipe is full, and the write fails with EAGAIN, or there is none: async_I does not look at it.
    write_fails :
        0 < s.writing
        → (capacity ≤ s.pipe) ⊎ (s.broken ≡ true)
        → Step s (record s { writing = s.writing - 1 })
    -- An edge-triggered poller reports an edge, a level-triggered one a pipe that is not empty.
    reported :
        s.phase ≡ polling
        → s.broken ≡ false
        → (s.edge ≡ true) ⊎ (0 < s.pipe)
        → Step s (record s { phase = draining; edge = false })
    reads :
        (n : ℕ) → s.phase ≡ draining → 0 < n → n ≤ s.pipe → Step s (record s { pipe = s.pipe - n })
    drained : s.phase ≡ draining → s.pipe ≡ 0 → Step s (record s { phase = swapping })
    -- The end of the file or another error: a new pipe, which is empty.
    reopens : s.phase ≡ draining → Step s (record s { phase = swapping; pipe = 0; edge = false })
    -- reOpen or addEventPipe throws: runLoop catches the exception, the tasks stay in the list, and the
    -- poller watches no pipe any more.
    reopen_fails :
        s.phase ≡ draining
        → Step s (record s { phase = polling; pipe = 0; edge = false; broken = true })
    swaps :
        s.phase ≡ swapping
        → Step s (record s { phase = running; list_swap = s.list_task; list_task = [] })
    runs :
        (t : T) (ts : List T)
        → s.phase ≡ running
        → s.list_swap ≡ t ∷ ts
        → Step s (record s { list_swap = ts; loop = run_task ending s.loop t })
    finishes : s.phase ≡ running → s.list_swap ≡ [] → Step s (record s { phase = polling })

  pub data Reach : System T → Type ℓ where
    here : Reach start
    next : {s s' : System T} → Reach s → Step s s' → Reach s'

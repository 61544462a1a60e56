-- ===== src/Poller/Async/Wakeup.antt =====
-- The loop is always woken up for a task.
use ffzkit.Base.{ℕ, ◌<◌, ◌≡◌, refl, ◌⊎◌, inl, inr, true, [], arith}
use ffzkit.Poller.Async.Steps.{
  draining, swapping, reopen_fails, System, Step, submits, writes, write_fails, reported, reads,
  drained, reopens, swaps, runs, finishes, Reach, here, next,
}
use mathlib.Core.List.{Perm}
use ffzkit.Poller.Async.Order.{line, Reach_each_task_once}
use ffzkit.Poller.Async.{Ending}

-- The poller has something to report, be it edge- or level-triggered, or the loop is on its way to
-- the swap.
abbrev pub IsAwake {ℓ} : {T : Type ℓ} → System T → Type 0
IsAwake s = ((0 < s.pipe) × (s.edge ≡ true)) ⊎ (s.phase ≡ draining) ⊎ (s.phase ≡ swapping)

module _ {ℓ} {T : Type ℓ} (ending : T → Ending) (capacity : ℕ) (room : 0 < capacity) where
  record Inv (s : System T) : Type ℓ where
    unread : (s.pipe ≡ 0) ⊎ (s.edge ≡ true) ⊎ (s.phase ≡ draining)
    pending : (s.list_task ≡ []) ⊎ (s.broken ≡ true) ⊎ (0 < s.writing) ⊎ IsAwake s

  Step-Inv : {s s' : System T} → Step ending capacity s s' → Inv s → Inv s'
  Step-Inv (submits first t) v = record {
    unread = v.unread;
    pending = inr (inr (inl (omega arith)));
  }
  Step-Inv (writes h k) v = record {
    unread = inr (inl refl);
    pending = inr (inr (inr (inl (omega arith, refl))));
  }
  Step-Inv (write_fails h k) v = record {
    unread = v.unread;
    pending = ground (arith, v.unread, v.pending, k);
  }
  Step-Inv (reported e w g) v = record {
    unread = inr (inr refl);
    pending = inr (inr (inr (inr (inl refl))));
  }
  Step-Inv (reads n e h k) v = record {
    unread = inr (inr e);
    pending = inr (inr (inr (inr (inl e))));
  }
  Step-Inv (drained e p) v = record { unread = inl p; pending = inr (inr (inr (inr (inr refl)))) }
  Step-Inv (reopens e) v = record { unread = inl refl; pending = inr (inr (inr (inr (inr refl)))) }
  Step-Inv (reopen_fails e) v = record { unread = inl refl; pending = inr (inl refl) }
  Step-Inv (swaps e) v = record { unread = ground (arith, v.unread); pending = inl refl }
  Step-Inv (runs t ts e l) v = record { unread = v.unread; pending = v.pending }
  Step-Inv (finishes e l) v = record {
    unread = ground (arith, v.unread);
    pending = ground (arith, v.pending);
  }

  Reach-Inv : {s : System T} → Reach ending capacity s → Inv s
  Reach-Inv here = record { unread = inl refl; pending = inl refl }
  Reach-Inv (next r st) = Step-Inv st (Reach-Inv r)

  pub Reach-unread :
      {s : System T}
      → Reach ending capacity s
      → (s.pipe ≡ 0) ⊎ (s.edge ≡ true) ⊎ (s.phase ≡ draining)
  Reach-unread r = (Reach-Inv r).unread

  -- A task that was handed over has run, is among those that the loop is about to run, or waits in the
  -- list, each as often as it was handed over; and no task is stranded there: while one waits, a thread
  -- is about to write to the pipe, or the poller has an event to report, edge- or level-triggered, or
  -- the loop is on its way to take the list, unless an attempt to open the pipe again has failed. The
  -- pipe has room for a byte, and may be full; the tasks may come in at any moment.
  pub Reach-no_stranded_task :
      {s : System T}
      → Reach ending capacity s
      → Perm s.submitted (line ending capacity s)
        × ((s.list_task ≡ []) ⊎ (s.broken ≡ true) ⊎ (0 < s.writing) ⊎ IsAwake s)
  Reach-no_stranded_task r = (Reach_each_task_once ending capacity r, (Reach-Inv r).pending)

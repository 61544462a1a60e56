-- ===== src/Poller/Async/Order.antt =====
-- Every task runs once, and in order.
use mathlib.Core.List.{Perm, append_assoc, append-nil, perm_middle, perm_append_comm}
use mathlib.Core.List.Perm
use ffzkit.Base.{
  ℕ, ◌≡◌, refl, ◌∙◌, sym, ap, ◌⊎◌, inl, inr, Bool, true, false, ◌||◌, some, List, [], ◌∷◌, ◌++◌,
  arith, if◌then◌else◌,
}
use ffzkit.Poller.Async.Steps.{
  System, swapping, running, Step, submits, writes, write_fails, reported, reads, drained, reopens,
  reopen_fails, swaps, runs, finishes, Reach, here, next,
}
use ffzkit.Poller.Async.{
  enqueue, async_I, Ending, returned, exited, threw, Loop, run_task, run_tasks, Read, drain,
  on_pipe_event,
}

pub run_task-done {ℓ} :
    {T : Type ℓ} (ending : T → Ending) (s : Loop T) (t : T)
    → (run_task ending s t).done ≡ s.done ++ t ∷ []
unfolding run_task
run_task-done ending s t = ground arith

-- The loop runs every task of the list it has swapped out, also behind one that throws.
pub run_tasks-done {ℓ} :
    {T : Type ℓ} (ending : T → Ending) (s : Loop T) (ts : List T)
    → (run_tasks ending s ts).done ≡ s.done ++ ts
unfolding run_tasks
run_tasks-done ending s [] = rw append-nil
run_tasks-done ending s (t ∷ ts) =
    run_tasks-done ending (run_task ending s t) ts
    ∙ rw (run_task-done ending s t) (append_assoc s.done (t ∷ []) ts)

abbrev pub exits : Ending → Bool
exits exited = true
exits returned = false
exits threw = false

abbrev pub any_exits {ℓ} : {T : Type ℓ} → (T → Ending) → List T → Bool
any_exits ending [] = false
any_exits ending (t ∷ ts) = exits (ending t) || any_exits ending ts

pub run_task-exit {ℓ} :
    {T : Type ℓ} (ending : T → Ending) (s : Loop T) (t : T)
    → (run_task ending s t).exit_flag ≡ (s.exit_flag || exits (ending t))
unfolding run_task
run_task-exit ending s t = ground arith

run_tasks-exit {ℓ} :
    {T : Type ℓ} (ending : T → Ending) (s : Loop T) (ts : List T)
    → (run_tasks ending s ts).exit_flag ≡ (s.exit_flag || any_exits ending ts)
unfolding run_tasks
run_tasks-exit ending s [] = ground arith
run_tasks-exit ending s (t ∷ ts) =
    run_tasks-exit ending (run_task ending s t) ts ∙ rw (run_task-exit ending s t) (ground arith)

-- onPipeEvent takes the whole list and runs every task of it in order, also behind one that
-- throws; the loop is told to exit exactly if it was before or one of the tasks threw
-- ExitException. This is when the reads come to an end, or are left out in a flush.
pub on_pipe_event_lem {ℓ} :
    {T : Type ℓ} (ending : T → Ending) (flush : Bool) (answers : List Read) (s : Loop T)
    (l : List T) (reopened : Bool)
    → (if flush then some false else drain answers) ≡ some reopened
    → (s' : Loop T) × (on_pipe_event ending flush answers s l ≡ some (s', [], reopened))
      × (s'.done ≡ s.done ++ l)
      × (s'.exit_flag ≡ (s.exit_flag || any_exits ending l))
unfolding on_pipe_event
on_pipe_event_lem ending flush answers s l reopened e = (
  run_tasks ending s l,
  rw (on_pipe_event, e),
  run_tasks-done ending s l,
  run_tasks-exit ending s l,
)

module _ {ℓ} {T : Type ℓ} (ending : T → Ending) (capacity : ℕ) where
  -- The tasks that have run, those that are running, and those that wait.
  abbrev pub line : System T → List T
  line s = (s.loop.done ++ s.list_swap) ++ s.list_task

  -- Outside the `for_each` nothing is swapped out.
  abbrev pub SwapInv : System T → Type ℓ
  SwapInv s = (s.phase ≡ running) ⊎ (s.list_swap ≡ [])

  pub Step-SwapInv : {s s' : System T} → Step ending capacity s s' → SwapInv s → SwapInv s'
  Step-SwapInv (submits first t) v = v
  Step-SwapInv (writes h k) v = v
  Step-SwapInv (write_fails h k) v = v
  Step-SwapInv (reported e w g) v = inr (ground arith)
  Step-SwapInv (reads n e h k) v = v
  Step-SwapInv (drained e p) v = inr (ground arith)
  Step-SwapInv (reopens e) v = inr (ground arith)
  Step-SwapInv (reopen_fails e) v = inr (ground arith)
  Step-SwapInv (swaps e) v = inl refl
  Step-SwapInv (runs t ts e l) v = inl e
  Step-SwapInv (finishes e l) v = inr l

  pub Reach-SwapInv : {s : System T} → Reach ending capacity s → SwapInv s
  Reach-SwapInv here = inr refl
  Reach-SwapInv (next r st) = Step-SwapInv st (Reach-SwapInv r)

  swaps-line :
      (s : System T) → s.phase ≡ swapping → SwapInv s → (s.loop.done ++ s.list_task) ++ [] ≡ line s
  swaps-line s e (inl p) = absurd (ground arith)
  swaps-line s e (inr q) = rw (q, append-nil, append-nil)

  runs-line :
      (s : System T) (t : T) (ts : List T)
      → s.list_swap ≡ t ∷ ts
      → ((run_task ending s.loop t).done ++ ts) ++ s.list_task ≡ line s
  runs-line s t ts l =
      rw (run_task-done ending s.loop t, l)
        (ap (λ x. x ++ s.list_task) (append_assoc _ (t ∷ []) ts))

  enqueue-perm : (first : Bool) (t : T) (l : List T) → Perm (enqueue first t l) (t ∷ l)
  unfolding enqueue
  enqueue-perm true t l = Perm.refl (t ∷ l)
  enqueue-perm false t l = perm_append_comm l (t ∷ [])

  submitted-perm :
      (first : Bool) (t : T) (l : List T) → Perm (if first then t ∷ l else l ++ t ∷ []) (t ∷ l)
  submitted-perm true t l = Perm.refl (t ∷ l)
  submitted-perm false t l = perm_append_comm l (t ∷ [])

  pub Step-perm :
      {s s' : System T}
      → Step ending capacity s s'
      → SwapInv s
      → Perm s.submitted (line s)
      → Perm s'.submitted (line s')
  unfolding async_I enqueue
  Step-perm {s} (submits first t) v h = Perm.trans (submitted-perm first t s.submitted) (
      Perm.trans (Perm.cons t h) (
        Perm.trans (Perm.symm (perm_middle (s.loop.done ++ s.list_swap) s.list_task)) (
          Perm.append (Perm.refl (s.loop.done ++ s.list_swap))
            (Perm.symm (enqueue-perm first t s.list_task)))))
  Step-perm (writes h' k) v h = h
  Step-perm (write_fails h' k) v h = h
  Step-perm (reported e w g) v h = h
  Step-perm (reads n e h' k) v h = h
  Step-perm (drained e p) v h = h
  Step-perm (reopens e) v h = h
  Step-perm (reopen_fails e) v h = h
  Step-perm {s} (swaps e) v h = rw (swaps-line s e v) h
  Step-perm {s} (runs t ts e l) v h = rw (runs-line s t ts l) h
  Step-perm (finishes e l) v h = h

  -- Whatever happens, the tasks that were handed over are those that have run, those that the loop
  -- is about to run and those that wait, each as often: none is lost and none runs twice.
  pub Reach_each_task_once : {s : System T} → Reach ending capacity s → Perm s.submitted (line s)
  Reach_each_task_once here = Perm.refl []
  Reach_each_task_once (next r st) = Step-perm st (Reach-SwapInv r) (Reach_each_task_once r)

  -- No task was handed over by async_first.
  abbrev pub AllLast : {s : System T} → Reach ending capacity s → Type 0
  AllLast here = Unit
  AllLast (next r (submits first t)) = (first ≡ false) × AllLast r
  AllLast (next r (writes h k)) = AllLast r
  AllLast (next r (write_fails h k)) = AllLast r
  AllLast (next r (reported e w g)) = AllLast r
  AllLast (next r (reads n e h k)) = AllLast r
  AllLast (next r (drained e p)) = AllLast r
  AllLast (next r (reopens e)) = AllLast r
  AllLast (next r (reopen_fails e)) = AllLast r
  AllLast (next r (swaps e)) = AllLast r
  AllLast (next r (runs t ts e l)) = AllLast r
  AllLast (next r (finishes e l)) = AllLast r

  -- If all tasks were handed over by `async`, they run in the order in which they were handed over.
  pub Reach-async_order :
      {s : System T} (r : Reach ending capacity s) → AllLast r → s.submitted ≡ line s
  unfolding async_I enqueue
  Reach-async_order here a = refl
  Reach-async_order (next {s} r (submits first t)) a = rw a.0 (
      ap (λ x. x ++ t ∷ []) (Reach-async_order r a.1)
      ∙ append_assoc (s.loop.done ++ s.list_swap) s.list_task (t ∷ []))
  Reach-async_order (next r (writes h k)) a = Reach-async_order r a
  Reach-async_order (next r (write_fails h k)) a = Reach-async_order r a
  Reach-async_order (next r (reported e w g)) a = Reach-async_order r a
  Reach-async_order (next r (reads n e h k)) a = Reach-async_order r a
  Reach-async_order (next r (drained e p)) a = Reach-async_order r a
  Reach-async_order (next r (reopens e)) a = Reach-async_order r a
  Reach-async_order (next r (reopen_fails e)) a = Reach-async_order r a
  Reach-async_order (next {s} r (swaps e)) a =
      Reach-async_order r a ∙ sym (swaps-line s e (Reach-SwapInv r))
  Reach-async_order (next {s} r (runs t ts e l)) a =
      Reach-async_order r a ∙ sym (runs-line s t ts l)
  Reach-async_order (next r (finishes e l)) a = Reach-async_order r a

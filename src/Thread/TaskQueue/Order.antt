-- ===== src/Thread/TaskQueue/Order.antt =====
-- Which tasks come out of the queue, and in which order.
use mathlib.Core.List.{Perm, append_assoc, perm_middle}
use mathlib.Core.List.Perm
use ffzkit.Base.{◌≡◌, refl, ap, List, [], ◌∷◌, ◌++◌}
use ffzkit.Thread.TaskQueue.Steps.{
  System, took, Step, pushes, pushes_first, posts, asks_exit, passes, takes, Reach, here, next,
}
use ffzkit.Thread.TaskQueue.{empty, emplace_back, emplace_front, post_n, push_exit, pop_task}

module _ {ℓ} {T : Type ℓ} where
  -- The tasks that have come out, and then those that wait.
  abbrev pub line : System T → List T
  line s = s.taken ++ s.queue.tasks

  took-perm :
      (s : System T) (ts : List T)
      → Perm s.pushed (s.taken ++ ts)
      → Perm (took s (pop_task ts)).pushed (line (took s (pop_task ts)))
  unfolding pop_task
  took-perm s [] h = h
  took-perm s (t ∷ ts) h = rw append_assoc h

  took-line :
      (s : System T) (ts : List T)
      → s.pushed ≡ s.taken ++ ts
      → (took s (pop_task ts)).pushed ≡ line (took s (pop_task ts))
  unfolding pop_task
  took-line s [] h = h
  took-line s (t ∷ ts) h = rw append_assoc h

  Step-perm : {s s' : System T} → Step s s' → Perm s.pushed (line s) → Perm s'.pushed (line s')
  unfolding emplace_back emplace_front post_n push_exit
  Step-perm {s} (pushes t) h =
      rw (← append_assoc s.taken s.queue.tasks (t ∷ [])) (Perm.append h (Perm.refl (t ∷ [])))
  Step-perm {s} (pushes_first t) h =
      Perm.trans (Perm.cons t h) (Perm.symm (perm_middle s.taken s.queue.tasks))
  Step-perm (posts k) h = h
  Step-perm (asks_exit n) h = h
  Step-perm (passes e) h = h
  Step-perm {s} (takes k) h = took-perm s s.queue.tasks h

  -- Whatever the threads do, the tasks that were put in are those that have come out and those
  -- that still wait, each as often: none is lost and none comes out twice.
  pub Reach-perm : {s : System T} → Reach s → Perm s.pushed (line s)
  unfolding empty
  Reach-perm here = Perm.refl []
  Reach-perm (next r st) = Step-perm st (Reach-perm r)

  -- No task was put in by `push_task_first`.
  abbrev pub AllBack : {s : System T} → Reach s → Type 0
  AllBack here = Unit
  AllBack (next r (pushes_first t)) = ⊥
  AllBack (next r (pushes t)) = AllBack r
  AllBack (next r (posts k)) = AllBack r
  AllBack (next r (asks_exit n)) = AllBack r
  AllBack (next r (passes e)) = AllBack r
  AllBack (next r (takes k)) = AllBack r

  -- If all tasks were put in by `push_task`, they come out in the order in which they were put in.
  pub Reach-fifo : {s : System T} (r : Reach s) → AllBack r → s.pushed ≡ line s
  unfolding empty emplace_back post_n push_exit
  Reach-fifo here b = refl
  Reach-fifo (next {s} r (pushes t)) b =
      rw (← append_assoc s.taken s.queue.tasks (t ∷ [])) (ap (λ l. l ++ t ∷ []) (Reach-fifo r b))
  Reach-fifo (next r (pushes_first t)) b = absurd b
  Reach-fifo (next r (posts k)) b = Reach-fifo r b
  Reach-fifo (next r (asks_exit n)) b = Reach-fifo r b
  Reach-fifo (next r (passes e)) b = Reach-fifo r b
  Reach-fifo (next {s} r (takes k)) b = took-line s s.queue.tasks (Reach-fifo r b)

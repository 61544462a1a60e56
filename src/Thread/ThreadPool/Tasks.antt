-- ===== src/Thread/ThreadPool/Tasks.antt =====
-- What becomes of the tasks that are put into the pool.
use mathlib.Core.List.{Perm, perm_middle, perm_append_singleton}
use mathlib.Core.List.Perm
use ffzkit.Base.{ℕ, ◌≡◌, refl, sym, subst, Bool, true, false, List, [], ◌∷◌, ◌++◌}
use ffzkit.Thread.TaskQueue.Steps.{System, took}
use ffzkit.Thread.TaskQueue.Order.{Reach-perm}
use ffzkit.Thread.TaskQueue.{pop_task}
use ffzkit.Thread.ThreadPool.Census.{Reach-system}
use ffzkit.Thread.ThreadPool.Steps.{
  Pool, put, got, Works, task_posts, passes, takes, finishes, Step, works, submits, posts,
  task_submits, shuts, Reach, here, next,
}

module _ {ℓ} {T : Type ℓ} where
  -- The tasks that threads have taken out of the queue.
  abbrev pub held : Pool T → List T
  held p = p.running ++ (p.pushing ++ p.done)

  split_perm :
      (xs before : List T) (t : T) (after : List T)
      → xs ≡ before ++ t ∷ after
      → Perm xs (t ∷ (before ++ after))
  split_perm xs before t after e =
      subst (λ l. Perm l (t ∷ (before ++ after))) (sym e) (perm_middle before after)

  took-held :
      (p : Pool T) (ts : List T)
      → Perm p.system.taken (held p)
      → Perm
          (got (record p { system = took p.system (pop_task ts) }) (pop_task ts).0).system.taken
          (held (got (record p { system = took p.system (pop_task ts) }) (pop_task ts).0))
  unfolding pop_task
  took-held p [] h = h
  took-held p (t ∷ ts) h = Perm.trans (perm_append_singleton t p.system.taken) (Perm.cons t h)

  put-taken : (first : Bool) (t : T) (s : System T) → (put first t s).taken ≡ s.taken
  put-taken true t s = refl
  put-taken false t s = refl

  module _ (num : ℕ) where
    Works-held :
        {p p' : Pool T}
        → Works num p p'
        → Perm p.system.taken (held p)
        → Perm p'.system.taken (held p')
    Works-held {p} (task_posts before t after e) h = Perm.trans h (
        Perm.trans
          (Perm.append_left p.running
            (Perm.append_right p.done (split_perm p.pushing before t after e)))
          (perm_middle p.running ((before ++ after) ++ p.done)))
    Works-held (passes k e) h = h
    Works-held {p} (takes k) h = took-held p p.system.queue.tasks h
    Works-held {p} (finishes before t after e) h = Perm.trans h (
        Perm.trans (Perm.append_right (p.pushing ++ p.done) (split_perm p.running before t after e))
          (Perm.symm (
            Perm.trans (Perm.append_left (before ++ after) (perm_middle p.pushing p.done))
              (perm_middle (before ++ after) (p.pushing ++ p.done)))))

    Step-held :
        {p p' : Pool T}
        → Step num p p'
        → Perm p.system.taken (held p)
        → Perm p'.system.taken (held p')
    Step-held (works w) h = Works-held w h
    Step-held {p} (submits first t s) h =
        subst (λ l. Perm l (held p)) (sym (put-taken first t p.system)) h
    Step-held (posts k) h = h
    Step-held {p} (task_submits first t new before after e) h =
        subst (λ l. Perm l ((before ++ after) ++ ((t ∷ p.pushing) ++ p.done)))
          (sym (put-taken first new p.system))
          (Perm.trans h (
            Perm.trans
              (Perm.append_right (p.pushing ++ p.done) (split_perm p.running before t after e))
              (Perm.symm (perm_middle (before ++ after) (p.pushing ++ p.done)))))
    Step-held (shuts s o) h = h

    Reach-held : {p : Pool T} → Reach num p → Perm p.system.taken (held p)
    Reach-held here = Perm.refl []
    Reach-held (next r st) = Step-held st (Reach-held r)

    -- In every state of the pool the tasks that were put in are those that run, those that are
    -- inside a call of async, those that have run and those that wait in the queue, each as often
    -- as it was put in: no task is lost, and none is run twice.
    pub Reach_each_once :
        {p : Pool T} → Reach num p → Perm p.system.pushed (held p ++ p.system.queue.tasks)
    Reach_each_once {p} r =
        Perm.trans (Reach-perm (Reach-system num r))
          (Perm.append_right p.system.queue.tasks (Reach-held r))

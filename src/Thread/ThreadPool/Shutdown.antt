-- ===== src/Thread/ThreadPool/Shutdown.antt =====
-- The end of the pool: what `shutdown` and the `join_all` behind it can rely on.
use mathlib.Core.List.{Perm, append-nil}
use native.Mathlib.Decide.{dec_lt}
use ffzkit.Base.{ℕ, ◌+◌, ◌*◌, ◌<◌, ◌≡◌, refl, true, List, [], ◌∷◌, length, arith}
use ffzkit.Thread.TaskQueue.{post_n, push_exit, pop_task}
use ffzkit.Thread.TaskQueue.Steps.{took}
use ffzkit.Thread.TaskQueue.Accounting.{wait_pos}
use ffzkit.Thread.ThreadPool.{shutdown}
use ffzkit.Thread.ThreadPool.Census.{IsCounted, Reach-IsCounted, Reach-tokens, length-split}
use ffzkit.Thread.ThreadPool.Tasks.{Reach_each_once}
use ffzkit.Thread.ThreadPool.Steps.{
  Pool, got, Works, task_posts, passes, takes, finishes, Step, works, submits, posts, task_submits,
  shuts, Reach, here, next,
}

module _ {ℓ} {T : Type ℓ} (num : ℕ) where
  -- Once all threads have ended, nothing is left in the queue.
  abbrev IsEmptied : Pool T → Type 0
  IsEmptied p = p.exited ≡ num → length p.system.queue.tasks ≡ 0

  takes-IsEmptied :
      (p : Pool T) (ts : List T)
      → 0 < p.system.taking
      → IsCounted num p
      → IsEmptied (got (record p { system = took p.system (pop_task ts) }) (pop_task ts).0)
  unfolding pop_task
  takes-IsEmptied p [] h c e = refl
  takes-IsEmptied p (t ∷ ts) h c e = absurd (omega (arith, c.threads))

  Works-IsEmptied : {p p' : Pool T} → Works num p p' → IsCounted num p → IsEmptied p → IsEmptied p'
  unfolding post_n
  Works-IsEmptied (task_posts before t after e) c h = h
  Works-IsEmptied (passes k e) c h = h
  Works-IsEmptied {p} (takes k) c h = takes-IsEmptied p p.system.queue.tasks k c
  Works-IsEmptied (finishes before t after e) c h = h

  Step-IsEmptied :
      {p p' : Pool T} → 0 < num → Step num p p' → Reach num p → IsEmptied p → IsEmptied p'
  unfolding post_n push_exit shutdown
  Step-IsEmptied m (works w) r h all = Works-IsEmptied w (Reach-IsCounted num r) h all
  Step-IsEmptied m (submits first t s) r h all =
      let c = Reach-IsCounted num r in
      absurd (ground (arith, c.leaving, c.exits, (Reach-tokens num r).granted))
  Step-IsEmptied m (posts k) r h all = h all
  Step-IsEmptied {p} m (task_submits first t new before after e) r h all =
      absurd
        (omega (arith, (Reach-IsCounted num r).threads, length-split p.running before t after e))
  Step-IsEmptied m (shuts s o) r h all = h all

  Reach-IsEmptied : {p : Pool T} → 0 < num → Reach num p → IsEmptied p
  Reach-IsEmptied m here e = omega arith
  Reach-IsEmptied m (next r st) e = Step-IsEmptied m st r (Reach-IsEmptied m r) e

  no-elements : (xs : List T) → length xs ≡ 0 → xs ≡ []
  no-elements [] e = refl
  no-elements (x ∷ xs) e = absurd (omega (arith, e))

  -- Once every thread of a pool of one thread or more has ended, as `join_all` waits for, each task
  -- that was put in has been run to its end, as often as it was put in.
  pub Reach_all_done :
      {p : Pool T} → 0 < num → Reach num p → p.exited ≡ num → Perm p.system.pushed p.done
  Reach_all_done {p} m r e =
      let c = Reach-IsCounted num r in
      let t = no-elements p.system.queue.tasks (Reach-IsEmptied m r e) in
      let u = no-elements p.running (omega (arith, c.threads)) in
      let w = no-elements p.pushing (omega (arith, c.threads)) in
      simp (t, u, w, append-nil) at (Reach_each_once num r)

  -- A bound on the steps that the threads have left while no task is put in.
  abbrev cost : Pool T → ℕ
  cost p =
      4 * length p.system.queue.tasks
      + 2 * p.waiting
      + p.system.taking
      + 3 * length p.running
      + 4 * length p.pushing

  takes-cost :
      (p : Pool T) (ts : List T)
      → p.system.queue.tasks ≡ ts
      → 0 < p.system.taking
      → cost (got (record p { system = took p.system (pop_task ts) }) (pop_task ts).0) < cost p
  unfolding pop_task
  takes-cost p [] e h = rw e (omega arith)
  takes-cost p (t ∷ ts) e h = rw e (omega arith)

  -- While no task is put in, the threads come to an end: each step of theirs makes the bound
  -- smaller, which weighs the tasks that wait, the threads in front of the semaphore and behind it,
  -- and the tasks that run.
  pub Works-lowers : {p p' : Pool T} → Works num p p' → cost p' < cost p
  unfolding post_n
  Works-lowers {p} (task_posts before t after e) =
      omega (arith, length-split p.pushing before t after e)
  Works-lowers (passes k e) = omega arith
  Works-lowers {p} (takes k) = takes-cost p p.system.queue.tasks refl k
  Works-lowers {p} (finishes before t after e) =
      omega (arith, length-split p.running before t after e)

  can_pass :
      {p : Pool T} → 0 < p.waiting → 0 < p.system.queue.count → (p' : Pool T) × Works num p p'
  can_pass {p} w h = let (n, e) = wait_pos p.system.queue.count h in (_, passes w e)

  can_finish :
      {p : Pool T} (ts : List T) → p.running ≡ ts → 0 < length ts → (p' : Pool T) × Works num p p'
  can_finish [] e h = absurd (omega arith)
  can_finish (t ∷ ts) e h = (_, finishes [] t ts e)

  can_post :
      {p : Pool T} (ts : List T) → p.pushing ≡ ts → 0 < length ts → (p' : Pool T) × Works num p p'
  can_post [] e h = absurd (omega arith)
  can_post (t ∷ ts) e h = (_, task_posts [] t ts e)

  -- After shutdown no thread is left in front of the semaphore for ever: while one of them has not
  -- ended, one of them can go on, with no help from outside.
  pub Reach-goes_on :
      {p : Pool T} → Reach num p → p.shut ≡ true → p.exited < num → (p' : Pool T) × Works num p p'
  Reach-goes_on {p} r s l =
      let c = Reach-IsCounted num r in
      let v = Reach-tokens num r in
      elim (dec_lt 0 (length p.running)) [
        | yes h ↦ can_finish p.running refl h
        | no h ↦ elim (dec_lt 0 (length p.pushing)) [
          | yes k ↦ can_post p.pushing refl k
          | no k ↦ elim (dec_lt 0 p.system.taking) [
            | yes t ↦ (_, takes t)
            | no t ↦
                can_pass (omega (arith, c.threads))
                  (ground (arith, c.threads, c.posting, c.leaving, c.exits, c.alone, v.tokens))
          ]
        ]
      ]

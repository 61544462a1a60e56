-- ===== src/Thread/ThreadPool/Census.antt =====
-- Where the threads of the pool are, and what the queue below has counted of them.
use ffzkit.Base.{
  ℕ, ◌+◌, ◌<◌, ◌≡◌, refl, sym, ap, subst, Bool, true, false, List, [], ◌∷◌, ◌++◌, Option, some,
  none, length, length-append, if◌then◌else◌, arith,
}
use ffzkit.Thread.TaskQueue.{post_n, push_exit, pop_task}
use ffzkit.Thread.TaskQueue.Steps
use ffzkit.Thread.TaskQueue.Steps.{System, took}
use ffzkit.Thread.TaskQueue.Accounting.{IsBalanced, Reach-IsBalanced}
use ffzkit.Thread.ThreadPool.{shutdown}
use ffzkit.Thread.ThreadPool.Steps.{
  Pool, put, got, Works, task_posts, passes, takes, finishes, Step, works, submits, posts,
  task_submits, shuts, Reach, here, next,
}

pub length-split {ℓ} :
    {A : Type ℓ} (xs before : List A) (a : A) (after : List A)
    → xs ≡ before ++ a ∷ after
    → length xs ≡ length (before ++ after) + 1
length-split xs before a after e =
    let e' : length xs ≡ length (before ++ a ∷ after) = ap length e in
    omega (arith, e', length-append before (a ∷ after), length-append before after)

module _ {ℓ} {T : Type ℓ} where
  -- What the threads do with the queue is a run of the queue.
  put-Reach : (first : Bool) (t : T) (s : System T) → Steps.Reach s → Steps.Reach (put first t s)
  put-Reach true t s r = Steps.next r (Steps.pushes_first t)
  put-Reach false t s r = Steps.next r (Steps.pushes t)

  got_system : (p : Pool T) (o : Option T) → (got p o).system ≡ p.system
  got_system p none = refl
  got_system p (some t) = refl

  module _ (num : ℕ) where
    pub record IsCounted (p : Pool T) : Type 0 where
      pub threads :
          num ≡ p.waiting + p.system.taking + length p.running + length p.pushing + p.exited
      pub posting : p.system.posting ≡ p.outside + length p.pushing
      pub leaving : p.system.refused ≡ p.exited
      pub exits : p.system.exits ≡ (if p.shut then num else 0)
      pub alone : p.shut ≡ true → p.outside ≡ 0

    put-IsCounted :
        (first : Bool) (t : T) (p : Pool T)
        → p.shut ≡ false
        → IsCounted p
        → IsCounted (record p { system = put first t p.system; outside = p.outside + 1 })
    put-IsCounted true t p s c = ground (arith, c.threads, c.posting, c.leaving, c.exits)
    put-IsCounted false t p s c = ground (arith, c.threads, c.posting, c.leaving, c.exits)

    takes-IsCounted :
        (p : Pool T) (ts : List T)
        → 0 < p.system.taking
        → IsCounted p
        → IsCounted (got (record p { system = took p.system (pop_task ts) }) (pop_task ts).0)
    unfolding pop_task
    takes-IsCounted p [] h c = ground (arith, c.threads, c.posting, c.leaving, c.exits, c.alone)
    takes-IsCounted p (t ∷ ts) h c =
        ground (arith, c.threads, c.posting, c.leaving, c.exits, c.alone)

    Works-IsCounted : {p p' : Pool T} → Works num p p' → IsCounted p → IsCounted p'
    unfolding post_n
    Works-IsCounted {p} (task_posts before t after e) c = ground (
      arith,
      c.threads,
      c.posting,
      c.leaving,
      c.exits,
      c.alone,
      length-split p.pushing before t after e,
    )
    Works-IsCounted (passes h e) c =
        ground (arith, c.threads, c.posting, c.leaving, c.exits, c.alone)
    Works-IsCounted {p} (takes h) c = takes-IsCounted p p.system.queue.tasks h c
    Works-IsCounted {p} (finishes before t after e) c = ground (
      arith,
      c.threads,
      c.posting,
      c.leaving,
      c.exits,
      c.alone,
      length-split p.running before t after e,
    )

    task_puts-IsCounted :
        (first : Bool) (p : Pool T) (t new : T) (before after : List T)
        → p.running ≡ before ++ t ∷ after
        → IsCounted p
        → IsCounted (record p {
          system = put first new p.system;
          running = before ++ after;
          pushing = t ∷ p.pushing;
        })
    task_puts-IsCounted true p t new before after e c = ground (
      arith,
      c.threads,
      c.posting,
      c.leaving,
      c.exits,
      c.alone,
      length-split p.running before t after e,
    )
    task_puts-IsCounted false p t new before after e c = ground (
      arith,
      c.threads,
      c.posting,
      c.leaving,
      c.exits,
      c.alone,
      length-split p.running before t after e,
    )

    Step-IsCounted : {p p' : Pool T} → Step num p p' → IsCounted p → IsCounted p'
    unfolding post_n push_exit shutdown
    Step-IsCounted (works w) c = Works-IsCounted w c
    Step-IsCounted {p} (submits first t s) c = put-IsCounted first t p s c
    Step-IsCounted (posts h) c = ground (arith, c.threads, c.posting, c.leaving, c.exits, c.alone)
    Step-IsCounted {p} (task_submits first t new before after e) c =
        task_puts-IsCounted first p t new before after e c
    Step-IsCounted (shuts s o) c = ground (arith, c.threads, c.posting, c.leaving, c.exits)

    -- In every state of the pool each of its threads is at exactly one place, each `posting` of the
    -- queue is a thread's, every refusal of the queue has ended a thread, and exits are asked for
    -- by shutdown only, one for each thread.
    pub Reach-IsCounted : {p : Pool T} → Reach num p → IsCounted p
    Reach-IsCounted here = omega arith
    Reach-IsCounted (next r st) = Step-IsCounted st (Reach-IsCounted r)

    Works-system :
        {p p' : Pool T}
        → Works num p p'
        → Reach num p
        → Steps.Reach p.system
        → Steps.Reach p'.system
    Works-system {p} (task_posts before t after e) r s = Steps.next s (
        Steps.posts
          (omega (arith, (Reach-IsCounted r).posting, length-split p.pushing before t after e)))
    Works-system (passes h e) r s = Steps.next s (Steps.passes e)
    Works-system {p} (takes h) r s =
        subst Steps.Reach
          (sym (
            got_system (record p { system = took p.system (pop_task p.system.queue.tasks) })
              (pop_task p.system.queue.tasks).0))
          (Steps.next s (Steps.takes h))
    Works-system (finishes before t after e) r s = s

    Step-system :
        {p p' : Pool T} → Step num p p' → Reach num p → Steps.Reach p.system → Steps.Reach p'.system
    unfolding shutdown
    Step-system (works w) r s = Works-system w r s
    Step-system {p} (submits first t h) r s = put-Reach first t p.system s
    Step-system (posts h) r s =
        Steps.next s (Steps.posts (omega (arith, (Reach-IsCounted r).posting)))
    Step-system {p} (task_submits first t new before after e) r s = put-Reach first new p.system s
    Step-system (shuts h o) r s = Steps.next s (Steps.asks_exit num)

    pub Reach-system : {p : Pool T} → Reach num p → Steps.Reach p.system
    Reach-system here = Steps.here
    Reach-system (next r st) = Step-system st r (Reach-system r)

    pub Reach-tokens : {p : Pool T} → Reach num p → IsBalanced p.system
    Reach-tokens r = Reach-IsBalanced (Reach-system r)

-- ===== src/Thread/ThreadPool/Steps.antt =====
-- A pool of `num` threads at work. Each step is what one thread does under one lock; the steps that
-- touch the queue are those of Thread/TaskQueue/Steps, and the rest says where each thread is in
-- `run`. A task that throws a std::exception is finished like any other. The thread that puts a
-- task in is outside of the pool, or runs a task of it.
use ffzkit.Base.{
  ℕ, ◌+◌, ◌-◌, ◌<◌, ◌≡◌, Bool, true, false, List, [], ◌∷◌, ◌++◌, Option, none, some, if◌then◌else◌,
}
use ffzkit.Thread.TaskQueue.{emplace_back, emplace_front, post_n, wait, pop_task}
use ffzkit.Thread.TaskQueue.Steps.{System, took}
use ffzkit.Thread.TaskQueue.Steps
use ffzkit.Thread.ThreadPool.{shutdown}

pub record Pool {ℓ} (T : Type ℓ) : Type ℓ where
  pub system : System T
  -- Threads in front of the semaphore; those that have left `run`; the tasks that run, one in each
  -- thread; and those among them that are between the two halves of a push_task.
  pub waiting : ℕ
  pub exited : ℕ
  pub running : List T
  pub pushing : List T
  -- Threads outside of the pool between those halves.
  pub outside : ℕ
  pub shut : Bool
  -- The latest first.
  pub done : List T

module _ {ℓ} {T : Type ℓ} where
  -- A task goes in, at the end or at the front.
  abbrev pub put : Bool → T → System T → System T
  put first t s = record s {
    queue = if first then emplace_front s.queue t else emplace_back s.queue t;
    posting = s.posting + 1;
    pushed = if first then t ∷ s.pushed else s.pushed ++ t ∷ [];
  }

  abbrev pub posted : System T → System T
  posted s = record s { queue = post_n s.queue 1; posting = s.posting - 1 }

  -- The thread behind its get_task: it runs the task, or leaves.
  abbrev pub got : Pool T → Option T → Pool T
  got p none = record p { exited = p.exited + 1 }
  got p (some t) = record p { running = t ∷ p.running }

  module _ (num : ℕ) where
    abbrev pub fresh : Pool T
    fresh = record {
      system = Steps.start;
      waiting = num;
      exited = 0;
      running = [];
      pushing = [];
      outside = 0;
      shut = false;
      done = [];
    }

    -- What the threads of the pool do to end their work, with no task put in.
    pub data Works (p : Pool T) : Pool T → Type ℓ where
      task_posts :
          (before : List T) (t : T) (after : List T)
          → p.pushing ≡ before ++ t ∷ after
          → Works p (record p {
            system = posted p.system;
            pushing = before ++ after;
            running = t ∷ p.running;
          })
      passes :
          {count : ℕ}
          → 0 < p.waiting
          → wait p.system.queue.count ≡ some count
          → Works p (record p {
            system = record (p.system) {
              queue = record (p.system.queue) { count = count };
              taking = p.system.taking + 1;
            };
            waiting = p.waiting - 1;
          })
      takes :
          0 < p.system.taking
          → Works p (
              got
                (record p { system = took p.system (pop_task p.system.queue.tasks) })
                (pop_task p.system.queue.tasks).0)
      finishes :
          (before : List T) (t : T) (after : List T)
          → p.running ≡ before ++ t ∷ after
          → Works p
              (record p { running = before ++ after; waiting = p.waiting + 1; done = t ∷ p.done })

    pub data Step (p : Pool T) : Pool T → Type ℓ where
      works : {p' : Pool T} → Works p p' → Step p p'
      -- async and async_first, from outside and from a task; the destructor is not called while
      -- another thread is inside a call.
      submits :
          (first : Bool) (t : T)
          → p.shut ≡ false
          → Step p (record p { system = put first t p.system; outside = p.outside + 1 })
      posts :
          0 < p.outside → Step p (record p { system = posted p.system; outside = p.outside - 1 })
      task_submits :
          (first : Bool) (t new : T) (before after : List T)
          → p.running ≡ before ++ t ∷ after
          → Step p (record p {
            system = put first new p.system;
            running = before ++ after;
            pushing = t ∷ p.pushing;
          })
      shuts :
          p.shut ≡ false
          → p.outside ≡ 0
          → Step p (record p {
            system = record (p.system) {
              queue = shutdown num p.system.queue;
              exits = p.system.exits + num;
            };
            shut = true;
          })

    pub data Reach : Pool T → Type ℓ where
      here : Reach fresh
      next : {p p' : Pool T} → Reach p → Step p p' → Reach p'

-- ===== src/Thread/TaskQueue/Steps.antt =====
-- The queue shared by any number of threads. Each step is what one thread does under one lock: a
-- `push_task` is two steps and so is a `get_task`, and the steps of different threads may come
-- between.
use ffzkit.Base.{ℕ, ◌+◌, ◌-◌, ◌<◌, ◌≡◌, List, [], ◌∷◌, ◌++◌, Option, none, some}
use ffzkit.Thread.TaskQueue.{
  Queue, empty, emplace_back, emplace_front, post_n, push_exit, wait, pop_task,
}

pub record System {ℓ} (T : Type ℓ) : Type ℓ where
  pub queue : Queue T
  -- Threads that have put a task in, and have not posted yet.
  pub posting : ℕ
  -- Threads that have passed the semaphore, and have not looked at the queue yet.
  pub taking : ℕ
  -- What the calls have done: exits asked for, calls that returned false, tasks in, tasks out.
  pub exits : ℕ
  pub refused : ℕ
  pub pushed : List T
  pub taken : List T

module _ {ℓ} {T : Type ℓ} where
  abbrev pub start : System T
  start = record {
    queue = empty;
    posting = 0;
    taking = 0;
    exits = 0;
    refused = 0;
    pushed = [];
    taken = [];
  }

  -- The end of a `get_task`, by what it found.
  abbrev pub took : System T → Option T × List T → System T
  took s (none, ts) = record s {
    queue = record (s.queue) { tasks = ts };
    taking = s.taking - 1;
    refused = s.refused + 1;
  }
  took s (some t, ts) = record s {
    queue = record (s.queue) { tasks = ts };
    taking = s.taking - 1;
    taken = s.taken ++ t ∷ [];
  }

  pub data Step (s : System T) : System T → Type ℓ where
    pushes :
        (t : T)
        → Step s (record s {
          queue = emplace_back s.queue t;
          posting = s.posting + 1;
          pushed = s.pushed ++ t ∷ [];
        })
    pushes_first :
        (t : T)
        → Step s (record s {
          queue = emplace_front s.queue t;
          posting = s.posting + 1;
          pushed = t ∷ s.pushed;
        })
    posts : 0 < s.posting → Step s (record s { queue = post_n s.queue 1; posting = s.posting - 1 })
    asks_exit : (n : ℕ) → Step s (record s { queue = push_exit s.queue n; exits = s.exits + n })
    passes :
        {count : ℕ}
        → wait s.queue.count ≡ some count
        → Step s (record s { queue = record (s.queue) { count = count }; taking = s.taking + 1 })
    takes : 0 < s.taking → Step s (took s (pop_task s.queue.tasks))

  pub data Reach : System T → Type ℓ where
    here : Reach start
    next : {s s' : System T} → Reach s → Step s s' → Reach s'

-- ===== src/Thread/ThreadPool/Tests.antt =====
-- A pool of one thread that is given one task and is then shut down.
use mathlib.Core.List.{Perm}
use ffzkit.Base.{ℕ, ◌<◌, ◌≡◌, refl, true, false, [], ◌∷◌, arith}
use ffzkit.Base.Words.{sub64}
use ffzkit.Thread.TaskQueue
use ffzkit.Thread.ThreadPool.{thread_num, start_count, shutdown}
use ffzkit.Thread.ThreadPool.Steps.{
  Pool, fresh, Works, takes, passes, finishes, works, submits, posts, shuts, Reach, here, next,
}
use ffzkit.Thread.ThreadPool.Shutdown.{Reach_all_done, Works-lowers, Reach-goes_on}

abbrev idle : Pool ℕ
idle = fresh 1

abbrev put_in : Pool ℕ
put_in = record idle {
  system = record (idle.system) {
    queue = record { tasks = 7 ∷ []; count = 0 };
    posting = 1;
    pushed = 7 ∷ [];
  };
  outside = 1;
}

abbrev offered : Pool ℕ
offered = record put_in {
  system = record (put_in.system) { queue = record { tasks = 7 ∷ []; count = 1 }; posting = 0 };
  outside = 0;
}

abbrev shutting : Pool ℕ
shutting = record offered {
  system = record (offered.system) { queue = record { tasks = 7 ∷ []; count = 2 }; exits = 1 };
  shut = true;
}

abbrev passed : Pool ℕ
passed = record shutting {
  system = record (shutting.system) { queue = record { tasks = 7 ∷ []; count = 1 }; taking = 1 };
  waiting = 0;
}

abbrev busy : Pool ℕ
busy = record passed {
  system = record (passed.system) {
    queue = record { tasks = []; count = 1 };
    taking = 0;
    taken = 7 ∷ [];
  };
  running = 7 ∷ [];
}

abbrev back : Pool ℕ
back = record busy { running = []; waiting = 1; done = 7 ∷ [] }

abbrev leaving : Pool ℕ
leaving = record back {
  system = record (back.system) { queue = record { tasks = []; count = 0 }; taking = 1 };
  waiting = 0;
}

abbrev ended : Pool ℕ
ended = record leaving { system = record (leaving.system) { taking = 0; refused = 1 }; exited = 1 }

to_shutting : Reach 1 shutting
unfolding shutdown TaskQueue.post_n TaskQueue.push_exit TaskQueue.emplace_back TaskQueue.empty
to_shutting = next (next (next here (submits false 7 refl)) (posts (omega arith))) (shuts refl refl)

shutting-Works : Works 1 shutting passed
unfolding TaskQueue.wait
shutting-Works = passes (omega arith) refl

to_busy : Reach 1 busy
unfolding TaskQueue.wait TaskQueue.pop_task
to_busy = next (next to_shutting (works shutting-Works)) (works (takes (omega arith)))

to_ended : Reach 1 ended
unfolding TaskQueue.wait TaskQueue.pop_task
to_ended =
    next (next (next to_busy (works (finishes [] 7 [] refl))) (works (passes (omega arith) refl)))
      (works (takes (omega arith)))

Reach_all_done_example : Perm ended.system.pushed ended.done
Reach_all_done_example = Reach_all_done 1 (omega arith) to_ended refl

Works-lowers_example : 5 < 6
Works-lowers_example = Works-lowers 1 shutting-Works

Reach-goes_on_example : (p : Pool ℕ) × Works 1 shutting p
Reach-goes_on_example = Reach-goes_on 1 to_shutting refl (omega arith)

-- `ThreadPool(-2)`: `thread_num_ <= 0` does not stop it.
negative_count : start_count (thread_num true 2) 0 ≡ 18446744073709551614
unfolding start_count thread_num sub64
negative_count = refl

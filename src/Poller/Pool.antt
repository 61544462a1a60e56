-- ===== src/Poller/Pool.antt =====
-- EventPollerPool of src/Poller/EventPoller.h and EventPoller.cpp, with addPoller and
-- getExecutorDelay of src/Thread/TaskExecutor.cpp. What the constructor of a poller makes, for a
-- number in its name and a CPU, is a parameter.
mod Tests
pub mod Created
pub mod Delays
use ffzkit.Base.{
  ℕ, zero, suc, ◌+◌, ◌-◌, ◌%◌, Bool, ◌&&◌, List, [], ◌∷◌, ◌++◌, Option, none, some, ltb, ◌==◌,
  if◌then◌else◌, replicate, length,
}
use ffzkit.Thread.Executors.{Getter, get_executor}

module _ {ℓ} {E : Type ℓ} where
  -- The loop of addPoller from number `i` on, with the rounds left.
  pub poller_loop : (ℕ → ℕ → E) → ℕ → ℕ → ℕ → List (Option E) → List (Option E)
  poller_loop make cpus zero i threads = threads
  poller_loop make cpus (suc n) i threads =
      poller_loop make cpus n (i + 1) (threads ++ some (make i (i % cpus)) ∷ [])

  -- `cpus` is the answer of hardware_concurrency; `none` is the remainder by 0.
  pub add_poller : (ℕ → ℕ → E) → ℕ → ℕ → Getter E → Option (ℕ × Getter E)
  unfolding poller_loop
  add_poller make cpus size g =
      let count = if ltb 0 size then size else cpus in
      if ltb 0 count && cpus == 0
      then none
      else some (count, record g { threads = poller_loop make cpus count 0 g.threads })

  -- EventPollerPool, of the size that setPoolSize was given.
  pub create_pool : (ℕ → ℕ → E) → ℕ → ℕ → Option (ℕ × Getter E)
  unfolding add_poller
  create_pool make cpus pool_size =
      add_poller make cpus pool_size (record { thread_pos = 0; threads = [] })

  -- `front()`; `none` is an empty vector, for which the call is undefined.
  pub get_first_poller : Getter E → Option (Option E)
  get_first_poller g = elim (g.threads) [ [] ↦ none | x ∷ _ ↦ some x ]

  -- `current` is the poller that the calling thread runs, if it runs one.
  pub get_poller : (ℕ → E → ℕ) → Bool → Bool → Option E → Getter E → Option (Option E × Getter E)
  get_poller load prefer_current_thread flag none g = get_executor load g
  get_poller load prefer_current_thread flag (some poller) g =
      if prefer_current_thread && flag then some (some poller, g) else get_executor load g

-- getExecutorDelay: the vector that the tasks share, and how many hold on to it; the last one to let
-- go calls the callback. A delay is below 2 ^ 31 milliseconds, so that the int holds it.
pub record Measure : Type 0 where
  pub delays : List ℕ
  pub holders : ℕ
  -- What the callback was called with, the latest first.
  pub answered : List (List ℕ)

-- `(*delay_vec)[index] = …`
pub set : List ℕ → ℕ → ℕ → List ℕ
set [] i v = []
set (x ∷ xs) zero v = v ∷ xs
set (x ∷ xs) (suc i) v = x ∷ set xs i v

-- A holder lets go.
pub release : Measure → Measure
release m =
    if m.holders == 1
    then record m { holders = 0; answered = m.delays ∷ m.answered }
    else record m { holders = m.holders - 1 }

-- The call for `n` executors, of which the call itself is one holder until it returns.
pub measure : ℕ → Measure
unfolding release
measure n = release (record { delays = replicate n 0; holders = n + 1; answered = [] })

-- The task of an executor runs, `delay` milliseconds after it was posted, and is destroyed.
pub task_runs : ℕ → ℕ → Measure → Measure
unfolding set release
task_runs index delay m = release (record m { delays = set m.delays index delay })

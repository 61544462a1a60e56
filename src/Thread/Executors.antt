-- ===== src/Thread/Executors.antt =====
-- TaskExecutorGetterImp of src/Thread/TaskExecutor.h and TaskExecutor.cpp. An executor is a
-- value of `E`; `load k x` is what the k-th call of `load()` in one `getExecutor` answers for it.
mod Tests
pub mod LeastLoaded
use ffzkit.Base.{
  ℕ, zero, suc, ◌+◌, ◌%◌, ◌<◌, Bool, List, [], ◌∷◌, ◌++◌, map, Option, none, some, leb, ltb, ◌==◌,
  if◌then◌else◌, length,
}

-- `threads_` holds pointers; `none` is a null one.
pub record Getter {ℓ} (E : Type ℓ) : Type ℓ where
  pub thread_pos : ℕ
  pub threads : List (Option E)

-- `++thread_pos`, and back to 0 behind the last.
abbrev pub next_pos : ℕ → ℕ → ℕ
next_pos size pos = if leb size (pos + 1) then 0 else pos + 1

-- `thread_pos`, `executor_min_load` and `min_load` in the loop of `getExecutor`.
pub record Best {ℓ} (E : Type ℓ) : Type ℓ where
  pub pos : ℕ
  pub executor : E
  pub min_load : ℕ

module _ {ℓ} {E : Type ℓ} where
  -- `threads_[i]`, at a position that is in range.
  abbrev pub at : List (Option E) → ℕ → Option E
  at [] i = none
  at (x ∷ xs) zero = x
  at (x ∷ xs) (suc i) = at xs i

  -- A strictly smaller load replaces the best one.
  pub improve : ℕ → E → ℕ → Best E → Best E
  improve pos x load b =
      if ltb load b.min_load
      then record { pos = pos; executor = x; min_load = load }
      else record b { pos = pos }

  -- The position from which the search starts.
  abbrev pub start_pos : Getter E → ℕ
  start_pos g = if leb (length g.threads) g.thread_pos then 0 else g.thread_pos

  module _ (load : ℕ → E → ℕ) where
    -- The `for` loop, with the rounds left and the number of the round.
    pub visit : List (Option E) → ℕ → ℕ → Best E → Best E
    unfolding improve
    visit threads zero k b = b
    visit threads (suc n) k b =
        let pos = next_pos (length threads) b.pos in
        elim (at threads pos) [
          | none ↦ visit threads n (suc k) (record b { pos = pos })
          | some x ↦
              let b' = improve pos x (load k x) b in
              let rest = visit threads n (suc k) b' in if b'.min_load == 0 then b' else rest
        ]

    search_from : Getter E → ℕ → Option E → Option (Option E × Getter E)
    search_from g pos none = none
    search_from g pos (some x) =
        let b =
          visit g.threads (length g.threads) 1
            (record { pos = pos; executor = x; min_load = load 0 x }) in
        some (some b.executor, record g { thread_pos = b.pos })

    -- `none` is the call of `load()` through a null pointer; `some none` is the returned nullptr.
    pub get_executor : Getter E → Option (Option E × Getter E)
    unfolding visit search_from
    get_executor g =
        if length g.threads == 0
        then some (none, g)
        else search_from g (start_pos g) (at g.threads (start_pos g))

    load_of : Option E → ℕ
    load_of none = 0
    load_of (some x) = load 0 x

    pub get_executor_load : Getter E → List ℕ
    unfolding load_of
    get_executor_load g = map load_of g.threads

  present : List (Option E) → List E
  present [] = []
  present (none ∷ xs) = present xs
  present (some x ∷ xs) = x ∷ present xs

  -- The executors that the callback is called with, in order.
  pub for_each : Getter E → List E
  unfolding present
  for_each g = present g.threads

  abbrev pub get_executor_size : Getter E → ℕ
  get_executor_size g = length g.threads

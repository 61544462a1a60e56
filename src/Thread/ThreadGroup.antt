-- ===== src/Thread/ThreadGroup.antt =====
-- ThreadGroup of src/Thread/ThreadGroup.h. Identifiers of threads are numbers; the identifier of a
-- std::thread that runs no thread is `none`.
mod Tests
pub mod Members
use ffzkit.Base.{
  ℕ, Bool, true, false, not, ◌||◌, List, [], ◌∷◌, Option, none, some, ◌==◌, if◌then◌else◌, length,
  lookup, is_some, erase,
}

-- `V` is a std::thread.
pub record Group {ℓ} (V : Type ℓ) : Type ℓ where
  pub thread_id : Option ℕ
  pub threads : List (ℕ × V)

abbrev pub same_id : Option ℕ → ℕ → Bool
same_id none cur = false
same_id (some id) cur = id == cur

module _ {ℓ} {V : Type ℓ} where
  abbrev pub no_threads : Group V
  no_threads = record { thread_id = none; threads = [] }

  unfoldable pub is_this_thread_in : ℕ → Group V → Bool
  unfolding lookup is_some
  is_this_thread_in cur g = same_id g.thread_id cur || is_some (lookup cur g.threads)

  -- The pointer is null, or points to a thread with this identifier.
  pub is_thread_in : Option (Option ℕ) → Group V → Bool
  unfolding lookup is_some
  is_thread_in none g = false
  is_thread_in (some none) g = false
  is_thread_in (some (some id)) g = is_some (lookup id g.threads)

  -- `threads_[id] = thrd`.
  unfoldable pub assign : ℕ → V → List (ℕ × V) → List (ℕ × V)
  unfolding erase
  assign id v m = (id, v) ∷ erase id m

  -- create_thread, when the new thread has the identifier `id`.
  unfoldable pub create_thread : ℕ → V → Group V → Group V
  unfolding assign
  create_thread id v g = record { thread_id = some id; threads = assign id v g.threads }

  pub remove_thread : Option (Option ℕ) → Group V → Group V
  unfolding erase
  remove_thread none g = g
  remove_thread (some none) g = g
  remove_thread (some (some id)) g = record g { threads = erase id g.threads }

  -- The threads that `join` is called on, and the group behind it; `none` is the exception.
  pub join_list : (V → Bool) → List (ℕ × V) → List ℕ
  join_list joinable [] = []
  join_list joinable ((id, v) ∷ m) =
      let rest = join_list joinable m in if joinable v then id ∷ rest else rest

  pub join_all : (V → Bool) → ℕ → Group V → Option (List ℕ × Group V)
  unfolding is_this_thread_in join_list
  join_all joinable cur g =
      if is_this_thread_in cur g
      then none
      else some (join_list joinable g.threads, record g { threads = [] })

  abbrev pub size : Group V → ℕ
  size g = length g.threads

-- ===== src/Thread/TaskQueue/Accounting.antt =====
-- Tokens of the semaphore against tasks and exits.
use native.Mathlib.Decide.{dec_lt}
use ffzkit.Base.{
  ℕ, zero, suc, ◌+◌, ◌≤◌, ◌<◌, ◌≡◌, refl, ◌⊎◌, inl, inr, ◌≢◌, List, [], ◌∷◌, some, length,
  length-append, arith,
}
use ffzkit.Thread.TaskQueue.Steps.{
  System, took, Step, pushes, pushes_first, posts, asks_exit, passes, takes, Reach, here, next,
}
use ffzkit.Thread.TaskQueue.{empty, emplace_back, emplace_front, post_n, push_exit, wait, pop_task}

pub wait_lem : (n : ℕ) {m : ℕ} → wait n ≡ some m → n ≡ suc m
unfolding wait
wait_lem zero e = cc
wait_lem (suc n) e = ground arith

pub wait_pos : (n : ℕ) → 0 < n → (m : ℕ) × (wait n ≡ some m)
unfolding wait
wait_pos zero h = elim h [ ]
wait_pos (suc n) h = (n, refl)

length-pos {ℓ} : {A : Type ℓ} (xs : List A) → xs ≢ [] → 0 < length xs
length-pos [] ne = absurd (ne refl)
length-pos (x ∷ xs) ne = omega arith

module _ {ℓ} {T : Type ℓ} where
  -- Every token is for a task in the queue or for an exit that was asked for.
  pub record IsBalanced (s : System T) : Type 0 where
    pub tokens : s.queue.count + s.taking + s.posting + s.refused ≡ length s.queue.tasks + s.exits
    pub granted : s.refused ≤ s.exits

  took-IsBalanced :
      (s : System T) (ts : List T)
      → s.queue.tasks ≡ ts
      → 0 < s.taking
      → IsBalanced s
      → IsBalanced (took s (pop_task ts))
  unfolding pop_task
  took-IsBalanced s [] e h v = ground (arith, v.tokens, v.granted)
  took-IsBalanced s (t ∷ ts) e h v = ground (arith, v.tokens, v.granted)

  Step-IsBalanced : {s s' : System T} → Step s s' → IsBalanced s → IsBalanced s'
  unfolding emplace_back emplace_front post_n push_exit
  Step-IsBalanced {s} (pushes t) v =
      ground (arith, v.tokens, v.granted, length-append s.queue.tasks (t ∷ []))
  Step-IsBalanced (pushes_first t) v = omega (arith, v.tokens, v.granted)
  Step-IsBalanced (posts h) v = omega (arith, v.tokens, v.granted)
  Step-IsBalanced (asks_exit n) v = omega (arith, v.tokens, v.granted)
  Step-IsBalanced {s} (passes e) v = omega (arith, v.tokens, v.granted, wait_lem s.queue.count e)
  Step-IsBalanced {s} (takes h) v = took-IsBalanced s s.queue.tasks refl h v

  -- In every state that threads can reach, the tokens of the semaphore, those about to be posted
  -- and those being used add up to the tasks that wait and the exits that nobody has taken yet;
  -- and `get_task` has returned false at most as often as an exit was asked for.
  pub Reach-IsBalanced : {s : System T} → Reach s → IsBalanced s
  unfolding empty
  Reach-IsBalanced here = omega arith
  Reach-IsBalanced (next r st) = Step-IsBalanced st (Reach-IsBalanced r)

  -- No wakeup is lost: while a task waits, a thread can pass the semaphore, or one has passed it
  -- and is on its way to the queue, or one is about to post.
  pub Reach-no_lost_wakeup :
      {s : System T}
      → Reach s
      → s.queue.tasks ≢ []
      → ((n : ℕ) × (wait s.queue.count ≡ some n)) ⊎ (0 < s.taking) ⊎ (0 < s.posting)
  Reach-no_lost_wakeup {s} r ne = elim (dec_lt 0 s.queue.count) [
    | yes h ↦ inl (wait_pos s.queue.count h)
    | no h ↦ elim (dec_lt 0 s.taking) [
      | yes k ↦ inr (inl k)
      | no k ↦
          let v = Reach-IsBalanced r in
          inr (inr (omega (arith, v.tokens, v.granted, length-pos s.queue.tasks ne)))
    ]
  ]

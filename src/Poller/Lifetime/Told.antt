-- ===== src/Poller/Lifetime/Told.antt =====
-- The loop of an EventPoller that is destroyed has been told to exit, or a task in its lists will tell it.
use ffzkit.Base.{
  ℕ, ◌≡◌, refl, sym, ap, ◌∙◌, subst, ◌⊎◌, inl, inr, Bool, true, false, ◌||◌, List, [], ◌∷◌, ◌++◌,
  arith,
}
use ffzkit.Poller.Async.{enqueue, async_I, Ending, exited}
use ffzkit.Poller.Async.Steps.{
  swapping, running, System, Reach, Step, submits, writes, write_fails, reported, reads, drained,
  reopens, reopen_fails, swaps, runs, finishes,
}
use ffzkit.Poller.Async.Order.{SwapInv, Reach-SwapInv, exits, any_exits, run_task-exit}
use ffzkit.Poller.Lifetime.{
  Stage, alive, Life, works, leaves, shuts, joins, flushes, dies, Lived, here, next,
}
use ffzkit.Poller.Lifetime.Finished.{IsOver, not_over, Lived-IsRunning}

module _ {ℓ} {T : Type ℓ} (ending : T → Ending) (capacity : ℕ) (quit : T) where
  any_exits-append :
      (l : List T) (t : T)
      → any_exits ending (l ++ t ∷ []) ≡ (exits (ending t) || any_exits ending l)
  any_exits-append [] t = ground arith
  any_exits-append (x ∷ l) t = ground (arith, any_exits-append l t)

  any_exits-enqueue :
      (first : Bool) (t : T) (l : List T)
      → any_exits ending (enqueue first t l) ≡ (exits (ending t) || any_exits ending l)
  unfolding enqueue
  any_exits-enqueue true t l = refl
  any_exits-enqueue false t l = any_exits-append l t

  -- The loop has been told to exit, or will be by a task.
  abbrev pub WillExit : System T → Type 0
  WillExit s =
      (s.loop.exit_flag || (any_exits ending s.list_swap || any_exits ending s.list_task)) ≡ true

  or_right : (a b c d : Bool) → (a || (b || c)) ≡ true → (a || (b || (d || c))) ≡ true
  or_right a b c d h = ground arith

  or_swap : (a b c : Bool) → b ≡ false → (a || (b || c)) ≡ true → (a || (c || false)) ≡ true
  or_swap a b c e h = ground arith

  or_run : (a b c d : Bool) → (a || ((b || c) || d)) ≡ true → ((a || b) || (c || d)) ≡ true
  or_run a b c d h = ground arith

  swapped_none :
      (s : System T)
      → s.phase ≡ swapping
      → SwapInv ending capacity s
      → any_exits ending s.list_swap ≡ false
  swapped_none s e (inl r) = absurd (let bad : swapping ≡ running = sym e ∙ r in cc)
  swapped_none s e (inr q) = ap (any_exits ending) q

  Step-WillExit :
      {s u : System T}
      → Step ending capacity s u
      → SwapInv ending capacity s
      → WillExit s
      → WillExit u
  unfolding async_I
  Step-WillExit {s} (submits first t) v h = rw (any_exits-enqueue first t s.list_task) (
      or_right s.loop.exit_flag (any_exits ending s.list_swap) (any_exits ending s.list_task)
        (exits (ending t)) h)
  Step-WillExit (writes a b) v h = h
  Step-WillExit (write_fails a b) v h = h
  Step-WillExit (reported e w g) v h = h
  Step-WillExit (reads n e a k) v h = h
  Step-WillExit (drained e p) v h = h
  Step-WillExit (reopens e) v h = h
  Step-WillExit (reopen_fails e) v h = h
  Step-WillExit {s} (swaps e) v h =
      or_swap s.loop.exit_flag (any_exits ending s.list_swap) (any_exits ending s.list_task)
        (swapped_none s e v) h
  Step-WillExit {s} (runs t ts e l) v h =
      let h' : (s.loop.exit_flag
            || ((exits (ending t) || any_exits ending ts) || any_exits ending s.list_task))
          ≡ true =
        subst
          (λ x. (s.loop.exit_flag || (any_exits ending x || any_exits ending s.list_task)) ≡ true) l
          h in
      subst (λ x. (x || (any_exits ending ts || any_exits ending s.list_task)) ≡ true)
        (sym (run_task-exit ending s.loop t))
        (or_run s.loop.exit_flag (exits (ending t)) (any_exits ending ts)
          (any_exits ending s.list_task) h')
  Step-WillExit (finishes e l) v h = h

  or_told : (a b c d : Bool) → d ≡ true → (a || (b || (d || c))) ≡ true
  or_told a b c d h = ground arith

  -- Before the destructor begins, and behind its last flush, nothing is said.
  abbrev pub IsToldTo : Life T → Type 0
  IsToldTo s = (s.stage ≡ alive) ⊎ IsOver ending capacity quit s.stage ⊎ WillExit s.system

  told_works :
      {s u : System T} {st : Stage}
      → Step ending capacity s u
      → IsOver ending capacity quit st ⊎ Reach ending capacity s
      → (st ≡ alive) ⊎ IsOver ending capacity quit st ⊎ WillExit s
      → (st ≡ alive) ⊎ IsOver ending capacity quit st ⊎ WillExit u
  told_works step r (inl a) = inl a
  told_works step r (inr (inl a)) = inr (inl a)
  told_works {st = st} step (inl e) (inr (inr h)) = inr (inl e)
  told_works step (inr r) (inr (inr h)) =
      inr (inr (Step-WillExit step (Reach-SwapInv ending capacity r) h))

  pub Lived-IsToldTo :
      {started : Bool} {s : Life T}
      → ending quit ≡ exited
      → Lived ending capacity quit started s
      → IsToldTo s
  unfolding async_I enqueue
  Lived-IsToldTo q here = inl refl
  Lived-IsToldTo q (next l (works st f g)) =
      told_works st (Lived-IsRunning ending capacity quit l) (Lived-IsToldTo q l)
  Lived-IsToldTo q (next l (leaves e p x)) = Lived-IsToldTo q l
  Lived-IsToldTo q (next {s} l (shuts e)) = inr (
      inr (
        or_told s.system.loop.exit_flag (any_exits ending s.system.list_swap)
          (any_exits ending s.system.list_task) (exits (ending quit)) (ap exits q)))
  Lived-IsToldTo q (next l (joins e d)) = elim (Lived-IsToldTo q l) [
    | inl a ↦ absurd (cc)
    | inr (inl a) ↦ not_over ending capacity quit a (inr (inl e))
    | inr (inr h) ↦ inr (inr h)
  ]
  Lived-IsToldTo q (next l (flushes e)) = inr (inl (inl refl))
  Lived-IsToldTo q (next l (dies e d)) = inr (inl (inr refl))

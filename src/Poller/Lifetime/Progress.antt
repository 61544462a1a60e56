-- ===== src/Poller/Lifetime/Progress.antt =====
-- The join of an EventPoller that is destroyed does not hang.
use ffzkit.Base.{
  ℕ, ◌<◌, ◌≡◌, ◌≢◌, refl, sym, ap, ◌∙◌, ◌⊎◌, inl, inr, Bool, true, false, ◌||◌, List, [], ◌∷◌,
  Bool-cases, arith,
}
use native.Mathlib.Decide.{dec_lt}
use ffzkit.Poller.Async.{Ending, exited}
use ffzkit.Poller.Async.Steps.{
  Phase, polling, draining, swapping, running, Reach, submits, writes, write_fails, reported, reads,
  drained, reopen_fails, swaps, runs, finishes,
}
use ffzkit.Poller.Async.Wakeup.{Reach-no_stranded_task}
use ffzkit.Poller.Async.Order.{Reach-SwapInv, any_exits}
use ffzkit.Poller.Lifetime.{
  Stage, alive, joining, Life, is_gone, Lives, works, leaves, joins, Lived,
}
use ffzkit.Poller.Lifetime.Finished.{IsOver, not_over, Lived-IsRunning}
use ffzkit.Poller.Lifetime.Told.{WillExit, Lived-IsToldTo}

module _ {ℓ} {T : Type ℓ} (ending : T → Ending) (capacity : ℕ) (quit : T) where
  -- A step of the loop, of a thread that has handed a task over, or of the destructor: no new task, and
  -- no failure to open the pipe again.
  unfoldable pub is_own : {s s' : Life T} → Lives ending capacity quit s s' → Bool
  is_own (works (submits first t) f g) = false
  is_own (works (reopen_fails e) f g) = false
  is_own st = true

  abbrev CanStep : Life T → Type ℓ
  CanStep s = (s' : Life T) × (st : Lives ending capacity quit s s') × (is_own st ≡ true)

  list-cases : (l : List T) → (l ≡ []) ⊎ (t : T) × (ts : List T) × (l ≡ t ∷ ts)
  list-cases [] = inl refl
  list-cases (t ∷ ts) = inr (t, ts, refl)

  draining_goes_on :
      (s : Life T)
      → s.ended ≡ false
      → is_gone s.stage ≡ false
      → s.system.phase ≡ draining
      → CanStep s
  unfolding is_own
  draining_goes_on s e g p = elim (dec_lt 0 s.system.pipe) [
    | yes h ↦ (_, works (reads s.system.pipe p h (omega arith)) e g, refl)
    | no n ↦ (_, works (drained p (omega arith)) e g, refl)
  ]

  running_goes_on :
      (s : Life T)
      → s.ended ≡ false
      → is_gone s.stage ≡ false
      → s.system.phase ≡ running
      → CanStep s
  unfolding is_own
  running_goes_on s e g p = elim (list-cases s.system.list_swap) [
    | inl n ↦ (_, works (finishes p n) e g, refl)
    | inr (t, ts, l) ↦ (_, works (runs t ts p l) (inl e) g, refl)
  ]

  write_goes_on : (s : Life T) → is_gone s.stage ≡ false → 0 < s.system.writing → CanStep s
  unfolding is_own
  write_goes_on s g w = elim (dec_lt s.system.pipe capacity) [
    | yes h ↦ (_, works (writes w h) g g, refl)
    | no n ↦ (_, works (write_fails w (inl (omega arith))) g g, refl)
  ]

  told_pending :
      (f : Bool) (swap list : List T)
      → f ≡ false
      → swap ≡ []
      → (f || (any_exits ending swap || any_exits ending list)) ≡ true
      → list ≢ []
  told_pending f swap list e n h l =
      ground (arith, ap (any_exits ending) n, ap (any_exits ending) l, h)

  polls-swap :
      (s : Life T)
      → Reach ending capacity s.system
      → s.system.phase ≡ polling
      → s.system.list_swap ≡ []
  polls-swap s r p = elim (Reach-SwapInv ending capacity r) [
    | inl run ↦ absurd (let bad : polling ≡ running = sym p ∙ run in cc)
    | inr e ↦ e
  ]

  phase-cases : (p : Phase) → (p ≡ polling) ⊎ (p ≡ draining) ⊎ (p ≡ swapping) ⊎ (p ≡ running)
  phase-cases polling = inl refl
  phase-cases draining = inr (inl refl)
  phase-cases swapping = inr (inr (inl refl))
  phase-cases running = inr (inr (inr refl))

  joining-told :
      {st : Stage} {P : Type 0}
      → st ≡ joining
      → (st ≡ alive) ⊎ IsOver ending capacity quit st ⊎ P
      → P
  joining-told j (inl a) = absurd (let bad : joining ≡ alive = sym j ∙ a in cc)
  joining-told j (inr (inl a)) = not_over ending capacity quit a (inr (inl j))
  joining-told j (inr (inr h)) = h

  pub joining-Reach :
      {st : Stage} {P : Type ℓ} → st ≡ joining → IsOver ending capacity quit st ⊎ P → P
  joining-Reach j (inl a) = not_over ending capacity quit a (inr (inl j))
  joining-Reach j (inr h) = h

  polling_goes_on :
      (s : Life T)
      → 0 < capacity
      → Reach ending capacity s.system
      → WillExit ending capacity quit s.system
      → s.ended ≡ false
      → is_gone s.stage ≡ false
      → s.system.broken ≡ false
      → s.system.phase ≡ polling
      → CanStep s
  unfolding is_own
  polling_goes_on s room r h e g whole p = elim (Bool-cases s.system.loop.exit_flag) [
    | inl x ↦ (_, leaves e p x, refl)
    | inr x ↦
        let none_left : s.system.list_swap ≡ [] = polls-swap s r p in
        let waits =
          told_pending s.system.loop.exit_flag s.system.list_swap s.system.list_task x none_left
            h in
        elim (Reach-no_stranded_task ending capacity room r).1 [
          | inl n ↦ absurd (waits n)
          | inr (inl b) ↦ absurd (let bad : false ≡ true = sym whole ∙ b in cc)
          | inr (inr (inl w)) ↦ write_goes_on s g w
          | inr (inr (inr (inl (b, d)))) ↦ (_, works (reported p whole (inl d)) (e, x) g, refl)
          | inr (inr (inr (inr (inl d)))) ↦ absurd (let bad : polling ≡ draining = sym p ∙ d in cc)
          | inr (inr (inr (inr (inr d)))) ↦ absurd (let bad : polling ≡ swapping = sym p ∙ d in cc)
        ]
  ]

  -- While the destructor waits in `join`, and shutdown's task ends the loop as it is meant to, the wait
  -- is over or some step is possible that is not the handover of a new task: a write to the pipe, a step
  -- of the loop, or its exit. So the byte that is written behind the task wakes a loop that sleeps, and
  -- no order of the threads leaves the join with a loop that nothing moves. The pipe has room for
  -- a byte, and no attempt to open it again has failed.
  pub Lived-join_goes_on :
      {s : Life T} {started : Bool}
      → 0 < capacity
      → ending quit ≡ exited
      → Lived ending capacity quit started s
      → s.stage ≡ joining
      → s.system.broken ≡ false
      → (s' : Life T) × (st : Lives ending capacity quit s s') × (is_own st ≡ true)
  unfolding is_own is_gone
  Lived-join_goes_on {s} room q l j whole =
      let g : is_gone s.stage ≡ false = ap is_gone j in
      let told : WillExit ending capacity quit s.system =
        joining-told j (Lived-IsToldTo ending capacity quit q l) in
      let reached : Reach ending capacity s.system =
        joining-Reach j (Lived-IsRunning ending capacity quit l) in
      elim (Bool-cases s.ended) [
        | inl d ↦ (_, joins j d, refl)
        | inr e ↦ elim (phase-cases s.system.phase) [
          | inl p ↦ polling_goes_on s room reached told e g whole p
          | inr (inl p) ↦ draining_goes_on s e g p
          | inr (inr (inl p)) ↦ (_, works (swaps p) e g, refl)
          | inr (inr (inr p)) ↦ running_goes_on s e g p
        ]
      ]

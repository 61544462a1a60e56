-- ===== src/Poller/Lifetime/Returns.antt =====
-- The join of an EventPoller that is destroyed returns.
use ffzkit.Base.{
  ℕ, zero, suc, ◌+◌, ◌*◌, ◌<◌, ◌≡◌, refl, sym, ap, ◌∙◌, ◌⊎◌, inl, inr, Bool, true, false, length,
  arith, if◌then◌else◌,
}
use ffzkit.Poller.Async.{Ending, exited}
use ffzkit.Poller.Async.Steps.{
  Phase, polling, draining, swapping, running, System, Reach, submits, writes, write_fails,
  reported, reads, drained, reopens, reopen_fails, swaps, runs, finishes,
}
use ffzkit.Poller.Async.Wakeup.{Reach-unread}
use ffzkit.Poller.Lifetime.{
  joining, joined, Life, Lives, works, leaves, shuts, joins, flushes, dies, Lived, next,
}
use ffzkit.Poller.Lifetime.Finished.{Lived-IsRunning}
use ffzkit.Poller.Lifetime.Progress.{is_own, joining-Reach, Lived-join_goes_on}

abbrev rank : Phase → ℕ
rank polling = 0
rank draining = 4
rank swapping = 3
rank running = 2

-- A write may cost the loop a whole round.
abbrev left {ℓ} : {T : Type ℓ} → System T → ℕ
left s =
    8 * s.writing
    + s.pipe
    + (if s.edge then 5 else 0)
    + rank s.phase
    + (length s.list_task + length s.list_swap)

abbrev remaining {ℓ} : {T : Type ℓ} → Life T → ℕ
remaining s = left s.system + (if s.ended then 0 else 1)

module _ {ℓ} {T : Type ℓ} (ending : T → Ending) (capacity : ℕ) (quit : T) where
  -- However the threads take turns, when no new task is handed over and the pipe can be opened again: the destructor is behind `join`,
  -- or some step is possible, and after every possible one the same holds again.
  pub data Returns : Life T → Type ℓ where
    returned : {s : Life T} → s.stage ≡ joined → Returns s
    waits :
        {s : Life T}
        → (s' : Life T) × (st : Lives ending capacity quit s s') × (is_own ending capacity quit st
            ≡ true)
        → ((s' : Life T) (st : Lives ending capacity quit s s')
            → is_own ending capacity quit st ≡ true
            → Returns s')
        → Returns s

module _ {ℓ} {T : Type ℓ} (ending : T → Ending) (capacity : ℕ) (quit : T)
    (room : 0 < capacity) where
  -- The poller reports an edge: a pipe that is not empty has one when the loop is not in it.
  polls-edge :
      {s : System T}
      → Reach ending capacity s
      → s.phase ≡ polling
      → (s.edge ≡ true) ⊎ (0 < s.pipe)
      → s.edge ≡ true
  polls-edge {s} r e (inl d) = d
  polls-edge {s} r e (inr p) = elim (Reach-unread ending capacity room r) [
    | inl n ↦ absurd (omega (arith, n, p))
    | inr (inl d) ↦ d
    | inr (inr d) ↦ absurd (let bad : polling ≡ draining = sym e ∙ d in cc)
  ]

  -- Every step that hands nothing over uses something up.
  own_remaining :
      {s s' : Life T} (st : Lives ending capacity quit s s')
      → Reach ending capacity s.system
      → s.stage ≡ joining
      → is_own ending capacity quit st ≡ true
      → (s'.stage ≡ joined)
        ⊎ (s'.stage ≡ joining) × (s'.system.broken ≡ s.system.broken) × (remaining s' < remaining s)
  unfolding is_own
  own_remaining (works (submits first t) f g) r j o = absurd (cc)
  own_remaining {s} (works (writes h k) f g) r j o = inr (j, refl, ground arith)
  own_remaining (works (write_fails h k) f g) r j o = inr (j, refl, ground arith)
  own_remaining {s} (works (reported e w p) f g) r j o =
      inr (j, refl, ground (arith, polls-edge r e p, ap rank e))
  own_remaining (works (reads n e h k) f g) r j o = inr (j, refl, ground arith)
  own_remaining (works (drained e p) f g) r j o = inr (j, refl, ground (arith, ap rank e))
  own_remaining (works (reopens e) f g) r j o = inr (j, refl, ground (arith, ap rank e))
  own_remaining (works (reopen_fails e) f g) r j o = absurd (cc)
  own_remaining (works (swaps e) f g) r j o = inr (j, refl, ground (arith, ap rank e))
  own_remaining (works (runs t ts e l) f g) r j o = inr (j, refl, ground (arith, ap length l))
  own_remaining (works (finishes e l) f g) r j o = inr (j, refl, ground (arith, ap rank e))
  own_remaining (leaves e p x) r j o = inr (j, refl, ground arith)
  own_remaining (shuts e) r j o = absurd (cc)
  own_remaining (joins e d) r j o = inl refl
  own_remaining (flushes e) r j o = absurd (cc)
  own_remaining (dies e d) r j o = absurd (cc)

  Returns-within :
      (n : ℕ) {started : Bool} {s : Life T}
      → ending quit ≡ exited
      → Lived ending capacity quit started s
      → s.stage ≡ joining
      → s.system.broken ≡ false
      → remaining s < n
      → Returns ending capacity quit s
  Returns-within zero q l j w h = absurd (omega (arith, h))
  Returns-within (suc n) {s = s} q l j w h =
      waits (Lived-join_goes_on ending capacity quit room q l j w) (λ s' st o.
        elim (own_remaining st
          (joining-Reach ending capacity quit j (Lived-IsRunning ending capacity quit l)) j o) [
            | inl d ↦ returned d
            | inr (j', b, h') ↦ Returns-within n q (next l st) j' (b ∙ w) (omega arith)
          ])

  -- When shutdown waits in `join` for the thread of the loop and its task ends the loop as it is meant to,
  -- the join returns, in whatever order the loop and the threads that still have a byte to write
  -- take their steps, as long as nobody hands a new task over and no attempt to open the pipe again
  -- has failed or fails: the byte that goes with the task wakes the loop, the loop runs the list and
  -- leaves, and until then some step is always possible. The pipe has room for a byte.
  pub Lived-Returns :
      {started : Bool} {s : Life T}
      → ending quit ≡ exited
      → Lived ending capacity quit started s
      → s.stage ≡ joining
      → s.system.broken ≡ false
      → Returns ending capacity quit s
  Lived-Returns {s = s} q l j w = Returns-within (suc (remaining s)) q l j w (omega arith)

-- ===== src/Poller/Lifetime/Finished.antt =====
-- What a destroyed EventPoller has run.
use mathlib.Core.List.{Perm, append-nil, append_assoc}
use mathlib.Core.List.Perm
use ffzkit.Base.{ℕ, ◌≡◌, refl, sym, ap, ◌∙◌, subst, ◌⊎◌, inl, inr, Bool, true, false, [], ◌∷◌, ◌++◌}
use ffzkit.Poller.Async.{async_I, Ending}
use ffzkit.Poller.Async.Steps.{
  polling, running, System, Reach, Step, submits, writes, write_fails, reported, reads, drained,
  reopens, reopen_fails, swaps, runs, finishes,
}
use ffzkit.Poller.Async.Order.{line, SwapInv, Step-SwapInv, Step-perm, run_task-done}
use ffzkit.Poller.Lifetime.{
  Stage, alive, joining, joined, flushing, gone, Life, is_gone, IsFree, Lives, works, leaves, shuts,
  joins, flushes, dies, Lived, here, next,
}

module _ {ℓ} {T : Type ℓ} (ending : T → Ending) (capacity : ℕ) (quit : T) where
  -- The last flush has begun.
  abbrev pub IsOver : Stage → Type 0
  IsOver st = (st ≡ flushing) ⊎ (st ≡ gone)

  -- Until the last flush the poller does what Poller/Async says.
  abbrev pub IsRunning : Life T → Type ℓ
  IsRunning s = IsOver s.stage ⊎ Reach ending capacity s.system

  abbrev HasLeft : Life T → Type 0
  HasLeft s = (s.ended ≡ false) ⊎ (s.system.phase ≡ polling) ⊎ IsOver s.stage

  abbrev WasJoined : Life T → Type 0
  WasJoined s = (s.stage ≡ alive) ⊎ (s.stage ≡ joining) ⊎ (s.ended ≡ true)

  pub not_over {κ} :
      {st : Stage} {P : Type κ} → IsOver st → (st ≡ alive) ⊎ (st ≡ joining) ⊎ (st ≡ joined) → P
  not_over (inl a) (inl b) = absurd (cc)
  not_over (inl a) (inr (inl b)) = absurd (cc)
  not_over (inl a) (inr (inr b)) = absurd (cc)
  not_over (inr a) (inl b) = absurd (cc)
  not_over (inr a) (inr (inl b)) = absurd (cc)
  not_over (inr a) (inr (inr b)) = absurd (cc)

  Lives-IsRunning : {s s' : Life T} → Lives ending capacity quit s s' → IsRunning s → IsRunning s'
  unfolding async_I
  Lives-IsRunning (works st f g) (inl e) = inl e
  Lives-IsRunning (works st f g) (inr r) = inr (Reach.next r st)
  Lives-IsRunning (leaves e p q) k = k
  Lives-IsRunning (shuts e) (inl g) = not_over g (inl e)
  Lives-IsRunning (shuts e) (inr r) = inr (Reach.next r (submits true quit))
  Lives-IsRunning (joins e d) (inl g) = not_over g (inr (inl e))
  Lives-IsRunning (joins e d) (inr r) = inr r
  Lives-IsRunning (flushes e) k = inl (inl refl)
  Lives-IsRunning (dies e l) k = inl (inr refl)

  pub Lived-IsRunning :
      {started : Bool} {s : Life T} → Lived ending capacity quit started s → IsRunning s
  Lived-IsRunning here = inr Reach.here
  Lived-IsRunning (next l st) = Lives-IsRunning st (Lived-IsRunning l)

  works-HasLeft :
      (s : Life T) {u : System T} (st : Step ending capacity s.system u)
      → IsFree ending capacity quit s st
      → HasLeft s
      → (s.ended ≡ false) ⊎ (u.phase ≡ polling) ⊎ IsOver s.stage
  works-HasLeft s (submits first t) f h = h
  works-HasLeft s (writes a b) f h = h
  works-HasLeft s (write_fails a b) f h = h
  works-HasLeft s (reported e w g) f h = inl f.0
  works-HasLeft s (reads n e a k) f h = inl f
  works-HasLeft s (drained e p) f h = inl f
  works-HasLeft s (reopens e) f h = inl f
  works-HasLeft s (reopen_fails e) f h = inl f
  works-HasLeft s (swaps e) f h = inl f
  works-HasLeft s (runs t ts e l) (inl f) h = inl f
  works-HasLeft s (runs t ts e l) (inr f) h = inr (inr (inl f))
  works-HasLeft s (finishes e l) f h = inl f

  still_left :
      {st : Stage} {E P : Type 0}
      → E ⊎ P ⊎ IsOver st
      → (st ≡ alive) ⊎ (st ≡ joining) ⊎ (st ≡ joined)
      → {new : Stage} → E ⊎ P ⊎ IsOver new
  still_left (inl e) n = inl e
  still_left (inr (inl p)) n = inr (inl p)
  still_left (inr (inr o)) n = not_over o n

  Lives-HasLeft : {s s' : Life T} → Lives ending capacity quit s s' → HasLeft s → HasLeft s'
  Lives-HasLeft {s} (works st f g) h = works-HasLeft s st f h
  Lives-HasLeft (leaves e p q) h = inr (inl p)
  Lives-HasLeft (shuts e) h = still_left h (inl e)
  Lives-HasLeft (joins e d) h = still_left h (inr (inl e))
  Lives-HasLeft (flushes e) h = inr (inr (inl refl))
  Lives-HasLeft (dies e l) h = inr (inr (inr refl))

  Lived-HasLeft : {started : Bool} {s : Life T} → Lived ending capacity quit started s → HasLeft s
  Lived-HasLeft here = inr (inl refl)
  Lived-HasLeft (next l st) = Lives-HasLeft st (Lived-HasLeft l)

  behind_join :
      {st : Stage} {b : Bool}
      → (st ≡ joined) ⊎ IsOver st
      → (st ≡ alive) ⊎ (st ≡ joining) ⊎ (b ≡ true)
      → b ≡ true
  behind_join o (inr (inr a)) = a
  behind_join (inr o) (inl a) = not_over o (inl a)
  behind_join (inr o) (inr (inl a)) = not_over o (inr (inl a))
  behind_join (inl e) (inl a) = absurd (cc)
  behind_join (inl e) (inr (inl a)) = absurd (cc)

  Lives-WasJoined : {s s' : Life T} → Lives ending capacity quit s s' → WasJoined s → WasJoined s'
  Lives-WasJoined (works st f g) h = h
  Lives-WasJoined (leaves e p q) h = inr (inr refl)
  Lives-WasJoined (shuts e) h = inr (inl refl)
  Lives-WasJoined (joins e d) h = inr (inr d)
  Lives-WasJoined (flushes e) h = inr (inr (behind_join (inl e) h))
  Lives-WasJoined (dies e l) h = inr (inr (behind_join (inr (inl e)) h))

  Lived-WasJoined :
      {started : Bool} {s : Life T} → Lived ending capacity quit started s → WasJoined s
  Lived-WasJoined here = inl refl
  Lived-WasJoined (next l st) = Lives-WasJoined st (Lived-WasJoined l)

  left_phase :
      {st : Stage} {b : Bool} {P : Type 0}
      → (b ≡ false) ⊎ P ⊎ IsOver st
      → b ≡ true
      → st ≡ joined
      → P
  left_phase (inl e) f j = absurd (let bad : false ≡ true = sym e ∙ f in cc)
  left_phase (inr (inl p)) f j = p
  left_phase (inr (inr o)) f j = not_over o (inr (inr j))

  -- Behind the join the loop has nothing swapped out.
  joined-polling :
      {s : Life T} {started : Bool}
      → Lived ending capacity quit started s
      → s.stage ≡ joined
      → s.system.phase ≡ polling
  joined-polling l e = left_phase (Lived-HasLeft l) (behind_join (inl e) (Lived-WasJoined l)) e

  -- Every task that was handed over has run, is about to run, or waits.
  abbrev IsLined : Life T → Type ℓ
  IsLined s =
      SwapInv ending capacity s.system × Perm s.system.submitted (line ending capacity s.system)

  polling_none : (s : System T) → s.phase ≡ polling → SwapInv ending capacity s → s.list_swap ≡ []
  polling_none s p (inl r) = absurd (let bad : polling ≡ running = sym p ∙ r in cc)
  polling_none s p (inr e) = e

  Lives-IsLined :
      {s s' : Life T} {started : Bool}
      → Lived ending capacity quit started s
      → Lives ending capacity quit s s'
      → IsLined s
      → IsLined s'
  unfolding async_I
  Lives-IsLined l (works st f g) h =
      (Step-SwapInv ending capacity st h.0, Step-perm ending capacity st h.0 h.1)
  Lives-IsLined l (leaves e p q) h = h
  Lives-IsLined {s} l (shuts e) h =
      let st : Step ending capacity s.system _ = submits true quit in
      (Step-SwapInv ending capacity st h.0, Step-perm ending capacity st h.0 h.1)
  Lives-IsLined l (joins e d) h = h
  Lives-IsLined {s} l (flushes e) h =
      let none_left = polling_none s.system (joined-polling l e) h.0 in
      (
        inl refl,
        subst (Perm s.system.submitted)
            (ap (λ x. (s.system.loop.done ++ x) ++ s.system.list_task) none_left
              ∙ ap (λ x. x ++ s.system.list_task) (append-nil s.system.loop.done)
              ∙ sym (append-nil (s.system.loop.done ++ s.system.list_task)))
            h.1,
      )
  Lives-IsLined l (dies e d) h = h

  Lived-IsLined : {started : Bool} {s : Life T} → Lived ending capacity quit started s → IsLined s
  Lived-IsLined here = (inr refl, Perm.refl [])
  Lived-IsLined (next l st) = Lives-IsLined l st (Lived-IsLined l)

  works-flushed :
      (s : Life T) {u : System T} (st : Step ending capacity s.system u)
      → IsFree ending capacity quit s st
      → s.ended ≡ true
      → Perm s.flushed (s.system.loop.done ++ s.system.list_swap)
      → Perm s.flushed (u.loop.done ++ u.list_swap)
  works-flushed s (submits first t) f j h = h
  works-flushed s (writes a b) f j h = h
  works-flushed s (write_fails a b) f j h = h
  works-flushed s (reported e w g) f j h = h
  works-flushed s (reads n e a k) f j h = h
  works-flushed s (drained e p) f j h = h
  works-flushed s (reopens e) f j h = h
  works-flushed s (reopen_fails e) f j h = h
  works-flushed s (swaps e) f j h = absurd (let bad : true ≡ false = sym j ∙ f in cc)
  works-flushed s (runs t ts e l) f j h =
      subst (Perm s.flushed)
        (ap (λ x. s.system.loop.done ++ x) l
          ∙ sym (append_assoc s.system.loop.done (t ∷ []) ts)
          ∙ ap (λ x. x ++ ts) (sym (run_task-done ending s.system.loop t)))
        h
  works-flushed s (finishes e l) f j h = h

  -- From the last flush on: what had been handed over before it has run or is about to.
  abbrev IsFlushed : Life T → Type ℓ
  IsFlushed s =
      ((s.stage ≡ alive) ⊎ (s.stage ≡ joining) ⊎ (s.stage ≡ joined))
      ⊎ ((s.stage ≡ flushing) × Perm s.flushed (s.system.loop.done ++ s.system.list_swap))
      ⊎ ((s.stage ≡ gone) × Perm s.flushed s.system.loop.done)

  not_gone : {st : Stage} → is_gone st ≡ false → ¬ (st ≡ gone)
  unfolding is_gone
  not_gone {st = alive} e g = cc
  not_gone {st = joining} e g = cc
  not_gone {st = joined} e g = cc
  not_gone {st = flushing} e g = cc
  not_gone {st = gone} e g = cc

  dies-IsFlushed :
      (s : Life T)
      → s.stage ≡ flushing
      → s.system.list_swap ≡ []
      → IsFlushed s
      → Perm s.flushed s.system.loop.done
  dies-IsFlushed s e l (inl n) = not_over (inl e) n
  dies-IsFlushed s e l (inr (inl (f, p))) =
      subst (Perm s.flushed) (ap (λ x. s.system.loop.done ++ x) l ∙ append-nil s.system.loop.done) p
  dies-IsFlushed s e l (inr (inr (g, p))) = absurd (let bad : flushing ≡ gone = sym e ∙ g in cc)

  Lives-IsFlushed :
      {s s' : Life T} {started : Bool}
      → Lived ending capacity quit started s
      → Lives ending capacity quit s s'
      → IsFlushed s
      → IsFlushed s'
  Lives-IsFlushed l (works st f g) (inl n) = inl n
  Lives-IsFlushed {s} l (works st f g) (inr (inl (e, p))) =
      inr (inl (e, works-flushed s st f (behind_join (inr (inl e)) (Lived-WasJoined l)) p))
  Lives-IsFlushed l (works st f g) (inr (inr (e, p))) = absurd (not_gone g e)
  Lives-IsFlushed l (leaves e p q) h = h
  Lives-IsFlushed l (shuts e) h = inl (inr (inl refl))
  Lives-IsFlushed l (joins e d) h = inl (inr (inr refl))
  Lives-IsFlushed {s} l (flushes e) h =
      let (v, all) = Lived-IsLined l in
      let none_left = polling_none s.system (joined-polling l e) v in
      inr (
        inl (
          refl,
          subst (Perm s.system.submitted)
              (ap (λ x. (s.system.loop.done ++ x) ++ s.system.list_task) none_left
                ∙ ap (λ x. x ++ s.system.list_task) (append-nil s.system.loop.done))
              all,
        ))
  Lives-IsFlushed {s} l (dies e d) h = inr (inr (refl, dies-IsFlushed s e d h))

  Lived-IsFlushed :
      {started : Bool} {s : Life T} → Lived ending capacity quit started s → IsFlushed s
  Lived-IsFlushed here = inl (inl refl)
  Lived-IsFlushed (next l st) = Lives-IsFlushed l st (Lived-IsFlushed l)

  gone_flushed : (s : Life T) → s.stage ≡ gone → IsFlushed s → Perm s.flushed s.system.loop.done
  gone_flushed s e (inl n) = not_over (inr e) n
  gone_flushed s e (inr (inl (f, p))) = absurd (let bad : flushing ≡ gone = sym f ∙ e in cc)
  gone_flushed s e (inr (inr (g, p))) = p

  Lives-none_swapped :
      {s s' : Life T}
      → Lives ending capacity quit s s'
      → (is_gone s.stage ≡ false) ⊎ (s.system.list_swap ≡ [])
      → (is_gone s'.stage ≡ false) ⊎ (s'.system.list_swap ≡ [])
  unfolding is_gone
  Lives-none_swapped (works st f g) h = inl g
  Lives-none_swapped (leaves e p q) h = h
  Lives-none_swapped (shuts e) h = inl refl
  Lives-none_swapped (joins e d) h = inl refl
  Lives-none_swapped (flushes e) h = inl refl
  Lives-none_swapped (dies e d) h = inr d

  Lived-none_swapped :
      {started : Bool} {s : Life T}
      → Lived ending capacity quit started s
      → (is_gone s.stage ≡ false) ⊎ (s.system.list_swap ≡ [])
  unfolding is_gone
  Lived-none_swapped here = inl refl
  Lived-none_swapped (next l st) = Lives-none_swapped st (Lived-none_swapped l)

  gone_none : {st : Stage} {P : Type ℓ} → (is_gone st ≡ false) ⊎ P → st ≡ gone → P
  gone_none (inl g) e = absurd (not_gone g e)
  gone_none (inr p) e = p

  -- When a poller has been destroyed, every task that had been handed over when the destructor took
  -- the list for its last flush has been run, exactly as often as it was handed over, whether the
  -- loop was ever started or not. What was handed over behind that, as by the tasks of this flush,
  -- stands in the list and has not been run.
  pub Lived_all_done :
      {s : Life T} {started : Bool}
      → Lived ending capacity quit started s
      → s.stage ≡ gone
      → Perm s.flushed s.system.loop.done
        × Perm s.system.submitted (s.system.loop.done ++ s.system.list_task)
  Lived_all_done {s} l e = (
    gone_flushed s e (Lived-IsFlushed l),
    subst (Perm s.system.submitted)
        (ap (λ x. (s.system.loop.done ++ x) ++ s.system.list_task)
            (gone_none (Lived-none_swapped l) e)
          ∙ ap (λ x. x ++ s.system.list_task) (append-nil s.system.loop.done))
        (Lived-IsLined l).1,
  )

-- ===== src/Poller/Timers/Flush.antt =====
-- What flushDelayTask runs, what it leaves, and how long the loop then sleeps.
use mathlib.Core.List.{Perm, append-nil}
use mathlib.Core.List.Perm
use ffzkit.Base.Words.{add64-lt, sub64-le}
use ffzkit.Base.{
  ℕ, ◌+◌, ◌≤◌, ◌<◌, ◌^◌, ◌≡◌, ◌≢◌, refl, inl, inr, List, [], ◌∷◌, ◌++◌, leb, ltb, ◌==◌,
  if◌then◌else◌, All, All-append, arith, Bool-cases,
}
use ffzkit.Poller.Timers.Queue.{
  AllFrom, IsSorted, insert_all-IsSorted, All-insert_all, insert_all-perm, insert_all-append,
}
use ffzkit.Poller.Timers.{
  Timers, insert_all, Outcome, returns, throws, Tasks, call, again, minus_one, flush_loop,
  first_delay, Waited, flush_delay_task, get_min_delay,
}

-- The timers that are due at `now`, and those that are not.
abbrev pub due {ℓ} : {T : Type ℓ} → ℕ → Timers T → Timers T
due now [] = []
due now (e ∷ m) = if leb e.0 now then e ∷ due now m else []

abbrev pub later {ℓ} : {T : Type ℓ} → ℕ → Timers T → Timers T
later now [] = []
later now (e ∷ m) = if leb e.0 now then later now m else e ∷ m

module _ {T S : Type 0} (tasks : Tasks T S) where
  -- The tasks of the list run one after the other, and the timers that they set: those they add,
  -- and then the one for their own next run.
  abbrev pub run_all : ℕ → Timers T → S → List (ℕ × T) × S
  run_all now [] s = ([], s)
  run_all now ((k, t) ∷ m) s =
      let r = call tasks t s in
      let rest = run_all now m r.state in
      (r.added ++ (again tasks now t r.outcome ++ rest.0), rest.1)

  flush_loop_lem :
      (now : ℕ) (copy m : Timers T) (s : S)
      → flush_loop tasks now copy m s ≡ record {
        task_copy = later now copy;
        delay_task_map = insert_all (run_all now (due now copy) s).0 m;
        state = (run_all now (due now copy) s).1;
      }
  unfolding flush_loop
  flush_loop_lem now [] m s = unfold insert_all in refl
  flush_loop_lem now ((k, t) ∷ copy) m s = elim (Bool-cases (leb k now)) [
    | inl e ↦
        rw (flush_loop, e, insert_all-append, insert_all-append)
          (flush_loop_lem now copy
            (insert_all (again tasks now t (call tasks t s).outcome)
              (insert_all (call tasks t s).added m))
            (call tasks t s).state)
    | inr e ↦ rw e (unfold insert_all in refl)
  ]

  -- flushDelayTask runs the timers that are due, each once and in order, and no other. Behind it
  -- the timers are those that were not due and those that the tasks have set, each once.
  pub flush_delay_task_lem :
      (now : ℕ) (m : Timers T) (s : S)
      → let w = flush_delay_task tasks now m s in
        let ran = run_all now (due now m) s in
        (w.after ≡ ran.1) × Perm w.timers (ran.0 ++ later now m)
  unfolding flush_delay_task
  flush_delay_task_lem now m s = rw (flush_loop_lem now m [] s) (
    refl,
    Perm.trans (insert_all-perm (insert_all (run_all now (due now m) s).0 []) (later now m)) (
        Perm.append (rw append-nil at (insert_all-perm (run_all now (due now m) s).0 []))
          (Perm.refl (later now m))),
  )

later-IsSorted {ℓ} : {T : Type ℓ} (now : ℕ) (m : Timers T) → IsSorted m → IsSorted (later now m)
later-IsSorted now [] h = tt
later-IsSorted now (e ∷ m) h = elim (Bool-cases (leb e.0 now)) [
  | inl p ↦ rw p (later-IsSorted now m h.1)
  | inr p ↦ rw p h
]

-- A time of day that an int64_t of milliseconds can hold.
abbrev pub max_ms : ℕ
max_ms = 2 ^ 63

abbrev pub InTime {ℓ} : {T : Type ℓ} → ℕ → ℕ × T → Type 0
InTime now e = (now ≤ e.0) × (e.0 < max_ms)

AllFrom-InTime {ℓ} :
    {T : Type ℓ} (now k : ℕ) (l : Timers T)
    → now ≤ k
    → AllFrom k l
    → All (λ e. e.0 < max_ms) l
    → All (InTime now) l
AllFrom-InTime now k [] h a b = tt
AllFrom-InTime now k (x ∷ l) h a b = ((omega arith, b.0), AllFrom-InTime now k l h a.1 b.1)

later-InTime {ℓ} :
    {T : Type ℓ} (now : ℕ) (m : Timers T)
    → IsSorted m
    → All (λ e. e.0 < max_ms) m
    → All (InTime now) (later now m)
later-InTime now [] h b = tt
later-InTime now (e ∷ m) h b = elim (Bool-cases (leb e.0 now)) [
  | inl p ↦ rw p (later-InTime now m h.1 b.1)
  | inr p ↦ rw p ((ground arith, b.0), AllFrom-InTime now e.0 m (ground arith) h.0 b.1)
]

module _ {T S : Type 0} (tasks : Tasks T S) (now : ℕ) where
  -- The timers that tasks set at `now` are not in the past, and no time overflows.
  pub record IsTimely : Type 0 where
    pub added : (t : T) (s : S) → All (InTime now) (call tasks t s).added
    pub again_at : (t : T) (s : S) (d : ℕ) → (call tasks t s).outcome ≡ returns d → d + now < max_ms

  again-InTime :
      (t : T) (o : Outcome)
      → ((d : ℕ) → o ≡ returns d → d + now < max_ms)
      → All (InTime now) (again tasks now t o)
  unfolding again
  again-InTime t (returns d) h = elim (Bool-cases (d == 0)) [
    | inl z ↦ rw z tt
    | inr z ↦
        let b = h d refl in rw (z, add64-lt d now (omega arith)) ((omega arith, omega arith), tt)
  ]
  again-InTime t throws h = tt

  run_all-InTime :
      (v : IsTimely) (m : Timers T) (s : S) → All (InTime now) (run_all tasks now m s).0
  run_all-InTime v [] s = tt
  run_all-InTime v ((k, t) ∷ m) s =
      let r = call tasks t s in
      All-append (InTime now) r.added _ (v.added t s) (
        All-append (InTime now) (again tasks now t r.outcome) _
          (again-InTime t r.outcome (v.again_at t s)) (run_all-InTime v m r.state))

  -- What the loop may sleep with these timers: -1, for no limit, exactly if there is none, and
  -- else the time to the first of them.
  pub record Sleeps (w : Waited tasks) : Type 0 where
    pub sorted : IsSorted w.timers
    pub in_time : All (InTime now) w.timers
    pub delay_is : (k : ℕ) (t : T) (m : Timers T) → w.timers ≡ (k, t) ∷ m → w.delay + now ≡ k
    pub forever : w.timers ≡ [] → w.delay ≡ minus_one
    pub bounded : w.timers ≢ [] → w.delay ≢ minus_one

  first_delay-Sleeps :
      (m : Timers T) (s : S)
      → IsSorted m
      → All (InTime now) m
      → Sleeps (record { delay = first_delay tasks now m; timers = m; after = s })
  unfolding first_delay
  first_delay-Sleeps [] s h a = record {
    sorted = tt;
    in_time = tt;
    delay_is = λ k t m e. cc;
    forever = λ e. refl;
    bounded = λ e. absurd (e refl);
  }
  first_delay-Sleeps ((k, t) ∷ m) s h a =
      let d = sub64-le k now a.0.0 (omega arith) in
      record {
        sorted = h;
        in_time = a;
        delay_is = λ j u l e. ground (arith, d, a.0);
        forever = λ e. cc;
        bounded = λ e. omega (arith, d);
      }

  flush_delay_task-Sleeps :
      (m : Timers T) (s : S)
      → IsTimely
      → IsSorted m
      → All (λ e. e.0 < max_ms) m
      → Sleeps (flush_delay_task tasks now m s)
  unfolding flush_delay_task
  flush_delay_task-Sleeps m s v h b =
      let ran = (run_all tasks now (due now m) s).0 in
      rw (flush_loop_lem tasks now m [] s) (
        first_delay-Sleeps (insert_all (insert_all ran []) (later now m)) _
          (insert_all-IsSorted (insert_all ran []) (later now m) (later-IsSorted now m h))
          (All-insert_all (InTime now) (insert_all ran []) (later now m)
            (All-insert_all (InTime now) ran [] (run_all-InTime v (due now m) s) tt)
            (later-InTime now m h b)))

  -- getMinDelay leaves the timers in order and none that is overdue, and returns the time to the
  -- first, or -1 exactly if there is none. This is for tasks that set no timer in the past.
  pub get_min_delay-Sleeps :
      (m : Timers T) (s : S)
      → IsTimely
      → IsSorted m
      → All (λ e. e.0 < max_ms) m
      → Sleeps (get_min_delay tasks now m s)
  unfolding get_min_delay first_delay
  get_min_delay-Sleeps [] s v h b = first_delay-Sleeps [] s tt tt
  get_min_delay-Sleeps ((k, t) ∷ m) s v h b = elim (Bool-cases (ltb now k)) [
    | inl p ↦ rw p (
        first_delay-Sleeps ((k, t) ∷ m) s h
          ((ground arith, b.0), AllFrom-InTime now k m (ground arith) h.0 b.1))
    | inr p ↦ rw p (flush_delay_task-Sleeps ((k, t) ∷ m) s v h b)
  ]

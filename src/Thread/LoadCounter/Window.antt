-- ===== src/Thread/LoadCounter/Window.antt =====
-- What `load` computes, against the sums of the records taken without wrap-around.
use ffzkit.Base.Words.{
  u64_mod, add64, sub64, add64-lt, add64-add64_right, add64-add64_left, sub64-le, mul64-lt,
}
use native.Mathlib.Nat.{div-le_of_le-mul}
use ffzkit.Base.{
  ℕ, ◌+◌, ◌*◌, ◌/◌, ◌≤◌, ◌<◌, ◌≡◌, refl, ◌⊎◌, inl, inr, Bool, true, false, ◌||◌, List, [], ◌∷◌,
  ◌++◌, ltb, if◌then◌else◌, length, length-append, arith, Bool-cases, ap, ◌∙◌,
}
use ffzkit.Thread.LoadCounter.{
  TimeRecord, Counter, Totals, sum_records, add_current, Loop, trim_window, percent, load_loop,
  load,
}
use ffzkit.Thread.LoadCounter.Sums.{
  time_sum, run_sum, current, current_run, time_sum-append, run_sum-le, sum_records_lem,
}

module _ (max_usec max_size : ℕ) where
  -- The `while` loop stops at such a list.
  abbrev pub Fits : ℕ → List TimeRecord → Type 0
  Fits current l = (time_sum l + current ≤ max_usec) × (length l ≤ max_size)

  abbrev pub trimmed : List TimeRecord → ℕ → ℕ → Loop
  trimmed l run total = trim_window max_usec max_size l (run_sum l + run) (time_sum l + total)

  over : ℕ → List TimeRecord → Bool
  over current l = ltb max_usec (time_sum l + current) || ltb max_size (length l)

  -- One round of the loop: the running totals stay those of the records that are left.
  trimmed-step :
      (r : TimeRecord) (rs : List TimeRecord) (run total : ℕ)
      → run ≤ total
      → time_sum (r ∷ rs) + total < u64_mod
      → trimmed (r ∷ rs) run total ≡ (
          if over total (r ∷ rs) then trimmed rs run total else record {
            kept = r ∷ rs;
            run = run_sum (r ∷ rs) + run;
            total = time_sum (r ∷ rs) + total;
          })
  unfolding trim_window over
  trimmed-step r rs run total h k = rw (left_total, left_run r.sleep refl)
    where
      left_total : sub64 (r.time + time_sum rs + total) r.time ≡ time_sum rs + total
      left_total = sub64-le (r.time + time_sum rs + total) r.time (omega arith) k ∙ omega arith

      left_run :
          (b : Bool)
          → r.sleep ≡ b
          → (if r.sleep
              then (if r.sleep then 0 else r.time) + run_sum rs + run
              else sub64 ((if r.sleep then 0 else r.time) + run_sum rs + run) r.time)
            ≡ run_sum rs + run
      left_run true e = rw e (omega arith)
      left_run false e = rw e (
          sub64-le (r.time + run_sum rs + run) r.time (omega arith) (omega (arith, run_sum-le rs))
          ∙ omega arith)

  trim_window-totals :
      (l : List TimeRecord) (run total : ℕ)
      → run ≤ total
      → time_sum l + total < u64_mod
      → ((trimmed l run total).run ≡ run_sum (trimmed l run total).kept + run)
        × ((trimmed l run total).total ≡ time_sum (trimmed l run total).kept + total)
  trim_window-totals [] run total h k = unfold trim_window in (refl, refl)
  trim_window-totals (r ∷ rs) run total h k = elim (Bool-cases (over total (r ∷ rs))) [
    | inl e ↦
        rw (trimmed-step r rs run total h k, e) (trim_window-totals rs run total h (omega arith))
    | inr e ↦ rw (trimmed-step r rs run total h k, e) (refl, refl)
  ]

  -- The records that stay are a suffix.
  trim_window-suffix :
      (l : List TimeRecord) (run total : ℕ)
      → run ≤ total
      → time_sum l + total < u64_mod
      → (gone : List TimeRecord) × (l ≡ gone ++ (trimmed l run total).kept)
  trim_window-suffix [] run total h k = ([], unfold trim_window in refl)
  trim_window-suffix (r ∷ rs) run total h k = elim (Bool-cases (over total (r ∷ rs))) [
    | inl e ↦
        let (gone, s) = trim_window-suffix rs run total h (omega arith) in
        (r ∷ gone, rw (trimmed-step r rs run total h k, e) (ap (◌∷◌ r) s))
    | inr e ↦ ([], rw (trimmed-step r rs run total h k, e))
  ]

  trim_window-Fits :
      (l : List TimeRecord) (run total : ℕ)
      → run ≤ total
      → time_sum l + total < u64_mod
      → ((trimmed l run total).kept ≡ []) ⊎ Fits total (trimmed l run total).kept
  trim_window-Fits [] run total h k = inl (unfold trim_window in refl)
  trim_window-Fits (r ∷ rs) run total h k = elim (Bool-cases (over total (r ∷ rs))) [
    | inl e ↦
        rw (trimmed-step r rs run total h k, e) (trim_window-Fits rs run total h (omega arith))
    | inr e ↦ rw (trimmed-step r rs run total h k, e) (inr (unfold over in ground arith))
  ]

  -- No longer suffix would have fitted.
  trim_window-longest :
      (l : List TimeRecord) (run total : ℕ) (before suffix : List TimeRecord)
      → run ≤ total
      → time_sum l + total < u64_mod
      → l ≡ before ++ suffix
      → Fits total suffix
      → length suffix ≤ length (trimmed l run total).kept
  trim_window-longest [] run total before suffix h k e f =
      omega (arith, ap length e, length-append before suffix)
  trim_window-longest (r ∷ rs) run total [] suffix h k e f =
      rw (trimmed-step r rs run total h k, whole) (omega (arith, ap length e))
    where
      whole : over total (r ∷ rs) ≡ false
      whole = unfold over in ground (arith, ap length e, ap time_sum e)
  trim_window-longest (r ∷ rs) run total (b ∷ bs) suffix h k e f =
      elim (Bool-cases (over total (r ∷ rs))) [
        | inl o ↦
            rw (trimmed-step r rs run total h k, o)
              (trim_window-longest rs run total bs suffix h (omega arith) (ground arith) f)
        | inr o ↦
            rw (trimmed-step r rs run total h k, o)
              (omega (arith, ap length e, length-append (b ∷ bs) suffix))
      ]

-- The state and the time at which no sum wraps around.
pub record IsTimed (c : Counter) (now : ℕ) : Type 0 where
  pub asleep : c.last_sleep_time ≤ now
  pub awake : c.last_wake_time ≤ now
  pub summed : time_sum c.time_list + current c now < u64_mod

add_current_lem :
    (c : Counter) (now : ℕ) (t : Totals)
    → now < u64_mod
    → IsTimed c now
    → t.total_run + t.total_sleep ≡ time_sum c.time_list
    → t.total_run ≡ run_sum c.time_list
    → ((add_current c now t).total_run ≡ run_sum c.time_list + current_run c now)
      × (add64 (add_current c now t).total_run (add_current c now t).total_sleep
          ≡ time_sum c.time_list + current c now)
unfolding add_current
add_current_lem c now t h v e d = elim (Bool-cases c.sleeping) [
  | inl b ↦
      rw (b, sub64-le now c.last_sleep_time v.asleep h)
        (let s = rw b at v.summed in
          (omega arith, add64-add64_right t.total_run t.total_sleep _ (omega arith) ∙ omega arith))
  | inr b ↦
      rw (b, sub64-le now c.last_wake_time v.awake h)
        (let s = rw b at v.summed in
          (
            add64-lt t.total_run _ (omega arith) ∙ omega arith,
            add64-add64_left t.total_run _ t.total_sleep (omega arith) ∙ omega arith,
          ))
]

pub load_loop-trimmed :
    (c : Counter) (now : ℕ)
    → now < u64_mod
    → IsTimed c now
    → load_loop c now
      ≡ trimmed c.max_usec c.max_size c.time_list (current_run c now) (current c now)
unfolding load_loop
load_loop-trimmed c now h v =
    let t =
      sum_records_lem (record { total_sleep = 0; total_run = 0 }) c.time_list
        (omega (arith, v.summed)) in
    let s =
      add_current_lem c now (sum_records (record { total_sleep = 0; total_run = 0 }) c.time_list) h
        v (omega arith) (omega arith) in
    rw (s.1, s.0)

current_run-le : (c : Counter) (now : ℕ) → current_run c now ≤ current c now
current_run-le c now = ground arith

-- The list that `load` leaves is the longest suffix of the old one that fits the time window,
-- together with the running interval, and the number of samples; it is empty if none fits.
pub load-longest :
    (c : Counter) (now : ℕ)
    → now < u64_mod
    → IsTimed c now
    → let kept = (load c now).1.time_list in
      ((gone : List TimeRecord) × (c.time_list ≡ gone ++ kept))
      × ((kept ≡ []) ⊎ Fits c.max_usec c.max_size (current c now) kept)
      × ((before suffix : List TimeRecord)
          → c.time_list ≡ before ++ suffix
          → Fits c.max_usec c.max_size (current c now) suffix
          → length suffix ≤ length kept)
unfolding load
load-longest c now h v = rw (load_loop-trimmed c now h v) (
  trim_window-suffix c.max_usec c.max_size c.time_list (current_run c now) (current c now)
      (current_run-le c now) v.summed,
  trim_window-Fits c.max_usec c.max_size c.time_list (current_run c now) (current c now)
      (current_run-le c now) v.summed,
  λ before suffix.
      trim_window-longest c.max_usec c.max_size c.time_list (current_run c now) (current c now)
        before suffix (current_run-le c now) v.summed,
)

div-le : (run total : ℕ) → run ≤ total → run * 100 / total ≤ 100
div-le run total h = div-le_of_le-mul total (omega arith)

percent_lem :
    (run total : ℕ)
    → run ≤ total
    → total * 100 < u64_mod
    → (percent run total ≡ run * 100 / total) × (percent run total ≤ 100)
unfolding percent
percent_lem run total h k = rw (mul64-lt run 100 (omega arith)) (ground (arith, div-le run total h))

-- `load` is the share of the time of the window, the running interval included, in which the
-- thread ran, in whole percent; it is 0 if that time is 0, and never more than 100. This needs
-- a total that times 100 is below 2 ^ 64 microseconds.
pub load-percent :
    (c : Counter) (now : ℕ)
    → now < u64_mod
    → IsTimed c now
    → (time_sum c.time_list + current c now) * 100 < u64_mod
    → let kept = (load c now).1.time_list in
      let total = time_sum kept + current c now in
      ((load c now).0 ≡ (run_sum kept + current_run c now) * 100 / total) × ((load c now).0 ≤ 100)
unfolding load percent
load-percent c now h v k =
    let totals =
      trim_window-totals c.max_usec c.max_size c.time_list (current_run c now) (current c now)
        (current_run-le c now) v.summed in
    let (gone, cut) =
      trim_window-suffix c.max_usec c.max_size c.time_list (current_run c now) (current c now)
        (current_run-le c now) v.summed in
    rw (load_loop-trimmed c now h v, totals.0, totals.1)
      (percent_lem _ _ (omega (arith, run_sum-le, current_run-le c now))
        (omega (arith, ap time_sum cut, time_sum-append gone)))

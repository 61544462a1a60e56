-- ===== src/Thread/LoadCounter/History.antt =====
-- The counter over the calls of one thread, as that of an EventPoller: its loop puts `start_sleep` and `sleep_wake_up` around
-- every wait, and any thread may call `load`.
use ffzkit.Base.Words.{u64_mod, sub64, sub64-le}
use ffzkit.Base.{
  ℕ, ◌+◌, ◌-◌, ◌*◌, ◌≤◌, ◌<◌, ◌≡◌, ◌⊎◌, true, false, List, [], ◌∷◌, ◌++◌, if◌then◌else◌, length,
  length-append, arith, ap,
}
use ffzkit.Thread.LoadCounter.Sums.{time_sum, time_sum-append}
use ffzkit.Thread.LoadCounter.Window.{IsTimed, load-percent, load-longest}
use ffzkit.Thread.LoadCounter.{
  TimeRecord, Counter, create, push_record, pop_front, start_sleep, sleep_wake_up, load,
}

-- The time of the last switch.
abbrev pub latest : Counter → ℕ
latest c = if c.sleeping then c.last_sleep_time else c.last_wake_time

-- The calls that one thread makes, with a clock that never goes back; the threads of a ThreadPool, which
-- share a counter, are not meant. The thread falls asleep when it
-- is awake, or first of all.
pub data Reached (max_size max_usec : ℕ) : Counter → Type 0 where
  created : (now : ℕ) → Reached max_size max_usec (create max_size max_usec now)
  sleeps :
      {c : Counter} (now : ℕ)
      → Reached max_size max_usec c
      → (c.sleeping ≡ false) ⊎ (c.last_sleep_time ≡ c.last_wake_time)
      → latest c ≤ now
      → now < u64_mod
      → Reached max_size max_usec (start_sleep c now)
  wakes :
      {c : Counter} (now : ℕ)
      → Reached max_size max_usec c
      → c.sleeping ≡ true
      → latest c ≤ now
      → now < u64_mod
      → Reached max_size max_usec (sleep_wake_up c now)
  loads :
      {c : Counter} (now : ℕ)
      → Reached max_size max_usec c
      → latest c ≤ now
      → now < u64_mod
      → Reached max_size max_usec (load c now).1

-- The records add up to no more than the time of the last switch, and keep to the sample size.
pub record Inv (max_size max_usec : ℕ) (c : Counter) : Type 0 where
  pub size_is : c.max_size ≡ max_size
  pub usec_is : c.max_usec ≡ max_usec
  pub disjoint : time_sum c.time_list ≤ latest c
  pub asleep : c.last_sleep_time ≤ latest c
  pub awake : c.last_wake_time ≤ latest c
  pub within : length c.time_list ≤ max_size

time_sum-pop_front : (l : List TimeRecord) → time_sum (pop_front l) ≤ time_sum l
time_sum-pop_front [] = omega arith
time_sum-pop_front (r ∷ l) = omega arith

length-pop_front : (l : List TimeRecord) → length (pop_front l) ≡ length l - 1
length-pop_front [] = omega arith
length-pop_front (r ∷ l) = omega arith

push_record-time_sum :
    (m : ℕ) (l : List TimeRecord) (r : TimeRecord)
    → time_sum (push_record m l r) ≤ time_sum l + r.time
unfolding push_record
push_record-time_sum m l r =
    ground (arith, time_sum-append l (r ∷ []), time_sum-pop_front (l ++ r ∷ []))

push_record-length :
    (m : ℕ) (l : List TimeRecord) (r : TimeRecord) → length l ≤ m → length (push_record m l r) ≤ m
unfolding push_record
push_record-length m l r h =
    ground (arith, length-append l (r ∷ []), length-pop_front (l ++ r ∷ []))

Inv-IsTimed :
    {m u : ℕ} {c : Counter} (now : ℕ) → Inv m u c → latest c ≤ now → now < u64_mod → IsTimed c now
Inv-IsTimed now v h k = record {
  asleep = omega (arith, v.asleep);
  awake = omega (arith, v.awake);
  summed = omega (arith, v.disjoint);
}

start_sleep-Inv :
    {m u : ℕ} (c : Counter) (now : ℕ)
    → (c.sleeping ≡ false) ⊎ (c.last_sleep_time ≡ c.last_wake_time)
    → latest c ≤ now
    → now < u64_mod
    → Inv m u c
    → Inv m u (start_sleep c now)
unfolding start_sleep
start_sleep-Inv c now s h k v = ground (
  arith,
  sub64-le now c.last_wake_time,
  push_record-time_sum c.max_size c.time_list
      (record { sleep = false; time = sub64 now c.last_wake_time }),
  push_record-length c.max_size c.time_list
      (record { sleep = false; time = sub64 now c.last_wake_time }),
)

sleep_wake_up-Inv :
    {m u : ℕ} (c : Counter) (now : ℕ)
    → c.sleeping ≡ true
    → latest c ≤ now
    → now < u64_mod
    → Inv m u c
    → Inv m u (sleep_wake_up c now)
unfolding sleep_wake_up
sleep_wake_up-Inv c now s h k v = ground (
  arith,
  sub64-le now c.last_sleep_time,
  push_record-time_sum c.max_size c.time_list
      (record { sleep = true; time = sub64 now c.last_sleep_time }),
  push_record-length c.max_size c.time_list
      (record { sleep = true; time = sub64 now c.last_sleep_time }),
)

load-Inv :
    {m u : ℕ} (c : Counter) (now : ℕ)
    → latest c ≤ now
    → now < u64_mod
    → Inv m u c
    → Inv m u (load c now).1
unfolding load
load-Inv c now h k v =
    let (gone, cut) = (load-longest c now k (Inv-IsTimed now v h k)).0 in
    record {
      size_is = v.size_is;
      usec_is = v.usec_is;
      disjoint = omega (arith, v.disjoint, ap time_sum cut, time_sum-append gone);
      asleep = v.asleep;
      awake = v.awake;
      within = omega (arith, v.within, ap length cut, length-append gone (load c now).1.time_list);
    }

-- In every state that the calls reach, the records add up to no more than the time of the last
-- switch, no switch is later than that, and there are at most `max_size` records.
pub Reached-Inv : {m u : ℕ} {c : Counter} → Reached m u c → Inv m u c
unfolding create
Reached-Inv (created now) = omega arith
Reached-Inv (sleeps {c} now r s h k) = start_sleep-Inv c now s h k (Reached-Inv r)
Reached-Inv (wakes {c} now r s h k) = sleep_wake_up-Inv c now s h k (Reached-Inv r)
Reached-Inv (loads {c} now r h k) = load-Inv c now h k (Reached-Inv r)

-- In every state that the calls of one thread reach, as the loop of an EventPoller makes them, a load is at
-- most 100 percent, while the clock times 100 is below 2 ^ 64.
pub Reached-load :
    {m u : ℕ} {c : Counter} (now : ℕ)
    → Reached m u c
    → latest c ≤ now
    → now * 100 < u64_mod
    → (load c now).0 ≤ 100
Reached-load {c} now r h k =
    (load-percent c now (omega arith) (Inv-IsTimed now (Reached-Inv r) h (omega arith))
      (omega (arith, (Reached-Inv r).disjoint))).1

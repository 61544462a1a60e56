-- ===== src/Util/Clock/Elapsed.antt =====
-- The time that has gone by does not follow the system's when that is set.
use ffzkit.Base.Words.{add64, sub64, u64_mod}
use ffzkit.Base.{
  ℕ, ◌+◌, ◌-◌, ◌*◌, ◌/◌, ◌≤◌, ◌<◌, ◌≡◌, true, false, List, [], ◌∷◌, length, if◌then◌else◌, arith,
  ◌∙◌,
}
use ffzkit.Util.Clock.{
  Clock, start, is_reasonable, tick, run, get_current_millisecond, get_current_microsecond, ticker,
  reset_time, elapsed_time, created_time,
}

-- What a round adds.
pub advance : ℕ → ℕ → ℕ
unfolding sub64
advance last now = if is_reasonable (sub64 now last) then sub64 now last else 0

-- The atomics are those of the last round.
pub record IsKept (c : Clock) : Type 0 where
  pub us : c.microsecond ≡ c.total
  pub ms : c.millisecond ≡ c.total / 1000

-- In a round the time that has gone by does not go back and gains less than a second, whatever the
-- time of the system does, and the time of the system is the one that was read.
pub tick_forward :
    (now : ℕ) (c : Clock)
    → IsKept c
    → c.total + 1000000 < u64_mod
    → IsKept (tick now c)
      × (c.microsecond ≤ (tick now c).microsecond)
      × ((tick now c).microsecond < c.microsecond + 1000000)
      × (c.millisecond ≤ (tick now c).millisecond)
      × (get_current_microsecond true (tick now c) ≡ now)
      × (get_current_millisecond true (tick now c) ≡ now / 1000)
unfolding tick add64
tick_forward now c k h = ground (arith, k.us, k.ms)

-- The time of the system goes on by less than a second at a time.
abbrev pub Steady : ℕ → List ℕ → Type 0
Steady last [] = Unit
Steady last (now ∷ nows) = (last ≤ now) × (now < last + 1000000) × (now < u64_mod) × Steady now nows

abbrev pub final : ℕ → List ℕ → ℕ
final last [] = last
final last (now ∷ nows) = final now nows

last_tick : (now : ℕ) (c : Clock) → (tick now c).last ≡ now
unfolding tick
last_tick now c = ground arith

total_tick :
    (now : ℕ) (c : Clock)
    → c.last ≤ now
    → now < c.last + 1000000
    → now < u64_mod
    → c.total + (now - c.last) < u64_mod
    → (tick now c).total ≡ c.total + (now - c.last)
unfolding tick sub64 add64
total_tick now c h k l m = ground arith

tick-IsKept : (now : ℕ) (c : Clock) → IsKept c → IsKept (tick now c)
unfolding tick
tick-IsKept now c k = ground (arith, k.us, k.ms)

final-ge : (last : ℕ) (nows : List ℕ) → Steady last nows → last ≤ final last nows
final-ge last [] h = omega arith
final-ge last (now ∷ nows) h = omega (arith, h.0, final-ge now nows h.3)

run-total :
    (nows : List ℕ) (c : Clock)
    → IsKept c
    → Steady c.last nows
    → c.total + (final c.last nows - c.last) < u64_mod
    → (run nows c).microsecond ≡ c.total + (final c.last nows - c.last)
unfolding run
run-total [] c k h l = omega (arith, k.us)
run-total (now ∷ nows) c k h l =
    let f = final-ge now nows h.3 in
    let e = last_tick now c in
    let t = total_tick now c h.0 h.1 h.2 (omega arith) in
    let ih =
      run-total nows (tick now c) (tick-IsKept now c k) (rw e h.3) (rw (e, t) (omega arith)) in
    ih ∙ rw (e, t) (omega arith)

-- While the time of the system goes on by less than a second at a time, the time that has gone by
-- since the thread started is the time between its first reading and the last.
pub run-Steady :
    (origin now : ℕ) (nows : List ℕ)
    → Steady now nows
    → final now nows < u64_mod
    → get_current_microsecond false (run nows (start origin now)) ≡ final now nows - now
unfolding start
run-Steady origin now nows h l =
    run-total nows (start origin now) (omega arith) h (omega arith) ∙ omega arith

run_forward :
    (nows : List ℕ) (c : Clock)
    → IsKept c
    → c.total + 1000000 * length nows < u64_mod
    → IsKept (run nows c)
      × (c.millisecond ≤ (run nows c).millisecond)
      × ((run nows c).total ≤ c.total + 1000000 * length nows)
unfolding run
run_forward [] c k h = (k, omega arith, omega arith)
run_forward (now ∷ nows) c k h =
    let (k', _, s, m, _, _) = tick_forward now c k (omega arith) in
    let (r, u, v) = run_forward nows (tick now c) k' (omega (arith, k'.us, k.us)) in
    (r, omega arith, omega (arith, k'.us, k.us))

-- A Ticker that is made at one time and reset at a later one reports the milliseconds that have
-- gone by since each of them, none of which is negative, whatever the system's time did.
pub ticker-reset :
    (min_ms : ℕ) (before after : List ℕ) (c : Clock)
    → IsKept c
    → c.total + 1000000 * (length before + length after) + 1000000 < u64_mod
    → let reset = run before c in
      let now = run after reset in
      let t = reset_time reset (ticker min_ms c) in
      (created_time now t ≡ now.millisecond - c.millisecond)
      × (elapsed_time now t ≡ now.millisecond - reset.millisecond)
      × (elapsed_time now t ≤ created_time now t)
      × (c.millisecond ≤ reset.millisecond)
      × (reset.millisecond ≤ now.millisecond)
unfolding created_time elapsed_time sub64
ticker-reset min_ms before after c k h =
    let (r, u, v) = run_forward before c k (omega arith) in
    let (r', u', v') = run_forward after (run before c) r (omega arith) in
    omega (arith, r.ms, r'.ms)

-- ===== src/Poller/Pool/Delays.antt =====
-- What getExecutorDelay answers, when the tasks of the executors run in any order.
use ffzkit.Base.{
  ℕ, zero, suc, ◌+◌, ◌-◌, ◌<◌, ◌≡◌, ◌≢◌, inl, inr, refl, ap, sym, some-inj, ◌∙◌, true, false, List,
  [], ◌∷◌, none, some, ◌==◌, ==_iff, length, get_elem?, replicate, lookup, IsDistinct, Bool-cases,
  arith,
}
use ffzkit.Poller.Pool.{Measure, set, release, measure, task_runs}

-- The tasks that have run, each by the number of its executor and the delay that it found.
pub run_all : List (ℕ × ℕ) → Measure → Measure
run_all [] m = m
run_all ((i, d) ∷ runs) m = run_all runs (task_runs i d m)

-- What the vector then holds.
fill : List (ℕ × ℕ) → List ℕ → List ℕ
fill [] v = v
fill ((i, d) ∷ runs) v = fill runs (set v i d)

length-set : (v : List ℕ) (i d : ℕ) → length (set v i d) ≡ length v
unfolding set
length-set [] i d = refl
length-set (x ∷ v) zero d = refl
length-set (x ∷ v) (suc i) d = ap suc (length-set v i d)

get_elem?-set_self : (v : List ℕ) (i d : ℕ) → i < length v → get_elem? (set v i d) i ≡ some d
unfolding set
get_elem?-set_self [] i d h = elim h [ ]
get_elem?-set_self (x ∷ v) zero d h = refl
get_elem?-set_self (x ∷ v) (suc i) d h = get_elem?-set_self v i d (omega arith)

get_elem?-set_other : (v : List ℕ) (i j d : ℕ) → i ≢ j → get_elem? (set v i d) j ≡ get_elem? v j
unfolding set
get_elem?-set_other [] i j d h = refl
get_elem?-set_other (x ∷ v) zero zero d h = absurd (h refl)
get_elem?-set_other (x ∷ v) zero (suc j) d h = refl
get_elem?-set_other (x ∷ v) (suc i) zero d h = refl
get_elem?-set_other (x ∷ v) (suc i) (suc j) d h = get_elem?-set_other v i j d (λ e. h (ap suc e))

fill_other :
    (runs : List (ℕ × ℕ)) (v : List ℕ) (i : ℕ)
    → lookup i runs ≡ none
    → get_elem? (fill runs v) i ≡ get_elem? v i
unfolding fill lookup
fill_other [] v i h = refl
fill_other ((j, d) ∷ runs) v i h = elim (Bool-cases (j == i)) [
  | inl e ↦ absurd (ground arith)
  | inr e ↦
      fill_other runs (set v j d) i (ground arith) ∙ get_elem?-set_other v j i d (ground arith)
]

fill-lookup :
    (runs : List (ℕ × ℕ)) (v : List ℕ) (i : ℕ) {d : ℕ}
    → IsDistinct runs
    → lookup i runs ≡ some d
    → i < length v
    → get_elem? (fill runs v) i ≡ some d
unfolding fill lookup
fill-lookup [] v i h e l = absurd (cc)
fill-lookup ((j, c) ∷ runs) v i {d} h e l = elim (Bool-cases (j == i)) [
  | inl q ↦
      let same : j ≡ i = (==_iff j i).0 q in
      let c_is : c ≡ d = some-inj (rw (lookup, q) at e) in
      fill_other runs (set v j c) i (ap (λ k. lookup k runs) (sym same) ∙ h.0)
      ∙ ap (λ k. get_elem? (set v j c) k) (sym same)
      ∙ get_elem?-set_self v j c (omega arith)
      ∙ ap some c_is
  | inr q ↦ fill-lookup runs (set v j c) i h.1 (ground arith) (omega (arith, length-set v j c))
]

pending :
    (runs : List (ℕ × ℕ)) (m : Measure) (k : ℕ)
    → m.holders ≡ length runs + suc k
    → (run_all runs m).answered ≡ m.answered
unfolding run_all task_runs release
pending [] m k h = refl
pending ((i, d) ∷ runs) m k h =
    let more : (m.holders == 1) ≡ false = ground arith in
    rw (run_all, task_runs, release, more) (pending runs _ k (omega arith))

complete :
    (i d : ℕ) (runs : List (ℕ × ℕ)) (m : Measure)
    → m.holders ≡ length runs + 1
    → (run_all ((i, d) ∷ runs) m).answered ≡ fill ((i, d) ∷ runs) m.delays ∷ m.answered
unfolding run_all task_runs release fill
complete i d [] m h =
    let last : (m.holders == 1) ≡ true = ground arith in rw (run_all, task_runs, release, last) refl
complete i d ((j, c) ∷ runs) m h =
    let more : (m.holders == 1) ≡ false = ground arith in
    rw (run_all, task_runs, release, more) (complete j c runs _ (omega arith))

length-fill : (runs : List (ℕ × ℕ)) (v : List ℕ) → length (fill runs v) ≡ length v
unfolding fill
length-fill [] v = refl
length-fill ((i, d) ∷ runs) v = length-fill runs (set v i d) ∙ length-set v i d

length-replicate : (n a : ℕ) → length (replicate n a) ≡ n
length-replicate zero a = refl
length-replicate (suc n) a = ap suc (length-replicate n a)

-- When the call itself has let go.
abbrev IsOpen : ℕ → Measure → Type 0
IsOpen n m = (m.holders ≡ n) × (m.answered ≡ []) × (m.delays ≡ replicate n 0)

measure-IsOpen : (n : ℕ) → IsOpen (suc n) (measure (suc n))
unfolding measure release
measure-IsOpen n =
    let more : (suc n + 1 == 1) ≡ false = ground arith in
    rw (measure, release, more) (omega arith, refl, refl)

before :
    {n : ℕ} (runs : List (ℕ × ℕ)) (m : Measure)
    → IsOpen n m
    → length runs < n
    → (run_all runs m).answered ≡ []
before {n} runs m (h, a, _) l = pending runs m (n - suc (length runs)) (omega arith) ∙ a

after :
    {n : ℕ} (runs : List (ℕ × ℕ)) (m : Measure)
    → IsOpen (suc n) m
    → IsDistinct runs
    → length runs ≡ suc n
    → (v : List ℕ) × ((run_all runs m).answered ≡ v ∷ [])
      × (length v ≡ suc n)
      × ((i d : ℕ) → i < suc n → lookup i runs ≡ some d → get_elem? v i ≡ some d)
after [] m o h e = absurd (omega arith)
after {n} ((i, d) ∷ runs) m (k, a, v) h e =
    let size : length m.delays ≡ suc n = ap length v ∙ length-replicate (suc n) 0 in
    (
      fill ((i, d) ∷ runs) m.delays,
      complete i d runs m (omega arith) ∙ ap (λ r. fill ((i, d) ∷ runs) m.delays ∷ r) a,
      length-fill ((i, d) ∷ runs) m.delays ∙ size,
      λ j c l q. fill-lookup ((i, d) ∷ runs) m.delays j h q (omega arith),
    )

-- The callback of getExecutorDelay is called exactly once, whatever the order in which the executors
-- get to their tasks: not while one of the `n` tasks is left, and then with `n` delays, the delay
-- that each executor's task found at the place of that executor.
pub measure_once :
    (n : ℕ) (runs : List (ℕ × ℕ))
    → IsDistinct runs
    → (length runs < n → (run_all runs (measure n)).answered ≡ [])
      × (length runs ≡ n
          → (v : List ℕ) × ((run_all runs (measure n)).answered ≡ v ∷ [])
            × (length v ≡ n)
            × ((i d : ℕ) → i < n → lookup i runs ≡ some d → get_elem? v i ≡ some d))
unfolding measure release run_all
measure_once zero [] h = (λ l. elim l [ ], λ e. ([], refl, refl, λ i d l. elim l [ ]))
measure_once zero (r ∷ runs) h = (λ l. elim l [ ], λ e. absurd (omega arith))
measure_once (suc n) runs h = (
  λ l. before runs (measure (suc n)) (measure-IsOpen n) l,
  λ e. after runs (measure (suc n)) (measure-IsOpen n) h e,
)

-- ===== src/Poller/Pool/Tests.antt =====
-- A machine with two CPUs; a poller is its number and its CPU.
use ffzkit.Base.{
  ℕ, ◌<◌, ◌≡◌, refl, true, List, [], ◌∷◌, none, some, length, get_elem?, lookup, arith,
}
use ffzkit.Thread.Executors.{Getter}
use ffzkit.Poller.Pool.{create_pool, get_poller, get_first_poller, measure}
use ffzkit.Poller.Pool.Created.{Answers, get_poller_present}
use ffzkit.Poller.Pool.Delays.{run_all, measure_once}

abbrev make : ℕ → ℕ → ℕ × ℕ
make i cpu = (i, cpu)

abbrev three : Getter (ℕ × ℕ)
three = record { thread_pos = 0; threads = some (0, 0) ∷ some (1, 1) ∷ some (2, 0) ∷ [] }

made : create_pool make 2 3 ≡ some (3, three)
unfolding create_pool
made = refl

-- Where hardware_concurrency does not know: no poller, so a null pointer and an undefined `front`;
-- and with a size that was set, a remainder by 0.
unknown_cpus :
    (create_pool make 0 0 ≡ some (0, record { thread_pos = 0; threads = [] }))
    × (get_first_poller {E = ℕ × ℕ} (record { thread_pos = 0; threads = [] }) ≡ none)
    × (create_pool make 0 3 ≡ none)
unfolding create_pool get_first_poller
unknown_cpus = (refl, refl, refl)

get_poller_present_example :
    (e : ℕ × ℕ) × (g : Getter (ℕ × ℕ)) × (get_poller (λ _ x. x.0) true true none three
      ≡ some (some e, g))
    × Answers make 3 (λ x. x.0) true true none three e g
get_poller_present_example =
    get_poller_present make 2 3 (λ x. x.0) true true none three (omega arith) made refl

measure_once_example :
    (2 < 2 → (run_all ((1, 30) ∷ (0, 10) ∷ []) (measure 2)).answered ≡ [])
    × (◌≡◌ {A = ℕ} 2 2
        → (v : List ℕ) × ((run_all ((1, 30) ∷ (0, 10) ∷ []) (measure 2)).answered ≡ v ∷ [])
          × (length v ≡ 2)
          × ((i d : ℕ)
              → i < 2
              → lookup i ((1, 30) ∷ (0, 10) ∷ []) ≡ some d
              → get_elem? v i ≡ some d))
unfolding lookup
measure_once_example = measure_once 2 ((1, 30) ∷ (0, 10) ∷ []) (refl, (refl, tt))

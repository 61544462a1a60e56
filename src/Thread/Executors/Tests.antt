-- ===== src/Thread/Executors/Tests.antt =====
-- A search among three executors, whose loads are the executors themselves.
use ffzkit.Base.{ℕ, ◌≡◌, refl, [], ◌∷◌, some}
use ffzkit.Thread.Executors.LeastLoaded.{Chosen, get_executor-Chosen}
use ffzkit.Thread.Executors.{Getter, get_executor, get_executor_load}

abbrev three : Getter ℕ
three = record { thread_pos = 1; threads = some 50 ∷ some 70 ∷ some 20 ∷ [] }

three_best : get_executor (λ _ x. x) three ≡ some (some 20, record three { thread_pos = 1 })
unfolding get_executor
three_best = refl

-- An idle executor ends the search.
three_idle :
    get_executor (λ _ x. x) (record three { threads = some 50 ∷ some 70 ∷ some 0 ∷ some 9 ∷ [] })
    ≡ some (some 0, record { thread_pos = 2; threads = some 50 ∷ some 70 ∷ some 0 ∷ some 9 ∷ [] })
unfolding get_executor
three_idle = refl

three_loads : get_executor_load (λ _ x. x) three ≡ 50 ∷ 70 ∷ 20 ∷ []
unfolding get_executor_load
three_loads = refl

get_executor-Chosen_example :
    (e : ℕ) × (g : Getter ℕ) × (get_executor (λ _ x. x) three ≡ some (some e, g))
    × Chosen (λ x. x) three e g
get_executor-Chosen_example = get_executor-Chosen (λ x. x) three refl

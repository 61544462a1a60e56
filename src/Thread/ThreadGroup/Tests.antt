-- ===== src/Thread/ThreadGroup/Tests.antt =====
-- A group with the thread 4, to which the thread 7 is added.
use ffzkit.Base.{ℕ, ◌≡◌, refl, true, [], ◌∷◌, none, some, lookup, IsDistinct}
use ffzkit.Thread.ThreadGroup.{Group, join_all, size}

abbrev one : Group ℕ
one = record { thread_id = some 4; threads = (4, 40) ∷ [] }

joined :
    (join_all (λ v. true) 4 one ≡ none)
    × (join_all (λ v. true) 9 one ≡ some (4 ∷ [], record { thread_id = some 4; threads = [] }))
    × (size one ≡ 1)
unfolding join_all
joined = (refl, refl, refl)

one-IsDistinct : IsDistinct one.threads
unfolding lookup
one-IsDistinct = (refl, tt)

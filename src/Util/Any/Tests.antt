-- ===== src/Util/Any/Tests.antt =====
-- A value 5 of type 1.
use ffzkit.Base.{ℕ, ◌≡◌, refl, true, false, some}
use ffzkit.Util.Any.{Any, got, throws, undefined, get}

abbrev five : Any ℕ
five = record { type = some 1; data_ = some 5 }

reads : (get true 1 five ≡ got 5) × (get true 2 five ≡ throws) × (get false 2 five ≡ undefined)
unfolding get
reads = (refl, refl, refl)

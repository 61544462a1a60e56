-- ===== src/Base/Maps.antt =====
-- Association lists with numbers for keys, under the names of std::unordered_map.
use Prim.Native.Nat.{ℕ}
use mathlib.Core.Path.{◌≡◌, refl, subst, ◌∙◌}
use mathlib.Core.Logic.{inl, inr}
use mathlib.Core.Bool.{Bool, true, false}
use mathlib.Core.List.{List, [], ◌∷◌}
use mathlib.Core.Option.{Option, none, some}
use native.Mathlib.Omega.{arith}
use ffzkit.Base.Tests.{◌==◌, if◌then◌else◌, Bool-cases, Option-cases}

-- A map whose keys are numbers, as std::unordered_map has it: `find`, `emplace`, which keeps an entry that is
-- there, and `erase`.
module _ {ℓ} {V : Type ℓ} where
  unfoldable pub lookup : ℕ → List (ℕ × V) → Option V
  lookup k [] = none
  lookup k ((j, v) ∷ m) = if j == k then some v else lookup k m

  unfoldable pub is_some : Option V → Bool
  is_some none = false
  is_some (some v) = true

  unfoldable pub emplace : ℕ → V → List (ℕ × V) → List (ℕ × V)
  unfolding lookup is_some
  emplace k v m = if is_some (lookup k m) then m else (k, v) ∷ m

  unfoldable pub erase : ℕ → List (ℕ × V) → List (ℕ × V)
  erase k [] = []
  erase k ((j, v) ∷ m) = let rest = erase k m in if j == k then m else (j, v) ∷ rest

  abbrev pub IsDistinct : List (ℕ × V) → Type ℓ
  IsDistinct [] = Unit
  IsDistinct ((j, v) ∷ m) = (lookup j m ≡ none) × IsDistinct m

  pub lookup-erase_other :
      (j i : ℕ) (m : List (ℕ × V)) → (j == i) ≡ false → lookup j (erase i m) ≡ lookup j m
  unfolding lookup erase
  lookup-erase_other j i [] h = refl
  lookup-erase_other j i ((k, v) ∷ m) h = ground (arith, lookup-erase_other j i m h)

  pub lookup-erase_same : (i : ℕ) (m : List (ℕ × V)) → IsDistinct m → lookup i (erase i m) ≡ none
  unfolding lookup erase
  lookup-erase_same i [] d = refl
  lookup-erase_same i ((k, v) ∷ m) d = elim (Bool-cases (k == i)) [
    | inl e ↦ let e' : k ≡ i = ground arith in rw e (subst (λ x. lookup x m ≡ none) e' d.0)
    | inr e ↦ rw (e, lookup, e) (lookup-erase_same i m d.1)
  ]

  pub erase-IsDistinct : (i : ℕ) (m : List (ℕ × V)) → IsDistinct m → IsDistinct (erase i m)
  unfolding erase
  erase-IsDistinct i [] d = tt
  erase-IsDistinct i ((k, v) ∷ m) d = elim (Bool-cases (k == i)) [
    | inl e ↦ rw e d.1
    | inr e ↦ rw e (lookup-erase_other k i m e ∙ d.0, erase-IsDistinct i m d.1)
  ]

  pub emplace-IsDistinct :
      (i : ℕ) (v : V) (m : List (ℕ × V)) → IsDistinct m → IsDistinct (emplace i v m)
  unfolding emplace is_some
  emplace-IsDistinct i v m d = elim (Option-cases (lookup i m)) [
    | inl e ↦ rw e (e, d)
    | inr (w, e) ↦ rw e d
  ]

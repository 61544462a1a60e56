-- ===== src/Base/Strings.antt =====
-- Strings as lists of bytes, and when two of them are the same.
use Prim.Native.Char.{code}
use Prim.Native.Nat.{ℕ}
use Prim.Native.String.{String}
use mathlib.Core.Path.{◌≡◌, refl, sym, ap, subst, ◌∙◌}
use mathlib.Core.Logic.{◌≢◌, inl, inr}
use mathlib.Core.Bool.{Bool, true, false, ◌&&◌, ◌||◌}
use mathlib.Core.List.{List, [], ◌∷◌}
use native.Mathlib.Omega.{arith}
use ffzkit.Base.Tests.{ltb, ◌==◌, Bool-cases}

abbrev pub Bytes : Type 0
Bytes = List ℕ

-- The bytes of a text in ASCII.
abbrev pub codes : String → Bytes
codes String.[] = []
codes (String.◌∷◌ c s) = code c ∷ codes s

unfoldable pub same_bytes : Bytes → Bytes → Bool
same_bytes [] [] = true
same_bytes [] (d ∷ ds) = false
same_bytes (c ∷ cs) [] = false
same_bytes (c ∷ cs) (d ∷ ds) = c == d && same_bytes cs ds

pub same_bytes_refl : (cs : Bytes) → same_bytes cs cs ≡ true
unfolding same_bytes
same_bytes_refl [] = refl
same_bytes_refl (c ∷ cs) = let e : (c == c) ≡ true = ground arith in rw (e, same_bytes_refl cs) refl

pub same_bytes-eq : (cs ds : Bytes) → same_bytes cs ds ≡ true → cs ≡ ds
unfolding same_bytes
same_bytes-eq [] [] h = refl
same_bytes-eq [] (d ∷ ds) h = cc
same_bytes-eq (c ∷ cs) [] h = cc
same_bytes-eq (c ∷ cs) (d ∷ ds) h = elim (Bool-cases (c == d)) [
  | inl e ↦
      let same : c ≡ d = ground arith in
      let rest = same_bytes-eq cs ds (rw e at h) in ap (λ x. x ∷ cs) same ∙ ap (λ x. d ∷ x) rest
  | inr e ↦ let h' : false ≡ true = rw e at h in cc
]

-- The test by the two ways it can go.
pub same_bytes-differ : (cs ds : Bytes) → cs ≢ ds → same_bytes cs ds ≡ false
same_bytes-differ cs ds ne = elim (Bool-cases (same_bytes cs ds)) [
  | inl e ↦ absurd (ne (same_bytes-eq cs ds e))
  | inr e ↦ e
]

pub same_bytes-sym : (cs ds : Bytes) → same_bytes cs ds ≡ false → same_bytes ds cs ≡ false
same_bytes-sym cs ds e =
    same_bytes-differ ds cs
      λ q. absurd (true_false (subst (λ x. same_bytes cs x ≡ true) (sym q) (same_bytes_refl cs)) e)
  where
    true_false : {b : Bool} → b ≡ true → ¬ (b ≡ false)
    true_false p k = cc

-- The order of std::string.
unfoldable pub bytes_lt : Bytes → Bytes → Bool
bytes_lt [] [] = false
bytes_lt [] (d ∷ ds) = true
bytes_lt (c ∷ cs) [] = false
bytes_lt (c ∷ cs) (d ∷ ds) = ltb c d || c == d && bytes_lt cs ds

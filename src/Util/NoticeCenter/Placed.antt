-- ===== src/Util/NoticeCenter/Placed.antt =====
-- The listeners of a dispatcher of src/Util/NoticeCenter.h in whatever order the multimap keeps them.
use mathlib.Core.List.{Permᴰ, head-eq_of_cons-eq, tail-eq_of_cons-eq, cons≢nil}
use mathlib.Core.List.Permᴰ
use ffzkit.Base.{
  ℕ, ◌≡◌, refl, sym, ◌∙◌, subst, inl, inr, false, List, [], ◌∷◌, ◌==◌, if◌then◌else◌, Bool-cases,
}
use ffzkit.Util.NoticeCenter.{Listener, Listeners, empty, erase_all, Place, IsPlacing}

same_nil {ℓ} : {A : Type ℓ} {l m : List A} → Permᴰ l m → m ≡ [] → l ≡ []
same_nil Permᴰ.nil e = refl
same_nil (Permᴰ.cons p d) e = absurd (cons≢nil e)
same_nil (Permᴰ.swap p q) e = absurd (cons≢nil e)
same_nil (Permᴰ.trans d f) e = same_nil d (same_nil f e)

pub same_one {ℓ} : {A : Type ℓ} {l m : List A} {x : A} → Permᴰ l m → m ≡ x ∷ [] → l ≡ x ∷ []
same_one Permᴰ.nil e = absurd (cons≢nil (sym e))
same_one (Permᴰ.cons {a} {b} {l₁ = ls} p d) e =
    let tail : ls ≡ [] = same_nil d (tail-eq_of_cons-eq e) in
    let head = p ∙ head-eq_of_cons-eq e in λ i. head i ∷ tail i
same_one (Permᴰ.swap p q) e = absurd (cons≢nil (tail-eq_of_cons-eq e))
same_one (Permᴰ.trans d f) e = same_one d (same_one f e)

module _ {ℓ} {F : Type ℓ} where
  pub erase_all-cons :
      (tag : ℕ) (x : ℕ × Listener F) (ls : Listeners F)
      → erase_all tag (x ∷ ls) ≡ (if x.0 == tag then erase_all tag ls else x ∷ erase_all tag ls)
  unfolding erase_all
  erase_all-cons tag (t, l) ls = refl

  cons_same :
      (tag : ℕ) (x : ℕ × Listener F) (ls ms : Listeners F)
      → Permᴰ (erase_all tag ls) (erase_all tag ms)
      → Permᴰ (erase_all tag (x ∷ ls)) (erase_all tag (x ∷ ms))
  cons_same tag x ls ms d = elim (Bool-cases (x.0 == tag)) [
    | inl e ↦ rw (erase_all-cons tag x ls, erase_all-cons tag x ms, e) d
    | inr e ↦ rw (erase_all-cons tag x ls, erase_all-cons tag x ms, e) (Permᴰ.cons refl d)
  ]

  swap_same :
      (tag : ℕ) (x y : ℕ × Listener F) (ls : Listeners F)
      → Permᴰ (erase_all tag (x ∷ y ∷ ls)) (erase_all tag (y ∷ x ∷ ls))
  swap_same tag x y ls = elim (Bool-cases (x.0 == tag)) [
    | inl e ↦ elim (Bool-cases (y.0 == tag)) [
      | inl f ↦
          rw
            (
              erase_all-cons tag x (y ∷ ls),
              erase_all-cons tag y (x ∷ ls),
              erase_all-cons tag x ls,
              erase_all-cons tag y ls,
              e,
              f,
            )
            (Permᴰ.refl (erase_all tag ls))
      | inr f ↦
          rw
            (
              erase_all-cons tag x (y ∷ ls),
              erase_all-cons tag y (x ∷ ls),
              erase_all-cons tag x ls,
              erase_all-cons tag y ls,
              e,
              f,
            )
            (Permᴰ.refl (y ∷ erase_all tag ls))
    ]
    | inr e ↦ elim (Bool-cases (y.0 == tag)) [
      | inl f ↦
          rw
            (
              erase_all-cons tag x (y ∷ ls),
              erase_all-cons tag y (x ∷ ls),
              erase_all-cons tag x ls,
              erase_all-cons tag y ls,
              e,
              f,
            )
            (Permᴰ.refl (x ∷ erase_all tag ls))
      | inr f ↦
          rw
            (
              erase_all-cons tag x (y ∷ ls),
              erase_all-cons tag y (x ∷ ls),
              erase_all-cons tag x ls,
              erase_all-cons tag y ls,
              e,
              f,
            )
            (Permᴰ.swap refl refl)
    ]
  ]

  pub erase_all-same :
      (tag : ℕ) {ls ms : Listeners F} → Permᴰ ls ms → Permᴰ (erase_all tag ls) (erase_all tag ms)
  erase_all-same tag Permᴰ.nil = Permᴰ.refl (erase_all tag [])
  erase_all-same tag (Permᴰ.cons {a} {b} {l₁ = ls} {l₂ = ms} p d) =
      subst (λ x. Permᴰ (erase_all tag (a ∷ ls)) (erase_all tag (x ∷ ms))) p
        (cons_same tag a ls ms (erase_all-same tag d))
  erase_all-same tag (Permᴰ.swap {a} {b} {a'} {b'} {l} p q) =
      subst (λ x. Permᴰ (erase_all tag (a ∷ b ∷ l)) (erase_all tag (x ∷ b' ∷ l))) q
        (subst (λ x. Permᴰ (erase_all tag (a ∷ b ∷ l)) (erase_all tag (b ∷ x ∷ l))) p
          (swap_same tag a b l))
  erase_all-same tag (Permᴰ.trans d f) = Permᴰ.trans (erase_all-same tag d) (erase_all-same tag f)

  pub empty-place :
      (place : Place F)
      → IsPlacing place
      → (x : ℕ × Listener F) (ls : Listeners F) → empty (place x ls) ≡ false
  empty-place place p x ls = filled (place x ls) (p x ls)
    where
      filled : (ms : Listeners F) → Permᴰ ms (x ∷ ls) → empty ms ≡ false
      filled [] d = absurd (cons≢nil (same_nil (Permᴰ.symm d) refl))
      filled (m ∷ ms) d = refl

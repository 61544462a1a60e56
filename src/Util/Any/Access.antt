-- ===== src/Util/Any/Access.antt =====
-- What `get` of Any, src/Util/util.h, can read.
use ffzkit.Base.{
  ℕ, ◌≡◌, ◌≢◌, ◌↔◌, refl, ap, ◌∙◌, inl, inr, Bool, true, false, not, ◌&&◌, none, some, ◌==◌,
  if◌then◌else◌, arith, Bool-cases, Option-cases,
}
use ffzkit.Util.Any.{Any, got, throws, undefined, reset, set, set_shared, move, is, get}

not_both : (b : Bool) → b ≡ true → ¬ (b ≡ false)
not_both b e k = cc

module _ {ℓ} {V : Type ℓ} where
  is-type : (type : ℕ) (a : Any V) → is type a ≡ true → a.type ≡ some type
  unfolding is
  is-type type a e = elim (Option-cases a.type) [
    | inl n ↦ let e' : false ≡ true = rw (is, n) at e in cc
    | inr (t, n) ↦
        let e' : (type == t) ≡ true = rw (is, n) at e in
        let same : t ≡ type = ground arith in n ∙ ap some same
  ]

  type-is : (type : ℕ) (a : Any V) → a.type ≡ some type → is type a ≡ true
  unfolding is
  type-is type a e = let same : (type == type) ≡ true = ground arith in rw (is, e) same

  -- A safe `get` never reads a value as one of another type: it returns the value exactly if there
  -- is one and it was set with this type, and else throws.
  pub get_safe :
      (type : ℕ) (a : Any V)
      → (get true type a ≢ undefined)
        × ((v : V) → (get true type a ≡ got v) ↔ ((a.data_ ≡ some v) × (a.type ≡ some type)))
  unfolding get
  get_safe type a = elim (Option-cases a.data_) [
    | inl n ↦ rw (get, n) ((λ e. cc), λ v. ((λ e. cc), λ h. cc))
    | inr (w, n) ↦ elim (Bool-cases (is type a)) [
      | inl k ↦
          rw (get, n, k) ((λ e. cc), λ v. ((λ e. (cc, is-type type a k)), λ h. let p = h.0 in cc))
      | inr k ↦
          rw (get, n, k)
            (
              (λ e. cc),
              λ v. (
                (λ e. cc),
                λ h. let yes = type-is type a h.1 in absurd (not_both (is type a) yes k),
              ),
            )
    ]
  ]

  -- What was set is what `get` returns, safe or not, also behind a move; what the move leaves behind
  -- throws, though it still says that it is of the type. Behind a null pointer `get` throws too.
  pub get-set :
      (safe : Bool) (type : ℕ) (v : V) (a : Any V)
      → let (to, from) = move (set type v a) in
        (get safe type (set type v a) ≡ got v)
        × (get safe type to ≡ got v)
        × (get safe type from ≡ throws)
        × (is type from ≡ true)
        × (get safe type (set_shared type none a) ≡ throws)
  unfolding get set move is set_shared reset
  get-set safe type v a =
      let same : (type == type) ≡ true = ground arith in
      rw same (read safe, read safe, refl, refl, refl)
    where
      read : (safe : Bool) → (if safe && not true then throws else got v) ≡ got v
      read true = refl
      read false = refl

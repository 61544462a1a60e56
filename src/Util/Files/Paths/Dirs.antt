-- ===== src/Util/Files/Paths/Dirs.antt =====
-- A directory as the names that lead to it, the innermost first, and what a path makes of them:
-- the meaning of parentDir and of the loop of absolutePath.
use mathlib.Core.List.{append_assoc, append-nil}
use ffzkit.Base.{
  Bytes, same_bytes, ℕ, ◌+◌, ◌-◌, ◌≡◌, ◌≢◌, refl, sym, ap, ◌∙◌, Bool, true, false, not, ◌&&◌, ◌||◌,
  List, [], ◌∷◌, ◌++◌, Option, none, some, leb, ◌==◌, if◌then◌else◌, length, length-append, take,
  take-length, All, Bool-cases, Option-cases, inl, inr, subst, some-inj, arith,
}
use ffzkit.Util.Text.Find.{rfind_byte}
use ffzkit.Util.Files.Paths.{
  slash, dot, dots, back, pop_back, up_to_slash, parent_dir, goes_on, gone_up, next_dir, walk,
}

abbrev pub NoSlash : Bytes → Type 0
NoSlash = All λ c. c ≢ b'/'

-- A name of a directory or a file.
pub record IsName (d : Bytes) : Type 0 where
  pub no_slash : NoSlash d
  pub filled : (length d == 0 || same_bytes d dot) ≡ false
  pub no_parent : same_bytes d dots ≡ false

abbrev pub render : List Bytes → Bytes
render [] = []
render (d ∷ st) = render st ++ (d ++ slash)

abbrev pub EndsSlash : Bytes → Type 0
EndsSlash s = (y : Bytes) × (s ≡ y ++ slash)

pub back-append : (x : Bytes) (c : ℕ) (n : Bytes) → back (x ++ c ∷ n) ≡ back (c ∷ n)
unfolding back
back-append [] c n = refl
back-append (a ∷ []) c n = refl
back-append (a ∷ b ∷ x) c n = back-append (b ∷ x) c n

-- A name does not end in a separator.
pub back-name :
    (c : ℕ) (n : Bytes) → NoSlash (c ∷ n) → (b : ℕ) × (back (c ∷ n) ≡ some b) × (b ≢ b'/')
unfolding back
back-name c [] h = (c, refl, h.0)
back-name c (d ∷ n) h = back-name d n h.1

pub back-snoc : (a : Bytes) (c : ℕ) → back (a ++ c ∷ []) ≡ some c
unfolding back
back-snoc [] c = refl
back-snoc (x ∷ []) c = refl
back-snoc (x ∷ y ∷ a) c = back-snoc (y ∷ a) c

pub pop_back-snoc : (a : Bytes) (c : ℕ) → pop_back (a ++ c ∷ []) ≡ a
pop_back-snoc a c =
    let n : length (a ++ c ∷ []) - 1 ≡ length a = omega (arith, length-append a (c ∷ [])) in
    rw n (take-length a (c ∷ []))

pub render-EndsSlash :
    (root : Bytes) (st : List Bytes) → EndsSlash root → EndsSlash (root ++ render st)
render-EndsSlash root [] (y, e) = (y, rw append-nil e)
render-EndsSlash root (d ∷ st) h = (root ++ (render st ++ d), simp append_assoc)

take_snoc : (a b : Bytes) (c : ℕ) → take (length a + 1) (a ++ c ∷ b) ≡ a ++ c ∷ []
take_snoc a b c =
    let n : length a + 1 ≡ length (a ++ c ∷ []) = omega (arith, length-append a (c ∷ [])) in
    let e : a ++ c ∷ b ≡ (a ++ c ∷ []) ++ b = sym (append_assoc a (c ∷ []) b) in
    rw (n, e) (take-length (a ++ c ∷ []) b)

parent_dir-snoc : (z : Bytes) → parent_dir (z ++ slash) ≡ some (up_to_slash z)
unfolding parent_dir
parent_dir-snoc z =
    rw (parent_dir, back-snoc z b'/') (ap (λ l. some (up_to_slash l)) (pop_back-snoc z b'/'))

up_to_slash_lem : (y d : Bytes) → NoSlash d → up_to_slash (y ++ b'/' ∷ d) ≡ y ++ slash
unfolding up_to_slash
up_to_slash_lem y d h = rw (up_to_slash, rfind_byte b'/' y d h) (take_snoc y d b'/')

-- The parent of a directory below one that ends in a separator.
pub parent_dir_lem :
    (base d : Bytes) → EndsSlash base → NoSlash d → parent_dir (base ++ (d ++ slash)) ≡ some base
parent_dir_lem base d (y, e) h =
    let s : base ++ (d ++ slash) ≡ (y ++ b'/' ∷ d) ++ slash = rw e (simp append_assoc) in
    ap parent_dir s ∙ parent_dir-snoc (y ++ b'/' ∷ d) ∙ ap some (up_to_slash_lem y d h ∙ sym e)

-- The names after a path is followed; `none` means that it leads above the directory where the
-- names begin.
abbrev pub enter : Bytes → List Bytes → Option (List Bytes)
enter d st =
    if length d == 0 || same_bytes d dot
    then some st
    else if same_bytes d dots
    then elim st [ [] ↦ none | _ ∷ out ↦ some out ]
    else some (d ∷ st)

unfoldable pub resolve : List Bytes → List Bytes → Option (List Bytes)
resolve [] st = some st
resolve (d ∷ ds) st = elim (enter d st) [ none ↦ none | some st' ↦ resolve ds st' ]

-- Which branch a name takes.
data Entered (d : Bytes) (st st' : List Bytes) : Type 0 where
  stays : (length d == 0 || same_bytes d dot) ≡ true → st' ≡ st → Entered d st st'
  leaves :
      (x : Bytes)
      → (length d == 0 || same_bytes d dot) ≡ false
      → same_bytes d dots ≡ true
      → st ≡ x ∷ st'
      → Entered d st st'
  goes_in :
      (length d == 0 || same_bytes d dot) ≡ false
      → same_bytes d dots ≡ false
      → st' ≡ d ∷ st
      → Entered d st st'

enter-cases :
    (d : Bytes) (st : List Bytes) {st' : List Bytes} → enter d st ≡ some st' → Entered d st st'
enter-cases d st e = elim (Bool-cases (length d == 0 || same_bytes d dot)) [
  | inl p ↦ stays p (sym (some-inj (rw p at e)))
  | inr p ↦ elim (Bool-cases (same_bytes d dots)) [
    | inl q ↦ up st p q (rw (p, q) at e)
    | inr q ↦ goes_in p q (sym (some-inj (rw (p, q) at e)))
  ]
]
  where
    up :
        (st : List Bytes) {st' : List Bytes}
        → (length d == 0 || same_bytes d dot) ≡ false
        → same_bytes d dots ≡ true
        → elim st [ [] ↦ none | _ ∷ out ↦ some out ] ≡ some st'
        → Entered d st st'
    up [] p q e = absurd (cc)
    up (x ∷ st) p q e = leaves x p q (ap (λ l. x ∷ l) (some-inj e))

pub enter-IsName :
    (d : Bytes) (st : List Bytes) {st' : List Bytes}
    → NoSlash d
    → All IsName st
    → enter d st ≡ some st'
    → All IsName st'
enter-IsName d st h n e = elim (enter-cases d st e) [
  | stays p q ↦ subst (All IsName) (sym q) n
  | leaves x p q r ↦ (let m : All IsName (x ∷ _) = subst (All IsName) r n in m.1)
  | goes_in p q r ↦
      subst (All IsName) (sym r) (record { no_slash = h; filled = p; no_parent = q }, n)
]

pub resolve-IsName :
    (ds st : List Bytes) {st' : List Bytes}
    → All NoSlash ds
    → All IsName st
    → resolve ds st ≡ some st'
    → All IsName st'
unfolding resolve
resolve-IsName [] st h n e = subst (All IsName) (some-inj e) n
resolve-IsName (d ∷ ds) st h n e = elim (Option-cases (enter d st)) [
  | inl q ↦ absurd (ground arith)
  | inr (s, q) ↦ resolve-IsName ds s h.1 (enter-IsName d st h.0 n q) (ground arith)
]

-- One round of the loop, at a directory that is at `st` below `base`.
module _ (can : Bool) (root base : Bytes) (base_ends : EndsSlash base)
    (inside : (d : Bytes) (st : List Bytes)
      → (not can && leb (length (base ++ render (d ∷ st))) (length root)) ≡ false) where
  pub next_dir-enter :
      (d : Bytes) (st : List Bytes) {st' : List Bytes}
      → All IsName st
      → enter d st ≡ some st'
      → next_dir can root (base ++ render st) d ≡ goes_on (base ++ render st')
  unfolding next_dir
  next_dir-enter d st {st'} n e = elim (enter-cases d st e) [
    | stays p q ↦ rw (next_dir, p, q) refl
    | leaves x p q r ↦
        let m : All IsName (x ∷ _) = subst (All IsName) r n in
        rw (r, next_dir, p, q, inside x st')
          (ap gone_up (
            ap parent_dir (sym (append_assoc base (render st') (x ++ slash)))
            ∙ parent_dir_lem (base ++ render st') x (render-EndsSlash base st' base_ends)
                m.0.no_slash))
    | goes_in p q r ↦
        rw (next_dir, p, q, r) (ap goes_on (append_assoc base (render st) (d ++ slash)))
  ]

  pub walk-resolve :
      (ds st : List Bytes) {st' : List Bytes}
      → All NoSlash ds
      → All IsName st
      → resolve ds st ≡ some st'
      → walk can root ds (base ++ render st) ≡ goes_on (base ++ render st')
  unfolding walk resolve
  walk-resolve [] st h n e = ap (λ s. goes_on (base ++ render s)) (some-inj e)
  walk-resolve (d ∷ ds) st {st'} h n e = elim (Option-cases (enter d st)) [
    | inl q ↦ absurd (ground arith)
    | inr (s, q) ↦
        let rest : resolve ds s ≡ some st' = rw (resolve, q) at e in
        rw (walk, next_dir-enter d st n q) (walk-resolve ds s h.1 (enter-IsName d st h.0 n q) rest)
  ]

-- ===== src/Util/Files/Paths/Confined.antt =====
-- Where absolutePath can lead.
use mathlib.Core.List.{append_assoc, append-nil}
use ffzkit.Base.{
  Bytes, same_bytes, ℕ, suc, ◌≤◌, ◌≡◌, ◌≢◌, ◌⊎◌, inl, inr, refl, sym, ap, ◌∙◌, Bool, true, false,
  not, ◌&&◌, ◌||◌, List, [], ◌∷◌, ◌++◌, Option, none, some, leb, ◌==◌, if◌then◌else◌, length,
  length-append, All, Bool-cases, ==_iff, Option-cases, some-inj, arith,
}
use ffzkit.Util.Text.Find.{Occurs}
use ffzkit.Util.Text.Split.{split, Pieces, none_left, whole, skip, piece, split-Pieces}
use ffzkit.Util.Files.Paths.{
  slash, dot, dots, back, returns, goes_on, next_dir, walk, ok, finish, below, start_from,
  absolute_path,
}
use ffzkit.Util.Files.Paths.Dirs.{
  NoSlash, IsName, render, EndsSlash, render-EndsSlash, back-snoc, pop_back-snoc, enter, resolve,
  resolve-IsName, enter-IsName, next_dir-enter, walk-resolve,
}

-- The pieces that `split` makes at the separators hold none.
no_occurrence-NoSlash : (s : Bytes) → ((i : ℕ) → Occurs slash s i → length s ≤ i) → NoSlash s
no_occurrence-NoSlash [] h = tt
no_occurrence-NoSlash (c ∷ cs) h = (
  λ e. absurd (omega (arith, h 0 ([], cs, ap (λ x. x ∷ cs) e, refl))),
  no_occurrence-NoSlash cs
      (λ i (b, a, cut, l). omega (arith, h (suc i) (c ∷ b, a, ap (λ x. c ∷ x) cut, ap suc l))),
)

Occurs-append : (s p t : Bytes) {i : ℕ} → s ≡ p ++ t → Occurs slash p i → Occurs slash s i
Occurs-append s p t e (b, a, cut, l) = (b, a ++ t, e ∙ ap (λ x. x ++ t) cut ∙ simp append_assoc, l)

pub Pieces-NoSlash : {s : Bytes} {ps : List Bytes} → Pieces slash s ps → All NoSlash ps
Pieces-NoSlash none_left = tt
Pieces-NoSlash (whole {s = s} ne never) = (no_occurrence-NoSlash s (λ i o. absurd (never i o)), tt)
Pieces-NoSlash (skip e r) = Pieces-NoSlash r
Pieces-NoSlash (piece {s = s} {p = p} {rest = rest} ne e first r) = (
  no_occurrence-NoSlash p (λ i o. first i (Occurs-append s p (slash ++ rest) e o)),
  Pieces-NoSlash r,
)

back-some : (s : Bytes) → s ≢ [] → (b : ℕ) × (back s ≡ some b)
unfolding back
back-some [] ne = absurd (ne refl)
back-some (c ∷ []) ne = (c, refl)
back-some (c ∷ d ∷ s) ne = back-some (d ∷ s) (λ e. cc)

-- A result that is the root, or reached from it through names only: no name is `..`.
abbrev pub IsBelow : Bytes → Bytes → Type 0
IsBelow root r =
    (ds : List Bytes) × All IsName ds × ((r ≡ root ++ render ds) ⊎ (r ++ slash ≡ root ++ render ds))

finish_file :
    (path y : Bytes) {b : ℕ}
    → back path ≡ some b
    → (b == b'/') ≡ false
    → finish path (goes_on (y ++ slash)) ≡ ok y
unfolding finish
finish_file path y e q = rw (finish, e, q, back-snoc y b'/') (ap ok (pop_back-snoc y b'/'))

module _ (root : Bytes) (root_ends : EndsSlash root) where
  longer :
      (d : Bytes) (st : List Bytes)
      → (not false && leb (length (root ++ render (d ∷ st))) (length root)) ≡ false
  longer d st = ground (
    arith,
    length-append root (render st ++ (d ++ slash)),
    length-append (render st) (d ++ slash),
    length-append d slash,
  )

  next_dir-out :
      (d : Bytes) (st : List Bytes)
      → enter d st ≡ none
      → next_dir false root (root ++ render st) d ≡ returns root
  unfolding next_dir
  next_dir-out d st e = elim (Bool-cases (length d == 0 || same_bytes d dot)) [
    | inl p ↦ absurd (let q = rw p at e in cc)
    | inr p ↦ elim (Bool-cases (same_bytes d dots)) [
      | inl q ↦ at_root st (rw (p, q) at e) p q
      | inr q ↦ absurd (let t = rw (p, q) at e in cc)
    ]
  ]
    where
      at_root :
          (st : List Bytes)
          → ◌≡◌ {A = Option (List Bytes)} (elim st [ [] ↦ none | _ ∷ out ↦ some out ]) none
          → (length d == 0 || same_bytes d dot) ≡ false
          → same_bytes d dots ≡ true
          → next_dir false root (root ++ render st) d ≡ returns root
      at_root [] e p q = rw (next_dir, p, q) (ground (arith, length-append root []))
      at_root (x ∷ st) e p q = absurd (cc)

  -- The loop when the path leads above the root, and the caller may not go there.
  walk-out :
      (ds st : List Bytes)
      → All NoSlash ds
      → All IsName st
      → resolve ds st ≡ none
      → walk false root ds (root ++ render st) ≡ returns root
  unfolding walk resolve
  walk-out [] st h n e = absurd (cc)
  walk-out (d ∷ ds) st h n e = elim (Option-cases (enter d st)) [
    | inl q ↦ rw (walk, next_dir-out d st q) refl
    | inr (s, q) ↦
        let rest : resolve ds s ≡ none = rw (resolve, q) at e in
        rw (walk, next_dir-enter false root root root_ends longer d st n q)
          (walk-out ds s h.1 (enter-IsName d st h.0 n q) rest)
  ]

  pub finish_lem :
      (path : Bytes) (ds : List Bytes)
      → path ≢ []
      → (r : Bytes) × (finish path (goes_on (root ++ render ds)) ≡ ok r)
        × ((r ≡ root ++ render ds) ⊎ (r ++ slash ≡ root ++ render ds))
  unfolding finish
  finish_lem path ds ne =
      let (b, e) = back-some path ne in
      let (y, f) = render-EndsSlash root ds root_ends in
      elim (Bool-cases (b == b'/')) [
        | inl q ↦ (root ++ render ds, rw (finish, e, q) refl, inl refl)
        | inr q ↦ (y, ap (λ s. finish path (goes_on s)) f ∙ finish_file path y e q, inr (sym f))
      ]

  -- The loop from the root on, and what follows it.
  walked-IsBelow :
      (path : Bytes) (ds : List Bytes)
      → path ≢ []
      → All NoSlash ds
      → (r : Bytes) × (finish path (walk false root ds root) ≡ ok r) × IsBelow root r
  unfolding finish
  walked-IsBelow path ds ne h =
      let start : root ++ render [] ≡ root = append-nil root in
      elim (Option-cases (resolve ds [])) [
        | inl q ↦
            let w : walk false root ds root ≡ returns root =
              ap (walk false root ds) (sym start) ∙ walk-out ds [] h tt q in
            (root, rw w refl, ([], tt, inl (sym start)))
        | inr (st, q) ↦
            let w : walk false root ds root ≡ goes_on (root ++ render st) =
              ap (walk false root ds) (sym start)
              ∙ walk-resolve false root root root_ends longer ds [] h tt q in
            let (r, f, k) = finish_lem path st ne in
            (r, ap (finish path) w ∙ f, (st, resolve-IsName ds [] h tt q, k))
      ]

-- The directory, with a separator at its end.
abbrev pub root_by : Option ℕ → Bytes → Bytes
root_by none s = s
root_by (some b) s = if b == b'/' then s else s ++ slash

unfoldable pub root_of : Bytes → Bytes
unfolding back
root_of s = root_by (back s) s

-- `front()` is that byte.
abbrev pub front_is : ℕ → Bytes → Bool
front_is b [] = false
front_is b (c ∷ cs) = c == b

-- The directory that a path is read from.
abbrev pub current_of : Bytes → Bytes → Bytes
current_of exe_dir [] = exe_dir
current_of exe_dir (c ∷ cs) = c ∷ cs

back-last : (s : Bytes) {b : ℕ} → back s ≡ some b → (y : Bytes) × (s ≡ y ++ b ∷ [])
unfolding back
back-last [] e = absurd (cc)
back-last (c ∷ []) e = ([], ap (λ x. x ∷ []) (some-inj e))
back-last (c ∷ d ∷ s) e = let (y, f) = back-last (d ∷ s) e in (c ∷ y, ap (λ x. c ∷ x) f)

root_of-EndsSlash : (s : Bytes) {b : ℕ} → back s ≡ some b → EndsSlash (root_of s)
unfolding root_of
root_of-EndsSlash s {b} e = elim (Bool-cases (b == b'/')) [
  | inl q ↦
      let (y, f) = back-last s e in
      (y, rw (root_of, e, q) (f ∙ ap (λ x. y ++ x ∷ []) ((==_iff b b'/').0 q)))
  | inr q ↦ (s, rw (root_of, e, q) refl)
]

pub below_lem :
    (can : Bool) (p : ℕ) (ps : Bytes) (c : ℕ) (cs : Bytes) {b : ℕ} {ds : List Bytes}
    → back (c ∷ cs) ≡ some b
    → split (p ∷ ps) slash ≡ some ds
    → below (p ∷ ps) can (c ∷ cs)
      ≡ finish (p ∷ ps) (walk can (root_of (c ∷ cs)) ds (root_of (c ∷ cs)))
unfolding below root_of
below_lem can p ps c cs {b} {ds} e made =
    let full : (length (p ∷ ps) == 0) ≡ false = ground arith in
    rw (below, root_of, full, e, made) refl

below-IsBelow :
    (path : Bytes) (c : ℕ) (cs : Bytes)
    → (r : Bytes) × (below path false (c ∷ cs) ≡ ok r) × IsBelow (root_of (c ∷ cs)) r
unfolding below root_of
below-IsBelow [] c cs =
    let (b, e) = back-some (c ∷ cs) (λ q. cc) in
    elim (Bool-cases (b == b'/')) [
      | inl q ↦ (c ∷ cs, refl, ([], tt, inl (rw (append-nil, root_of, e, q) refl)))
      | inr q ↦ (c ∷ cs, refl, ([], tt, inr (rw (append-nil, root_of, e, q) refl)))
    ]
below-IsBelow (p ∷ ps) c cs =
    let (b, e) = back-some (c ∷ cs) (λ q. cc) in
    let (ds, made, pieces) = split-Pieces slash (omega arith) (p ∷ ps) (λ q. cc) in
    let (r, f, k) =
      walked-IsBelow (root_of (c ∷ cs)) (root_of-EndsSlash (c ∷ cs) e) (p ∷ ps) ds (λ q. cc)
        (Pieces-NoSlash pieces) in
    (r, below_lem false p ps c cs e made ∙ f, k)

-- A caller that may not leave the directory it starts from never does: for a current directory that
-- does not begin with a dot, or the directory of the program where it is empty, and for any path,
-- the result of absolutePath is that directory, or leads from it through names none of which is
-- `.` or `..` or holds a separator. And there is a result.
pub absolute_path_confined :
    (fuel : ℕ) (exe_dir path current : Bytes)
    → front_is b'.' current ≡ false
    → current_of exe_dir current ≢ []
    → (r : Bytes) × (absolute_path (suc fuel) exe_dir path current false ≡ ok r)
      × IsBelow (root_of (current_of exe_dir current)) r
unfolding absolute_path start_from
absolute_path_confined fuel [] path [] h ne = absurd (ne refl)
absolute_path_confined fuel (e ∷ es) path [] h ne = below-IsBelow path e es
absolute_path_confined fuel exe_dir path (c ∷ cs) h ne =
    rw (absolute_path, h) (below-IsBelow path c cs)

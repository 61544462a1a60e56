-- ===== src/Util/Files/Paths/Resolved.antt =====
-- What absolutePath makes of a path for a caller that may go up, and where it does not come back.
use ffzkit.Base.{
  ◌≢◌, false, inl, inr, ◌==◌, Bytes, ℕ, zero, suc, ◌≡◌, ◌⊎◌, refl, sym, ap, ◌∙◌, Bool, true, List,
  [], ◌∷◌, ◌++◌, some, All, some-inj, subst, arith,
}
use mathlib.Core.List.{append_assoc}
use ffzkit.Util.Text.Split.{split, Pieces, split-Pieces}
use ffzkit.Util.Files.Paths.{
  slash, back, pop_back, goes_on, finish, ok, ran_out, walk, start_from, absolute_path,
}
use ffzkit.Util.Files.Paths.Dirs.{
  back-append, back-name, pop_back-snoc, IsName, render, render-EndsSlash, back-snoc, resolve,
  walk-resolve,
}
use ffzkit.Util.Files.Paths.Confined.{root_of, below_lem, finish_lem, Pieces-NoSlash}

-- The directory of the names, written with a separator at its end or without.
abbrev pub IsWritten : List Bytes → Bytes → Type 0
IsWritten st cs = (cs ≡ render st) ⊎ (cs ++ slash ≡ render st)

name_end : (x d : Bytes) → IsName d → (b : ℕ) × (back (x ++ (b'/' ∷ d)) ≡ some b) × (b ≢ b'/')
name_end x [] n = absurd (let bad : true ≡ false = n.filled in cc)
name_end x (c ∷ d) n =
    let (b, e, ne) = back-name c d n.no_slash in
    (b, back-append x b'/' (c ∷ d) ∙ back-append slash c d ∙ e, ne)

no_slash_end :
    (cs : Bytes) (st : List Bytes)
    → All IsName st
    → cs ++ slash ≡ render st
    → (b : ℕ) × (back (slash ++ cs) ≡ some b) × (b ≢ b'/')
no_slash_end [] [] n e = cc
no_slash_end (c ∷ cs) [] n e = cc
no_slash_end cs (d ∷ st) n e =
    let e' : cs ++ slash ≡ (render st ++ d) ++ slash = e ∙ sym (append_assoc (render st) d slash) in
    let cut : cs ≡ render st ++ d =
      sym (pop_back-snoc cs b'/') ∙ ap pop_back e' ∙ pop_back-snoc (render st ++ d) b'/' in
    let (y, f) = render-EndsSlash slash st ([], refl) in
    let whole : slash ++ cs ≡ y ++ (slash ++ d) =
      ap (λ x. slash ++ x) cut ∙ ap (λ x. x ++ d) f ∙ append_assoc y slash d in
    let (b, g, ne) = name_end y d n.0 in (b, ap back whole ∙ g, ne)

root_of-IsWritten :
    (cs : Bytes) (st : List Bytes)
    → All IsName st
    → IsWritten st cs
    → (b : ℕ) × (back (slash ++ cs) ≡ some b) × (root_of (slash ++ cs) ≡ slash ++ render st)
unfolding root_of
root_of-IsWritten cs st n (inl e) =
    let (y, f) = render-EndsSlash slash st ([], refl) in
    let b : back (slash ++ cs) ≡ some b'/' =
      ap (λ x. back (slash ++ x)) e ∙ ap back f ∙ back-snoc y b'/' in
    (b'/', b, rw (root_of, b) (ap (λ x. slash ++ x) e))
root_of-IsWritten cs st n (inr e) =
    let (b, f, ne) = no_slash_end cs st n e in
    let other : (b == b'/') ≡ false = ground arith in
    (b, f, rw (root_of, f, other) (ap (λ x. slash ++ x) e))

-- A caller that may go up reaches what the path means: from the absolute directory of the names
-- `st`, written with a separator at its end or without, a path whose pieces do not lead above "/" leads
-- to the directory or file of the names that `resolve` leaves, which drops `.`, empty names and each
-- `..` with the name in front of it. A result for a path to a file has no separator at its end, so that it
-- is empty for "/".
pub absolute_path-resolve :
    (fuel : ℕ) (exe_dir : Bytes) (p : ℕ) (ps cs : Bytes) (ds st : List Bytes) {st' : List Bytes}
    → split (p ∷ ps) slash ≡ some ds
    → All IsName st
    → IsWritten st cs
    → resolve ds st ≡ some st'
    → (r : Bytes) × (absolute_path (suc fuel) exe_dir (p ∷ ps) (slash ++ cs) true ≡ ok r)
      × ((r ≡ slash ++ render st') ⊎ (r ++ slash ≡ slash ++ render st'))
unfolding absolute_path start_from
absolute_path-resolve fuel exe_dir p ps cs ds st {st'} made n w e =
    let (ds', made', found) = split-Pieces slash (omega arith) (p ∷ ps) (λ q. cc) in
    let pieces : Pieces slash (p ∷ ps) ds =
      subst (Pieces slash (p ∷ ps)) (some-inj (sym made' ∙ made)) found in
    let (last, b, root) = root_of-IsWritten cs st n w in
    let walked : walk true (slash ++ render st) ds (slash ++ render st)
        ≡ goes_on (slash ++ render st') =
      walk-resolve true (slash ++ render st) slash ([], refl) (λ d s. refl) ds st
        (Pieces-NoSlash pieces) n e in
    let (r, g, k) = finish_lem slash ([], refl) (p ∷ ps) st' (λ q. cc) in
    (
      r,
      below_lem true p ps b'/' cs b made
          ∙ ap (λ s. finish (p ∷ ps) (walk true s ds s)) root
          ∙ ap (finish (p ∷ ps)) walked
          ∙ g,
      k,
    )

-- Where the directory of the program is relative, as when exePath fails, and the current directory
-- too, absolutePath never returns: no depth of the recursion is enough.
pub absolute_path_endless :
    (fuel : ℕ) (es path cs : Bytes) (can : Bool)
    → absolute_path fuel (b'.' ∷ es) path (b'.' ∷ cs) can ≡ ran_out
unfolding absolute_path start_from
absolute_path_endless zero es path cs can = refl
absolute_path_endless (suc fuel) es path cs can =
    ap (start_from path can) (absolute_path_endless fuel es (b'.' ∷ cs) es true)

-- ===== src/Util/Files/Delete/Within.antt =====
-- What delete_file can touch.
use mathlib.Core.List.{append_assoc, append-nil}
use ffzkit.Base.{
  All, ◌≢◌, false, Bytes, ℕ, zero, suc, ◌≡◌, refl, sym, ap, ◌∙◌, inl, inr, Bool, List, [], ◌∷◌,
  ◌++◌, Option, some, ◌==◌, Bool-cases, Option-cases, some-inj, arith,
}
use ffzkit.Util.Files.Paths.{is_special_dir, back}
use ffzkit.Util.Files.Paths.Dirs.{NoSlash, IsName, back-append, back-name}
use ffzkit.Util.Files.Scan.{strip, child, Run, ended}
use ffzkit.Util.Files.Scan.Shown.{state_of, state_of-and_then}
use ffzkit.Util.Files.Delete.{remove_file, delete_all, delete_file_l}

-- The names, each behind a separator.
abbrev pub joined : List Bytes → Bytes
joined [] = []
joined (n ∷ ns) = (b'/' ∷ n) ++ joined ns

-- `q` is `p`, or stands below it: names that are neither empty, `.` nor `..` lead from `p` to it.
abbrev pub IsUnder : Bytes → Bytes → Type 0
IsUnder p q = (ns : List Bytes) × (q ≡ p ++ joined ns) × All IsName ns

joined-append : (ms ns : List Bytes) → joined (ms ++ ns) ≡ joined ms ++ joined ns
joined-append [] ns = refl
joined-append (m ∷ ms) ns =
    ap (λ x. (b'/' ∷ m) ++ x) (joined-append ms ns)
    ∙ sym (append_assoc (b'/' ∷ m) (joined ms) (joined ns))

All-append : (ms ns : List Bytes) → All IsName ms → All IsName ns → All IsName (ms ++ ns)
All-append [] ns h k = k
All-append (m ∷ ms) ns h k = (h.0, All-append ms ns h.1 k)

IsUnder-trans : (p q r : Bytes) → IsUnder p q → IsUnder q r → IsUnder p r
IsUnder-trans p q r (a, e, h) (b, f, k) = (
  a ++ b,
  f
      ∙ ap (λ x. x ++ joined b) e
      ∙ append_assoc p (joined a) (joined b)
      ∙ ap (λ x. p ++ x) (sym (joined-append a b)),
  All-append a b h k,
)

-- What readdir gives: a name that is not empty and has no separator.
abbrev pub IsEntry : Bytes → Type 0
IsEntry n = (n ≢ []) × NoSlash n

IsEntry-IsName : (n : Bytes) → IsEntry n → is_special_dir n ≡ false → IsName n
unfolding is_special_dir
IsEntry-IsName [] h e = absurd (h.0 refl)
IsEntry-IsName (c ∷ n) h e = record {
  no_slash = h.1;
  filled = ground arith;
  no_parent = ground arith;
}

-- The path of an entry has no separator at its end.
strip-child : (p n : Bytes) → IsEntry n → strip (child p n) ≡ some (child p n)
unfolding strip
strip-child p [] h = absurd (h.0 refl)
strip-child p (c ∷ n) h =
    let (b, e, ne) = back-name c n h.1 in
    let last : back (child p (c ∷ n)) ≡ some b =
      back-append p b'/' (c ∷ n) ∙ back-append (b'/' ∷ []) c n ∙ e in
    let other : (b == b'/') ≡ false = ground arith in rw (strip, last, other) refl

child-IsUnder :
    (p n q : Bytes)
    → IsEntry n
    → is_special_dir n ≡ false
    → strip (child p n) ≡ some q
    → IsUnder p q
child-IsUnder p n q h e f =
    let same : child p n ≡ q = some-inj (sym (strip-child p n h) ∙ f) in
    (n ∷ [], sym same ∙ ap (λ x. p ++ (b'/' ∷ x)) (sym (append-nil n)), (IsEntry-IsName n h e, tt))

module _ {ℓ κ} {S : Type ℓ} (entries : Bytes → S → Option (List Bytes)) (is_dir : Bytes → S → Bool)
    (rmdir remove unlink : Bytes → S → Bool × S) (P : S → Type κ) where
  -- The system's calls keep `P` at the path and below it.
  pub record Keeps (p : Bytes) : Type (ℓ ⊔ κ) where
    pub rmdir_keeps : (q : Bytes) (s : S) → IsUnder p q → P s → P (rmdir q s).1
    pub remove_keeps : (q : Bytes) (s : S) → IsUnder p q → P s → P (remove q s).1
    pub unlink_keeps : (q : Bytes) (s : S) → IsUnder p q → P s → P (unlink q s).1

  Keeps-under : (p q : Bytes) → IsUnder p q → Keeps p → Keeps q
  Keeps-under p q u k = record {
    rmdir_keeps = λ r s v. k.rmdir_keeps r s (IsUnder-trans p q r u v);
    remove_keeps = λ r s v. k.remove_keeps r s (IsUnder-trans p q r u v);
    unlink_keeps = λ r s v. k.unlink_keeps r s (IsUnder-trans p q r u v);
  }

  here : (p : Bytes) → IsUnder p p
  here p = ([], sym (append-nil p), tt)

  remove_file-keeps :
      (p : Bytes) (s : S) → Keeps p → P s → P (remove_file entries is_dir rmdir remove unlink p s).1
  unfolding remove_file
  remove_file-keeps p s k h = elim (Bool-cases (remove p s).0) [
    | inl e ↦ rw (remove_file, e) (k.remove_keeps p s (here p) h)
    | inr e ↦
        rw (remove_file, e)
          (k.unlink_keeps p (remove p s).1 (here p) (k.remove_keeps p s (here p) h))
  ]

  delete_all-keeps :
      (sub : Bytes → S → Run (Bool × S)) (p : Bytes) (ns : List Bytes) (s : S)
      → All IsEntry ns
      → ((n : Bytes) (u : S)
          → IsEntry n
          → is_special_dir n ≡ false
          → P u
          → P (state_of (sub (child p n) u)).1)
      → P s
      → P (state_of (delete_all entries is_dir rmdir remove unlink sub p ns s)).1
  unfolding delete_all
  delete_all-keeps sub p [] s w k h = h
  delete_all-keeps sub p (n ∷ ns) s w k h = elim (Bool-cases (is_special_dir n)) [
    | inl e ↦ rw (delete_all, e) (delete_all-keeps sub p ns s w.1 k h)
    | inr e ↦
        rw (delete_all, e)
          (state_of-and_then (λ r. P r.1) (sub (child p n) s)
            (λ r. delete_all entries is_dir rmdir remove unlink sub p ns r.1) (k n s w.0 e h)
            (λ r m. delete_all-keeps sub p ns r.1 w.1 k m))
  ]

  -- delete_file, without `del_empty_dir`, touches nothing but the path it is given and what stands
  -- below it by names that are neither empty, `.` nor `..`: whatever the system's calls keep at those paths
  -- it keeps, also when it breaks off; where the names that readdir gives are not empty and have no
  -- separator.
  pub delete_file_within :
      (fuel : ℕ) (path : Bytes) (s : S)
      → ((p : Bytes) (u : S) (ns : List Bytes) → entries p u ≡ some ns → All IsEntry ns)
      → ((p : Bytes) → strip path ≡ some p → Keeps p)
      → P s
      → P (state_of (delete_file_l entries is_dir rmdir remove unlink fuel path s)).1
  unfolding delete_file_l
  delete_file_within zero path s w k h = h
  delete_file_within (suc fuel) path s w k h = elim (Option-cases (strip path)) [
    | inl e ↦ rw (delete_file_l, e) h
    | inr (p, e) ↦ elim (Bool-cases (is_dir p s)) [
      | inr d ↦ rw (delete_file_l, e, d) (remove_file-keeps p s (k p e) h)
      | inl d ↦ elim (Option-cases (entries p s)) [
        | inl f ↦ rw (delete_file_l, e, d, f) ((k p e).rmdir_keeps p s (here p) h)
        | inr (ns, f) ↦
            rw (delete_file_l, e, d, f)
              (state_of-and_then (λ r. P r.1)
                (delete_all entries is_dir rmdir remove unlink
                  (delete_file_l entries is_dir rmdir remove unlink fuel) p ns s)
                (λ r. ended (rmdir p r.1))
                (delete_all-keeps (delete_file_l entries is_dir rmdir remove unlink fuel) p ns s
                  (w p s ns f)
                  (λ n u v d.
                    delete_file_within fuel (child p n) u w
                      (λ q g. Keeps-under p q (child-IsUnder p n q v d g) (k p e)))
                  h)
                (λ r m. (k p e).rmdir_keeps p r.1 (here p) m))
      ]
    ]
  ]

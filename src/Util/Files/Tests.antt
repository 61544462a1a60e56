-- ===== src/Util/Files/Tests.antt =====
-- Paths, and a small tree: the directory "/a" with a hidden file, a file "f" and an empty directory
-- "d". The state is the list of the paths that were touched or shown, the latest first.
use ffzkit.Base.{
  not, ◌==◌, ◌&&◌, Bool-cases, inl, inr, Bytes, codes, same_bytes, ◌≡◌, ◌⊎◌, refl, Bool, true,
  false, List, [], ◌∷◌, ◌++◌, Option, none, some, if◌then◌else◌, ◌||◌, sym, subst, some-inj, All,
  arith,
}
use ffzkit.Util.Text.Split.{split}
use ffzkit.Util.Files.Paths.{
  slash, dot, dots, back, is_special_dir, parent_dir, ok, absolute_path, exe_dir, exe_name, Outcome,
}
use ffzkit.Util.Files.Paths.Dirs.{resolve}
use ffzkit.Util.Files.Paths.Confined.{IsBelow, root_of, absolute_path_confined}
use ffzkit.Util.Files.Paths.Dirs.{NoSlash}
use ffzkit.Util.Files.Paths.Resolved.{absolute_path-resolve}
use ffzkit.Util.Files.Create.{create_path}
use ffzkit.Util.Files.Create.Prefixes.{make_each, prefixes, create_path-each}
use ffzkit.Util.Files.Scan.{ended, scan_dir, strip, child}
use ffzkit.Util.Files.Scan.Shown.{state_of}
use ffzkit.Util.Files.Delete.{delete_file_l}
use ffzkit.Util.Files.Delete.Within.{IsEntry, IsUnder, delete_file_within}

abbrev exe : Bytes
exe = codes "/opt/x/"

names :
    (exe_dir (codes "/opt/x/run") ≡ exe)
    × (exe_name (codes "/opt/x/run") ≡ codes "run")
    × (parent_dir (codes "/a/b/") ≡ some (codes "/a/"))
unfolding exe_dir exe_name parent_dir back
names = (refl, refl, refl)

paths :
    (absolute_path 2 exe (codes "../y/./z") [] true ≡ ok (codes "/opt/y/z"))
    × (absolute_path 2 exe (codes "a/../../../etc") (codes "/srv") false ≡ ok (codes "/srv/"))
    × (absolute_path 2 exe (codes "b/") (codes "./s") false ≡ ok (codes "/opt/x/s/b/"))
unfolding absolute_path
paths = (refl, refl, refl)

-- `..` at "/" leaves an empty path, for whose `back` nothing is defined.
above_root : absolute_path 2 exe (codes "..") (codes "/") true ≡ Outcome.undefined
unfolding absolute_path
above_root = refl

absolute_path_confined_example :
    (r : Bytes) × (absolute_path 2 exe (codes "a/../../../etc") (codes "/srv") false ≡ ok r)
    × IsBelow (root_of (codes "/srv")) r
absolute_path_confined_example =
    absolute_path_confined 1 exe (codes "a/../../../etc") (codes "/srv") refl (λ e. cc)

absolute_path-resolve_example :
    (r : Bytes) × (absolute_path 2 exe (codes "../y") (codes "/x") true ≡ ok r)
    × ((r ≡ codes "/y/") ⊎ (r ++ slash ≡ codes "/y/"))
unfolding split resolve same_bytes
absolute_path-resolve_example =
    absolute_path-resolve 1 exe b'.' (codes "./y") (codes "x") (dots ∷ codes "y" ∷ [])
      (codes "x" ∷ []) refl
      (record { no_slash = (λ e. omega (arith, e), tt); filled = refl; no_parent = refl }, tt)
      (inr refl) refl

-- Every directory is missing, and mkdir fails at "b/".
abbrev make : Bytes → List Bytes → Option (List Bytes)
make dir made = if same_bytes dir (codes "/a/b/") then none else some (dir ∷ made)

create_path-each_example :
    create_path (λ d s. false) make (codes "/a/b/c/f") []
    ≡ make_each (λ d s. false) make (codes "/a/" ∷ codes "/a/b/" ∷ codes "/a/b/c/" ∷ []) []
unfolding prefixes
create_path-each_example = create_path-each (λ d s. false) make (codes "/a/b/c/f") []

abbrev tree : Bytes → List Bytes → Option (List Bytes)
tree path s =
    if same_bytes path (codes "/a")
    then some (dot ∷ dots ∷ codes ".h" ∷ codes "f" ∷ codes "d" ∷ [])
    else if same_bytes path (codes "/a/d")
    then some (dot ∷ codes ".k" ∷ [])
    else none

abbrev is_tree : Bytes → List Bytes → Bool
is_tree path s = same_bytes path (codes "/a") || same_bytes path (codes "/a/d")

abbrev shows : Bytes → Bool → List Bytes → Bool × List Bytes
shows path d s = (true, path ∷ s)

-- The hidden file of the subdirectory is not shown, though hidden files were asked for.
scanned :
    scan_dir tree is_tree shows 3 (codes "/a/") true true []
    ≡ ended (codes "/a/d" ∷ codes "/a/f" ∷ codes "/a/.h" ∷ [])
unfolding scan_dir same_bytes is_special_dir
scanned = refl

abbrev touch : Bytes → List Bytes → Bool × List Bytes
touch path s = (true, path ∷ s)

deleted :
    delete_file_l tree is_tree touch touch touch 3 (codes "/a") []
    ≡ ended (true, codes "/a" ∷ codes "/a/d" ∷ codes "/a/d/.k" ∷ codes "/a/f" ∷ codes "/a/.h" ∷ [])
unfolding delete_file_l same_bytes is_special_dir
deleted = refl

-- Each path that is shown is an entry of a directory, and is neither `.` nor `..`.
abbrev Entry : Bytes → Type 0
Entry q = (p : Bytes) × (n : Bytes) × (q ≡ child p n) × (is_special_dir n ≡ false)

no_slash : Bytes → Bool
no_slash [] = true
no_slash (c ∷ s) = not (c == b'/') && no_slash s

no_slash-NoSlash : (s : Bytes) → no_slash s ≡ true → NoSlash s
unfolding no_slash
no_slash-NoSlash [] e = tt
no_slash-NoSlash (c ∷ s) e = (ground arith, no_slash-NoSlash s (ground arith))

are_entries : List Bytes → Bool
are_entries [] = true
are_entries ([] ∷ ns) = false
are_entries ((c ∷ n) ∷ ns) = no_slash (c ∷ n) && are_entries ns

are_entries-IsEntry : (ns : List Bytes) → are_entries ns ≡ true → All IsEntry ns
unfolding are_entries
are_entries-IsEntry [] e = tt
are_entries-IsEntry ([] ∷ ns) e = cc
are_entries-IsEntry ((c ∷ n) ∷ ns) e =
    ((λ q. cc, no_slash-NoSlash (c ∷ n) (ground arith)), are_entries-IsEntry ns (ground arith))

tree-entries : (p : Bytes) (u ns : List Bytes) → tree p u ≡ some ns → All IsEntry ns
unfolding are_entries no_slash
tree-entries p u ns e = elim (Bool-cases (same_bytes p (codes "/a"))) [
  | inl x ↦
      subst (All IsEntry) (some-inj (rw x at e))
        (are_entries-IsEntry (dot ∷ dots ∷ codes ".h" ∷ codes "f" ∷ codes "d" ∷ []) refl)
  | inr x ↦ elim (Bool-cases (same_bytes p (codes "/a/d"))) [
    | inl y ↦
        subst (All IsEntry) (some-inj (rw (x, y) at e))
          (are_entries-IsEntry (dot ∷ codes ".k" ∷ []) refl)
    | inr y ↦ absurd (let f = rw (x, y) at e in cc)
  ]
]

delete_file_within_example :
    All
      (IsUnder (codes "/a"))
      (state_of (delete_file_l tree is_tree touch touch touch 3 (codes "/a") [])).1
unfolding strip
delete_file_within_example =
    delete_file_within tree is_tree touch touch touch (All (IsUnder (codes "/a"))) 3 (codes "/a") []
      tree-entries
      (λ p e. record {
        rmdir_keeps = λ q s u h. (subst (λ x. IsUnder x q) (sym (some-inj e)) u, h);
        remove_keeps = λ q s u h. (subst (λ x. IsUnder x q) (sym (some-inj e)) u, h);
        unlink_keeps = λ q s u h. (subst (λ x. IsUnder x q) (sym (some-inj e)) u, h);
      })
      tt

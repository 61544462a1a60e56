-- ===== src/Util/Files/Paths.antt =====
-- is_special_dir, parentDir and absolutePath of src/Util/File.cpp, and exeDir and exeName of
-- src/Util/util.cpp.
pub mod Dirs
pub mod Confined
pub mod Resolved
use ffzkit.Base.{
  Bytes, same_bytes, ℕ, zero, suc, ◌+◌, ◌-◌, Bool, true, false, not, ◌&&◌, ◌||◌, List, [], ◌∷◌,
  ◌++◌, Option, none, some, leb, ◌==◌, if◌then◌else◌, length, take, drop,
}
use ffzkit.Util.Text.Find.{rfind}
use ffzkit.Util.Text.Split.{split}

abbrev pub slash : Bytes
slash = b'/' ∷ []

abbrev pub dot : Bytes
dot = b'.' ∷ []

abbrev pub dots : Bytes
dots = b'.' ∷ b'.' ∷ []

unfoldable pub is_special_dir : Bytes → Bool
unfolding same_bytes
is_special_dir path = same_bytes path dot || same_bytes path dots

-- `back()`; `none` is an empty string, for which the call is undefined.
unfoldable pub back : Bytes → Option ℕ
back [] = none
back (c ∷ []) = some c
back (c ∷ d ∷ s) = back (d ∷ s)

abbrev pub pop_back : Bytes → Bytes
pop_back s = take (length s - 1) s

-- The last separator and what stands in front of it.
unfoldable pub up_to_slash : Bytes → Bytes
unfolding rfind
up_to_slash s = elim (rfind slash s) [ none ↦ s | some pos ↦ take (pos + 1) s ]

unfoldable pub parent_dir : Bytes → Option Bytes
unfolding back up_to_slash
parent_dir path = elim (back path) [
  | none ↦ none
  | some c ↦ some (up_to_slash (if c == b'/' then pop_back path else path))
]

-- What the loop of absolutePath comes to: the `return` in it, the end of it, or a call of `back`
-- that is undefined.
pub data Walk : Type 0 where
  returns : Bytes → Walk
  goes_on : Bytes → Walk
  undefined : Walk

abbrev pub gone_up : Option Bytes → Walk
gone_up none = undefined
gone_up (some dir) = goes_on dir

-- One round.
unfoldable pub next_dir : Bool → Bytes → Bytes → Bytes → Walk
unfolding same_bytes parent_dir
next_dir can_access_parent root current dir =
    if length dir == 0 || same_bytes dir dot
    then goes_on current
    else if same_bytes dir dots
    then if not can_access_parent && leb (length current) (length root)
      then returns root
      else gone_up (parent_dir current)
    else goes_on (current ++ (dir ++ slash))

unfoldable pub walk : Bool → Bytes → List Bytes → Bytes → Walk
unfolding next_dir
walk can_access_parent root [] current = goes_on current
walk can_access_parent root (dir ∷ dirs) current =
    elim (next_dir can_access_parent root current dir) [
      | returns r ↦ returns r
      | goes_on c ↦ walk can_access_parent root dirs c
      | undefined ↦ undefined
    ]

-- `ran_out` means that the recursion, or the loop of `split`, needs more fuel.
pub data Outcome : Type 0 where
  ok : Bytes → Outcome
  undefined : Outcome
  ran_out : Outcome

-- Behind the loop: a path to a file gets no separator at its end.
unfoldable pub finish : Bytes → Walk → Outcome
unfolding back
finish path (Walk.returns root) = ok root
finish path Walk.undefined = Outcome.undefined
finish path (Walk.goes_on current) = elim (back path) [
  | none ↦ Outcome.undefined
  | some b ↦ if b == b'/' then ok current else elim (back current) [
    | none ↦ Outcome.undefined
    | some c ↦ ok (if c == b'/' then pop_back current else current)
  ]
]

-- From the current directory on.
unfoldable pub below : Bytes → Bool → Bytes → Outcome
unfolding back finish walk split
below path can_access_parent [] = if length path == 0 then ok [] else Outcome.undefined
below path can_access_parent (c ∷ cs) =
    if length path == 0 then ok (c ∷ cs) else elim (back (c ∷ cs)) [
      | none ↦ Outcome.undefined
      | some b ↦
          let root = if b == b'/' then c ∷ cs else c ∷ cs ++ slash in
          elim (split path slash) [
            | none ↦ ran_out
            | some dirs ↦ finish path (walk can_access_parent root dirs root)
          ]
    ]

unfoldable pub start_from : Bytes → Bool → Outcome → Outcome
unfolding below
start_from path can_access_parent (ok dir) = below path can_access_parent dir
start_from path can_access_parent Outcome.undefined = Outcome.undefined
start_from path can_access_parent ran_out = ran_out

-- `exe_dir` is the result of exeDir.
unfoldable pub absolute_path : ℕ → Bytes → Bytes → Bytes → Bool → Outcome
unfolding start_from
absolute_path zero exe_dir path current_path can_access_parent = ran_out
absolute_path (suc fuel) exe_dir path [] can_access_parent =
    start_from path can_access_parent (ok exe_dir)
absolute_path (suc fuel) exe_dir path (c ∷ cs) can_access_parent =
    let current = absolute_path fuel exe_dir (c ∷ cs) exe_dir true in
    start_from path can_access_parent (if c == b'.' then current else ok (c ∷ cs))

-- `exe_path` is the result of exePath; `rfind(…) + 1` is 0 where nothing is found.
abbrev pub name_at : Option ℕ → ℕ
name_at none = 0
name_at (some pos) = pos + 1

unfoldable pub exe_dir : Bytes → Bytes
unfolding rfind
exe_dir exe_path = take (name_at (rfind slash exe_path)) exe_path

unfoldable pub exe_name : Bytes → Bytes
unfolding rfind
exe_name exe_path = drop (name_at (rfind slash exe_path)) exe_path

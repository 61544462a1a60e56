-- ===== src/Util/Files/Scan.antt =====
-- scanDir of src/Util/File.cpp. The calls of the system
-- are parameters: `entries` is opendir and the calls of readdir behind it, whose names are taken to
-- be those that were there when the directory was opened, and `none` is a directory that cannot be
-- opened; `is_dir` is File::is_dir, which only opens and closes it.
pub mod Shown
use ffzkit.Base.{
  Bytes, ℕ, zero, suc, ◌+◌, Bool, true, false, not, ◌&&◌, ◌||◌, List, [], ◌∷◌, ◌++◌, Option, none,
  some, ◌==◌, if◌then◌else◌,
}
use ffzkit.Util.Files.Paths.{slash, is_special_dir, back, pop_back, parent_dir}

-- The path with no separator at its end; `none` is a call of `back` that is undefined.
unfoldable pub strip : Bytes → Option Bytes
unfolding back
strip path = elim (back path) [
  | none ↦ none
  | some b ↦ some (if b == b'/' then pop_back path else path)
]

abbrev pub is_hidden : Bytes → Bool
is_hidden [] = false
is_hidden (c ∷ cs) = c == b'.'

abbrev pub child : Bytes → Bytes → Bytes
child path name = path ++ (slash ++ name)

-- What a run comes to, with the state in which it ends, breaks off or runs out of fuel.
pub data Run {ℓ} (T : Type ℓ) : Type ℓ where
  ended : T → Run T
  undefined : T → Run T
  ran_out : T → Run T

unfoldable pub and_then {ℓ} : {T : Type ℓ} → Run T → (T → Run T) → Run T
and_then (ended t) k = k t
and_then (undefined t) k = undefined t
and_then (ran_out t) k = ran_out t

module _ {ℓ} {T : Type ℓ} (entries : Bytes → T → Option (List Bytes)) (is_dir : Bytes → T → Bool)
    (cb : Bytes → Bool → T → Bool × T) where
  -- Behind the call of `cb`: the end, or a subdirectory and then the other entries.
  unfoldable pub behind_cb : Bool × T → Bool → (T → Run T) → (T → Run T) → Run T
  unfolding and_then
  behind_cb (false, t) deeper sub rest = ended t
  behind_cb (true, t) deeper sub rest = and_then (if deeper then sub t else ended t) rest

  unfoldable pub scan_entries : (Bytes → T → Run T) → Bytes → Bool → Bool → List Bytes → T → Run T
  unfolding is_special_dir behind_cb
  scan_entries sub path enter show [] t = ended t
  scan_entries sub path enter show (n ∷ ns) t =
      let rest = scan_entries sub path enter show ns in
      let p = child path n in
      let dir = is_dir p t in
      if is_special_dir n || (not show && is_hidden n)
      then rest t
      else behind_cb (cb p dir t) (dir && enter) (sub p) rest

  -- The call for a subdirectory leaves the last argument out, which is `false` then.
  unfoldable pub scan_dir : ℕ → Bytes → Bool → Bool → T → Run T
  unfolding strip scan_entries
  scan_dir zero path enter show t = ran_out t
  scan_dir (suc fuel) path enter show t =
      let sub = λ (q : Bytes). scan_dir fuel q enter false in
      elim (strip path) [
        | none ↦ undefined t
        | some p ↦ elim (entries p t) [
          | none ↦ ended t
          | some ns ↦ scan_entries sub p enter show ns t
        ]
      ]

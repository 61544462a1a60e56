-- ===== src/Util/Files/Delete.antt =====
-- delete_file_l, File::delete_file, isEmptyDir and File::deleteEmptyDir of src/Util/File.cpp, over the
-- scan. `rmdir`, `remove` and `unlink` are the calls of the system, which say whether they succeed.
pub mod Within
pub mod Emptiness
use ffzkit.Base.{
  Bytes, ℕ, zero, suc, Bool, true, false, not, ◌&&◌, ◌||◌, List, [], ◌∷◌, Option, none, some,
  if◌then◌else◌,
}
use ffzkit.Util.Files.Paths.{is_special_dir, parent_dir}
use ffzkit.Util.Files.Scan.{strip, child, Run, ended, undefined, ran_out, and_then, scan_dir}

module _ {ℓ} {S : Type ℓ} where
  -- What follows a call whose result is not read, and what follows the test of isEmptyDir.
  pub behind_delete : Run (Bool × S) → (S → Run S) → Run S
  behind_delete (ended r) k = k r.1
  behind_delete (undefined r) k = undefined r.1
  behind_delete (ran_out r) k = ran_out r.1

  pub behind_test : Run (Bool × S) → (S → Run S) → Run S
  behind_test (ended (true, s)) k = k s
  behind_test (ended (false, s)) k = ended s
  behind_test (undefined r) k = undefined r.1
  behind_test (ran_out r) k = ran_out r.1

  -- The result of a call is kept, and the state is that of the call behind it.
  pub with_result : Bool → Run S → Run (Bool × S)
  with_result b (ended s) = ended (b, s)
  with_result b (undefined s) = undefined (b, s)
  with_result b (ran_out s) = ran_out (b, s)

module _ {ℓ} {S : Type ℓ} (entries : Bytes → S → Option (List Bytes)) (is_dir : Bytes → S → Bool)
    (rmdir remove unlink : Bytes → S → Bool × S) where
  unfoldable pub remove_file : Bytes → S → Bool × S
  remove_file path s = let r = remove path s in if r.0 then (true, r.1) else unlink path r.1

  unfoldable pub delete_all : (Bytes → S → Run (Bool × S)) → Bytes → List Bytes → S → Run (Bool × S)
  unfolding is_special_dir and_then
  delete_all sub path [] s = ended (true, s)
  delete_all sub path (n ∷ ns) s =
      let rest = delete_all sub path ns in
      if is_special_dir n then rest s else and_then (sub (child path n) s) (λ r. rest r.1)

  -- The call of File::delete_file for an entry leaves its last arguments out, and is this function
  -- again.
  unfoldable pub delete_file_l : ℕ → Bytes → S → Run (Bool × S)
  unfolding strip delete_all remove_file and_then
  delete_file_l zero path s = ran_out (false, s)
  delete_file_l (suc fuel) path s =
      let sub = delete_file_l fuel in
      elim (strip path) [
        | none ↦ undefined (false, s)
        | some p ↦
            if is_dir p s
            then elim (entries p s) [
              | none ↦ ended (rmdir p s)
              | some ns ↦ and_then (delete_all sub p ns s) (λ r. ended (rmdir p r.1))
            ]
            else ended (remove_file p s)
      ]

  -- The callback of isEmptyDir stops the scan at the first entry.
  unfoldable pub is_empty_dir : ℕ → Bytes → S → Run (Bool × S)
  unfolding scan_dir
  is_empty_dir fuel path s =
      scan_dir (λ p t. entries p t.1) (λ p t. is_dir p t.1) (λ p d t. (false, (false, t.1))) fuel
        path true true (true, s)

  -- `fuel` bounds the directories that are gone up through, and `depth` those below each.
  unfoldable pub delete_empty_dir : ℕ → ℕ → Bytes → Bool → S → Run S
  unfolding behind_test behind_delete is_empty_dir delete_file_l parent_dir
  delete_empty_dir zero depth dir backtrace s = ran_out s
  delete_empty_dir (suc fuel) depth dir backtrace s =
      let up : S → Run S = λ u. elim (parent_dir dir) [
        | none ↦ undefined u
        | some parent ↦ delete_empty_dir fuel depth parent true u
      ] in
      if is_dir dir s
      then behind_test (is_empty_dir depth dir s) (λ t.
        behind_delete (delete_file_l depth dir t) (λ u. if backtrace then up u else ended u))
      else ended s

  pub behind_file : Run (Bool × S) → Bool → (S → Run S) → Run (Bool × S)
  unfolding with_result
  behind_file (ended (true, s)) true k = with_result true (k s)
  behind_file (ended (true, s)) false k = ended (true, s)
  behind_file (ended (false, s)) del_empty_dir k = ended (false, s)
  behind_file (undefined r) del_empty_dir k = undefined r
  behind_file (ran_out r) del_empty_dir k = ran_out r

  pub delete_file : ℕ → ℕ → Bytes → Bool → Bool → S → Run (Bool × S)
  unfolding behind_file delete_file_l delete_empty_dir parent_dir
  delete_file fuel depth path del_empty_dir backtrace s =
      behind_file (delete_file_l depth path s) del_empty_dir (λ t. elim (parent_dir path) [
        | none ↦ undefined t
        | some parent ↦ delete_empty_dir fuel depth parent backtrace t
      ])

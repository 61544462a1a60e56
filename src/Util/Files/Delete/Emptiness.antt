-- ===== src/Util/Files/Delete/Emptiness.antt =====
-- What isEmptyDir finds, and what deleteEmptyDir leaves alone.
use ffzkit.Base.{
  Bytes, ℕ, suc, ◌≡◌, refl, inl, inr, Bool, true, false, ◌&&◌, List, [], ◌∷◌, Option, none, some,
  Bool-cases, Option-cases,
}
use ffzkit.Util.Files.Paths.{is_special_dir}
use ffzkit.Util.Files.Scan.{strip, Run, ended, behind_cb, scan_entries, scan_dir}
use ffzkit.Util.Files.Delete.{behind_test, is_empty_dir, delete_empty_dir}

-- Every name is `.` or `..`; a directory that cannot be opened has no names.
unfoldable pub all_special : List Bytes → Bool
all_special [] = true
all_special (n ∷ ns) = is_special_dir n && all_special ns

abbrev pub is_void : Option (List Bytes) → Bool
is_void none = true
is_void (some ns) = all_special ns

module _ {ℓ} {S : Type ℓ} (entries : Bytes → S → Option (List Bytes)) (is_dir : Bytes → S → Bool)
    (rmdir remove unlink : Bytes → S → Bool × S) where
  scan_entries-void :
      (sub : Bytes → Bool × S → Run (Bool × S)) (p : Bytes) (ns : List Bytes) (s : S)
      → scan_entries
          (λ q (t : Bool × S). entries q t.1)
          (λ q (t : Bool × S). is_dir q t.1)
          (λ q d (t : Bool × S). (false, (false, t.1)))
          sub
          p
          true
          true
          ns
          (true, s)
        ≡ ended (all_special ns, s)
  unfolding scan_entries behind_cb all_special
  scan_entries-void sub p [] s = refl
  scan_entries-void sub p (n ∷ ns) s = elim (Bool-cases (is_special_dir n)) [
    | inl e ↦ rw (scan_entries, all_special, e) (scan_entries-void sub p ns s)
    | inr e ↦ rw (scan_entries, all_special, e) refl
  ]

  -- isEmptyDir says whether the directory cannot be opened or has no entry but `.` and `..`, hidden
  -- ones counted, and it looks no deeper; a path that is not empty has a result.
  pub is_empty_dir_lem :
      (depth : ℕ) (path p : Bytes) (s : S)
      → strip path ≡ some p
      → is_empty_dir entries is_dir rmdir remove unlink (suc depth) path s
        ≡ ended (is_void (entries p s), s)
  unfolding is_empty_dir scan_dir
  is_empty_dir_lem depth path p s e = elim (Option-cases (entries p s)) [
    | inl f ↦ rw (is_empty_dir, scan_dir, e, f) refl
    | inr (ns, f) ↦
        rw (is_empty_dir, scan_dir, e, f)
          (scan_entries-void
            (λ q.
              scan_dir (λ q (t : Bool × S). entries q t.1) (λ q (t : Bool × S). is_dir q t.1)
                (λ q d (t : Bool × S). (false, (false, t.1))) depth q true false)
            p ns s)
  ]

  -- deleteEmptyDir does nothing at a directory that holds anything, and goes no further up from it.
  pub delete_empty_dir_keeps :
      (fuel depth : ℕ) (dir p : Bytes) (ns : List Bytes) (backtrace : Bool) (s : S)
      → strip dir ≡ some p
      → entries p s ≡ some ns
      → all_special ns ≡ false
      → delete_empty_dir entries is_dir rmdir remove unlink (suc fuel) (suc depth) dir backtrace s
        ≡ ended s
  unfolding delete_empty_dir behind_test
  delete_empty_dir_keeps fuel depth dir p ns backtrace s e f h = elim (Bool-cases (is_dir dir s)) [
    | inl d ↦ rw (delete_empty_dir, d, is_empty_dir_lem depth dir p s e, f, h) refl
    | inr d ↦ rw (delete_empty_dir, d) refl
  ]

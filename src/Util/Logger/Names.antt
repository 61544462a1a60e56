-- ===== src/Util/Logger/Names.antt =====
-- The names of the log files, and what FileChannel of src/Util/logger.cpp makes of those that it finds when
-- it is made. The date of a time and sscanf are parameters.
mod Tests
pub mod Ordered
pub mod Hundred
pub mod Found
use ffzkit.Base.{
  Bytes, codes, ℕ, zero, suc, ◌+◌, ◌/◌, ◌%◌, Bool, true, false, not, ◌&&◌, List, [], ◌∷◌, ◌++◌,
  Option, none, some, ltb, ◌==◌, if◌then◌else◌, drop,
}
use ffzkit.Util.Text.Find.{start_with, end_with, rfind}
use ffzkit.Util.Files.Paths.{back}
use ffzkit.Util.Logger.FileChannel.{Channel, emplace}

-- What the name takes of a struct tm: the year, the month and the day as they are printed.
pub record Date : Type 0 where
  pub year : ℕ
  pub month : ℕ
  pub day : ℕ

-- The decimal digits of a number, of which an int has no more than ten.
unfoldable pub digits : ℕ → ℕ → Bytes
digits zero n = []
digits (suc fuel) n =
    let rest = digits fuel (n / 10) in
    if ltb n 10 then (48 + n) ∷ [] else rest ++ (48 + n % 10) ∷ []

-- `%d` and `%02d`.
unfoldable pub dec : ℕ → Bytes
unfolding digits
dec n = digits 10 n

unfoldable pub dec2 : ℕ → Bytes
unfolding dec
dec2 n = if ltb n 10 then b'0' ∷ dec n else dec n

-- The name of the index-th file of a date.
unfoldable pub log_name : Date → ℕ → Bytes
unfolding dec dec2
log_name t index =
    dec t.year
    ++ (b'-' ∷ (dec2 t.month ++ (b'-' ∷ (dec2 t.day ++ (b'_' ∷ (dec2 index ++ codes ".log"))))))

unfoldable pub get_log_file_path : (ℕ → Date) → Bytes → ℕ → ℕ → Bytes
unfolding log_name
get_log_file_path local_time dir second index = dir ++ log_name (local_time second) index

-- What stands behind the last separator.
unfoldable pub get_file_name : Bytes → Bytes
unfolding rfind
get_file_name path = elim (rfind (b'/' ∷ []) path) [ none ↦ path | some pos ↦ drop (suc pos) path ]

-- The directory of a channel ends with a separator; the last byte of an empty one is not there, and
-- what the code makes of that is not defined.
unfoldable pub with_slash : Bytes → Option Bytes
unfolding back
with_slash dir = elim (back dir) [
  | none ↦ none
  | some c ↦ some (if c == b'/' then dir else dir ++ (b'/' ∷ []))
]

-- The callback of the scan collects the files whose names end with ".log".
unfoldable pub collect : List (Bytes × Bool) → List Bytes → List Bytes
unfolding end_with emplace
collect [] files = files
collect ((path, is_dir) ∷ shown) files =
    collect shown (if not is_dir && end_with path (codes ".log") then emplace path files else files)

unfoldable pub greater_index : ℕ → Option ℕ → ℕ
greater_index index none = index
greater_index index (some found) = if ltb found index then index else found

module _ (scan_index : Bytes → Option ℕ) (prefix : Bytes) where
  -- The index that sscanf reads from the name, if it reads all four numbers.
  unfoldable pub index_of : Bytes → Option ℕ
  unfolding get_file_name start_with
  index_of path =
      if start_with (get_file_name path) prefix then scan_index (get_file_name path) else none

  -- The greatest index of the files of today.
  unfoldable pub last_index : List Bytes → ℕ → ℕ
  unfolding index_of greater_index
  last_index [] index = index
  last_index (path ∷ files) index = last_index files (greater_index index (index_of path))

  -- FileChannel::FileChannel, on what scanDir has shown of the directory.
  unfoldable pub create_channel : List (Bytes × Bool) → Channel
  unfolding collect last_index
  create_channel shown =
      let files = collect shown [] in
      record {
        files = files;
        path = [];
        can_write = false;
        index = last_index files 0;
        last_day = none;
        last_check_time = 0;
        max_day = 30;
        max_size = 128;
        max_count = 30;
        deleted = [];
      }

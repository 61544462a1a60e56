-- ===== src/Util/Logger/FileChannel.antt =====
-- FileChannel of src/Util/logger.h and logger.cpp: a log file for each day and each slice of it, and
-- the deletion of old ones. Parameters are the day of a time and of a file's name, the name of a
-- file, its size, and whether it can be opened.
mod Tests
pub mod Clean
use ffzkit.Base.{
  Bytes, same_bytes, bytes_lt, ℕ, zero, suc, ◌+◌, ◌*◌, Bool, true, false, List, [], ◌∷◌, ◌++◌,
  Option, none, some, ltb, ◌==◌, if◌then◌else◌, length,
}

pub record Channel : Type 0 where
  -- `_log_file_map`, in the order of the names.
  pub files : List Bytes
  pub path : Bytes
  pub can_write : Bool
  pub index : ℕ
  -- `none` is the -1 at the start.
  pub last_day : Option ℕ
  pub last_check_time : ℕ
  pub max_day : ℕ
  pub max_size : ℕ
  pub max_count : ℕ
  -- The files that were deleted.
  pub deleted : List Bytes

-- `emplace` of a std::set.
unfoldable pub emplace : Bytes → List Bytes → List Bytes
unfolding same_bytes bytes_lt
emplace f [] = f ∷ []
emplace f (g ∷ gs) =
    let rest = emplace f gs in
    if same_bytes g f then g ∷ gs else if bytes_lt f g then f ∷ g ∷ gs else g ∷ rest

abbrev pub cons_removed : Bytes → List Bytes × List Bytes → List Bytes × List Bytes
cons_removed f (removed, kept) = (f ∷ removed, kept)

-- The loop over the days and the loop over the number: what they delete, and what is left.
pub drop_old : (Bytes → ℕ) → ℕ → ℕ → List Bytes → List Bytes × List Bytes
drop_old day_of today max_day [] = ([], [])
drop_old day_of today max_day (f ∷ fs) =
    let rest = drop_old day_of today max_day fs in
    if ltb today (day_of f + max_day) then ([], f ∷ fs) else cons_removed f rest

pub drop_many : Bytes → ℕ → List Bytes → List Bytes × List Bytes
unfolding same_bytes
drop_many path max_count [] = ([], [])
drop_many path max_count (f ∷ fs) =
    let rest = drop_many path max_count fs in
    if ltb max_count (length (f ∷ fs))
    then if same_bytes f path then ([], f ∷ fs) else cons_removed f rest
    else ([], f ∷ fs)

module _ (day_of : Bytes → ℕ) (get_day : ℕ → ℕ) (file_path : ℕ → ℕ → Bytes) (size_of : Bytes → ℕ)
    (opens : Bytes → Bool) where
  pub clean : ℕ → Channel → Channel
  unfolding drop_old drop_many
  clean today s =
      let old = drop_old day_of today s.max_day s.files in
      let many = drop_many s.path s.max_count old.1 in
      record s { files = many.1; deleted = s.deleted ++ (old.0 ++ many.0) }

  -- `today` is the day on which `clean` is called.
  pub change_file : ℕ → ℕ → Channel → Channel
  unfolding emplace clean
  change_file today second s =
      let log_file = file_path second s.index in
      clean today (record s {
        index = s.index + 1;
        files = emplace log_file s.files;
        path = log_file;
        can_write = opens log_file;
      })

  pub check_size : ℕ → ℕ → Channel → Channel
  unfolding change_file
  check_size today second s =
      let sized =
        if ltb (s.max_size * 1024 * 1024) (size_of s.path) then change_file today second s else s in
      if ltb (s.last_check_time + 60) second then record sized { last_check_time = second } else s

  abbrev pub new_day : Option ℕ → ℕ → Bool
  new_day none day = true
  new_day (some last) day = if last == day then false else true

  abbrev pub first_index : Option ℕ → ℕ → ℕ
  first_index none index = index
  first_index (some last) index = 0

  -- FileChannel::write up to the call of FileChannelBase::write, which is made if `can_write`.
  pub write : ℕ → ℕ → Channel → Channel
  unfolding change_file check_size
  write today second s =
      let day = get_day second in
      if new_day s.last_day day
      then change_file today second
          (record s { index = first_index s.last_day s.index; last_day = some day })
      else check_size today second s

  -- setMaxDay, setFileMaxSize and setFileMaxCount.
  abbrev pub at_least_one : ℕ → ℕ
  at_least_one n = if ltb 1 n then n else 1

  abbrev pub set_max_day : ℕ → Channel → Channel
  set_max_day n s = record s { max_day = at_least_one n }

  abbrev pub set_file_max_size : ℕ → Channel → Channel
  set_file_max_size n s = record s { max_size = at_least_one n }

  abbrev pub set_file_max_count : ℕ → Channel → Channel
  set_file_max_count n s = record s { max_count = at_least_one n }

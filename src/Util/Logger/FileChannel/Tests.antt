-- ===== src/Util/Logger/FileChannel/Tests.antt =====
-- A file is named by its day; at most two files and three days are kept.
use ffzkit.Base.{
  Bytes, same_bytes, bytes_lt, ℕ, ◌≤◌, ◌≡◌, ◌⊎◌, refl, true, some, List, [], ◌∷◌, ◌++◌, length,
  arith,
}
use ffzkit.Util.Logger.FileChannel.{Channel, emplace, change_file, write}
use ffzkit.Util.Logger.FileChannel.Clean.{change_file_kept}

abbrev day_of : Bytes → ℕ
day_of [] = 0
day_of (d ∷ ds) = d

abbrev named : ℕ → ℕ → Bytes
named second index = second ∷ index ∷ []

abbrev week : Channel
week = record {
  files = (1 ∷ 0 ∷ []) ∷ (4 ∷ 0 ∷ []) ∷ (5 ∷ 0 ∷ []) ∷ [];
  path = 5 ∷ 0 ∷ [];
  can_write = true;
  index = 1;
  last_day = some 5;
  last_check_time = 0;
  max_day = 3;
  max_size = 1;
  max_count = 2;
  deleted = [];
}

next_day : write day_of (λ s. s) named (λ f. 0) (λ f. true) 6 6 week ≡ record week {
  files = (5 ∷ 0 ∷ []) ∷ (6 ∷ 0 ∷ []) ∷ [];
  path = 6 ∷ 0 ∷ [];
  last_day = some 6;
  deleted = (1 ∷ 0 ∷ []) ∷ (4 ∷ 0 ∷ []) ∷ [];
}
unfolding write same_bytes bytes_lt
next_day = refl

change_file_kept_example :
    let t = change_file day_of (λ s. s) named (λ f. 0) (λ f. true) 6 6 week in
    let log_file : Bytes = 6 ∷ 1 ∷ [] in
    (t.path ≡ log_file)
    × (t.can_write ≡ true)
    × ((removed : List Bytes) × (left : List Bytes) × (after : List Bytes) × (emplace log_file
            week.files
          ≡ removed ++ (left ++ log_file ∷ after))
        × (t.files ≡ left ++ log_file ∷ after)
        × (t.deleted ≡ removed))
    × ((length t.files ≤ 2) ⊎ ((rest : List Bytes) × (t.files ≡ log_file ∷ rest)))
change_file_kept_example =
    change_file_kept day_of (λ s. s) named (λ f. 0) (λ f. true) 6 6 week (omega arith)

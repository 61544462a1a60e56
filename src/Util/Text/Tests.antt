-- ===== src/Util/Text/Tests.antt =====
-- Strings are written as texts; every byte here is ASCII but 0xFF.
use ffzkit.Base.{Bytes, codes, ◌≡◌, refl, true, false, List, [], ◌∷◌, some, arith}
use ffzkit.Util.Text.Find.{start_with, end_with}
use ffzkit.Util.Text.Split.{split, cmd_split, Pieces, split-Pieces}
use ffzkit.Util.Text.Trim.{trim, blanks}

split_path : split (codes "/usr//lib") (codes "/") ≡ some (codes "usr" ∷ codes "lib" ∷ [])
unfolding split
split_path = refl

split_empty : (split [] (codes ",") ≡ some ([] ∷ [])) × (cmd_split [] (codes ",") ≡ some [])
unfolding split cmd_split
split_empty = (refl, refl)

trim_line : trim blanks (codes " key \r\n") ≡ some (codes "key")
unfolding trim
trim_line = refl

ends :
    (end_with (codes "2024.log") (codes ".log") ≡ true)
    × (start_with (codes "x.log") (codes "log") ≡ false)
unfolding end_with start_with
ends = (refl, refl)

split-Pieces_example :
    (ps : List Bytes) × (split (codes "a::b") (codes "::") ≡ some ps)
    × Pieces (codes "::") (codes "a::b") ps
split-Pieces_example = split-Pieces (codes "::") (omega arith) (codes "a::b") (λ e. cc)

-- ===== src/Util/Logger/Names/Tests.antt =====
-- The log files of a day in January, whose index stands in the two bytes behind the underscore.
use ffzkit.Base.{
  Bytes, bytes_lt, codes, ℕ, ◌-◌, ◌≡◌, refl, true, ◌++◌, Option, none, some, ltb, arith, get_elem?,
}
use ffzkit.Util.Logger.Names.{Date, log_name}
use ffzkit.Util.Logger.Names.Ordered.{place, log_name-place}
use ffzkit.Util.Logger.Names.Hundred.{hundred_in_front}

abbrev january : Date
january = record { year = 2025; month = 1; day = 31 }

abbrev february : Date
february = record { year = 2025; month = 2; day = 1 }

named : log_name january 7 ≡ codes "2025-01-31_07.log"
unfolding log_name
named = refl

log_name-place_example :
    bytes_lt (codes "log/" ++ log_name january 12) (codes "log/" ++ log_name february 3)
    ≡ ltb (place january 12) (place february 3)
log_name-place_example =
    log_name-place (codes "log/") january february 12 3
      (record {
        year_from = omega arith;
        year_to = omega arith;
        month_to = omega arith;
        day_to = omega arith;
        index_to = omega arith;
      })
      (record {
        year_from = omega arith;
        year_to = omega arith;
        month_to = omega arith;
        day_to = omega arith;
        index_to = omega arith;
      })

hundred_in_front_example :
    bytes_lt (codes "log/" ++ log_name january 100) (codes "log/" ++ log_name january 99) ≡ true
hundred_in_front_example =
    hundred_in_front (codes "log/") january 99 100
      (record {
        year_from = omega arith;
        year_to = omega arith;
        month_to = omega arith;
        day_to = omega arith;
        index_to = omega arith;
      })
      (omega arith) (omega arith) (omega arith)

-- What stands at place 12 of the name, less the digit 0.
abbrev digit_of : Bytes → Option ℕ
digit_of name = elim (get_elem? name 12) [ none ↦ none | some c ↦ some (c - 48) ]

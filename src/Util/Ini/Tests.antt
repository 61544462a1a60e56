-- ===== src/Util/Ini/Tests.antt =====
-- A map of three entries, of which one has an empty tag, written and read.
use ffzkit.Base.{Bytes, codes, same_bytes, ℕ, ◌<◌, ◌≡◌, refl, List, [], ◌∷◌, map, arith}
use ffzkit.Util.Ini.{Entries, parsed, thrown, parse, dump, tokenize, assign}
use ffzkit.Util.Ini.Lines.{IsClean, IsName}
use ffzkit.Util.Ini.Maps.{find_value}
use ffzkit.Util.Ini.RoundTrip.{IsFrame, parse-dump}
use ffzkit.Util.Ini.Sections.{Part, entry, IsGood}
use ffzkit.Util.Text.Find.{find}
use ffzkit.Util.Text.Trim.{trim}

abbrev port : Part
port = record { tag = b'n' ∷ []; name = b'p' ∷ []; value = b'8' ∷ b'0' ∷ [] }

abbrev host : Part
host = record { tag = b'n' ∷ []; name = b'h' ∷ []; value = [] }

abbrev level : Part
level = record { tag = []; name = b'l' ∷ []; value = b'2' ∷ [] }

abbrev parts : List Part
parts = level ∷ host ∷ port ∷ []

written : dump (codes ";") [] (map entry parts) ≡ codes ";\r\nl=2\r\n\r\n[n]\r\nh=\r\np=80\r\n\r\n"
unfolding dump find same_bytes
written = refl

-- Blanks and comments are dropped, a value is replaced, and the map is in the order of its keys.
read :
    parse (codes "# x\n\n[ a ]\r\n b = 2 \nb=3\n[A]\nc") []
    ≡ parsed ((codes "A.c", []) ∷ (codes "a.b", codes "3") ∷ [])
unfolding parse tokenize assign trim find same_bytes
read = refl

throws : parse (b'a' ∷ b'\n' ∷ 255 ∷ []) [] ≡ thrown ((b'.' ∷ b'a' ∷ [], []) ∷ [])
unfolding parse tokenize trim find
throws = refl

comment-IsFrame : IsFrame (b';' ∷ [])
comment-IsFrame = record {
  skipped = (record { ascii = (omega arith, tt); starts = refl; ends = refl }, refl);
  line = ((λ q. omega (arith, q)), tt);
}

none-IsFrame : IsFrame []
none-IsFrame = record { skipped = (record { ascii = tt; starts = tt; ends = tt }, refl); line = tt }

nil-IsClean_here : IsClean []
nil-IsClean_here = record { ascii = tt; starts = tt; ends = tt }

name-IsClean : (c : ℕ) → b'^' < c → c < 0xff → IsClean (c ∷ [])
name-IsClean c h k = record {
  ascii = (k, tt);
  starts = ground (arith, h);
  ends = ground (arith, h);
}

simple-IsName : (c : ℕ) → b'^' < c → c < 0xff → IsName (c ∷ [])
simple-IsName c h k = record {
  clean = name-IsClean c h k;
  no_sign = ((λ q. omega (arith, q)), tt);
  no_comment = ground (arith, h);
  no_hash = ground (arith, h);
  no_bracket = ground (arith, h);
}

level-IsGood : IsGood level
level-IsGood = record {
  tag_clean = nil-IsClean_here;
  tag_line = tt;
  tag_dot = tt;
  name_is = simple-IsName b'l' (omega arith) (omega arith);
  name_line = ((λ q. omega (arith, q)), tt);
  value_clean = record { ascii = (omega arith, tt); starts = refl; ends = refl };
  value_line = ((λ q. omega (arith, q)), tt);
}

host-IsGood : IsGood host
host-IsGood = record {
  tag_clean = name-IsClean b'n' (omega arith) (omega arith);
  tag_line = ((λ q. omega (arith, q)), tt);
  tag_dot = ((λ q. omega (arith, q)), tt);
  name_is = simple-IsName b'h' (omega arith) (omega arith);
  name_line = ((λ q. omega (arith, q)), tt);
  value_clean = nil-IsClean_here;
  value_line = tt;
}

port-IsGood : IsGood port
port-IsGood = record {
  tag_clean = name-IsClean b'n' (omega arith) (omega arith);
  tag_line = ((λ q. omega (arith, q)), tt);
  tag_dot = ((λ q. omega (arith, q)), tt);
  name_is = simple-IsName b'p' (omega arith) (omega arith);
  name_line = ((λ q. omega (arith, q)), tt);
  value_clean = record { ascii = (omega arith, (omega arith, tt)); starts = refl; ends = refl };
  value_line = ((λ q. omega (arith, q)), ((λ q. omega (arith, q)), tt));
}

parse-dump_example :
    (m : Entries) × (parse (dump (b';' ∷ []) [] (map entry parts)) [] ≡ parsed m)
    × ((key : Bytes) → find_value key m ≡ find_value key (map entry parts))
unfolding find_value same_bytes
parse-dump_example =
    parse-dump (b';' ∷ []) [] parts comment-IsFrame none-IsFrame
      (level-IsGood, (host-IsGood, (port-IsGood, tt))) (refl, (refl, (refl, tt)))

-- ===== src/Util/Ini.antt =====
-- mINI_basic of src/Util/mini.h: parse and dump over a std::map of strings, which is in the order of
-- its keys. parseFile and dumpFile read and write the text; they are not modelled.
mod Tests
pub mod Sections
pub mod RoundTrip
pub mod Lines
pub mod Tokens
pub mod Maps
use mathlib.Core.List.{reverse}
use ffzkit.Util.Text.Find.{find}
use ffzkit.Util.Text.Trim.{listed, trim, blanks, ◌>>=◌}
use ffzkit.Base.{
  Bytes, same_bytes, bytes_lt, ℕ, suc, ◌+◌, ◌-◌, Bool, true, false, not, ◌&&◌, ◌||◌, List, [], ◌∷◌,
  ◌++◌, Option, none, some, leb, ltb, ◌==◌, if◌then◌else◌, length, take, drop,
}

abbrev pub is_empty : Bytes → Bool
is_empty [] = true
is_empty (c ∷ cs) = false

-- The loop of tokenize. `back` is the last of the tokens, and `older` are those before it, the
-- last first. A separator behind a token that is empty adds nothing.
pub tokens_loop : Bytes → Bytes → Bytes → List Bytes → List Bytes
tokens_loop chars [] back older = back ∷ older
tokens_loop chars (c ∷ cs) back older =
    tokens_loop chars cs (if listed c chars then [] else back ++ c ∷ [])
      (if listed c chars && not (is_empty back) then back ∷ older else older)

-- The loop that takes empty tokens off the end.
pub pop_empty : List Bytes → List Bytes
pop_empty [] = []
pop_empty ([] ∷ older) = pop_empty older
pop_empty ((c ∷ cs) ∷ older) = (c ∷ cs) ∷ older

unfoldable pub tokenize : Bytes → Bytes → List Bytes
unfolding tokens_loop pop_empty
tokenize self chars = reverse (pop_empty (tokens_loop chars self [] []))

abbrev pub Entries : Type 0
Entries = List (Bytes × Bytes)

-- `(*this)[key] = value`.
pub assign : Bytes → Bytes → Entries → Entries
unfolding bytes_lt
assign key value [] = (key, value) ∷ []
assign key value ((k, v) ∷ m) =
    let rest = assign key value m in
    if same_bytes k key
    then (key, value) ∷ m
    else if bytes_lt key k
    then (key, value) ∷ (k, v) ∷ m
    else (k, v) ∷ rest

abbrev pub front_is : ℕ → Bytes → Bool
front_is c [] = false
front_is c (x ∷ xs) = x == c

abbrev pub back_is : ℕ → Bytes → Bool
back_is c s = front_is c (reverse s)

-- `line.substr(1, line.size() - 2)`.
abbrev pub inner : Bytes → Bytes
inner line = take (length line - 2) (drop 1 line)

-- The text up to the `=`, and the trimmed text behind it.
abbrev pub symbol_part : Option ℕ → Bytes → Bytes
symbol_part none line = line
symbol_part (some at) line = take at line

abbrev pub value_part : Option ℕ → Bytes → Option Bytes
value_part none line = some []
value_part (some at) line = trim blanks (drop (suc at) line)

-- A line of parse, trimmed, with the tag so far: the tag and the map behind it. `none` is the
-- exception that `trim` throws.
pub read_line : Bytes → Bytes → Entries → Option (Bytes × Entries)
unfolding assign
read_line tag line m = elim (is_empty line || front_is b';' line || front_is b'#' line) [
  | true ↦ some (tag, m)
  | false ↦ elim (leb 3 (length line) && front_is b'[' line && back_is b']' line) [
    | true ↦ do tag' ← trim blanks (inner line); some (tag', m)
    | false ↦ do
      symbol ← trim blanks (tag ++ (b'.' ∷ symbol_part (find (b'=' ∷ []) line) line))
      value ← value_part (find (b'=' ∷ []) line) line
      some (tag, assign symbol value m)
  ]
]

pub parse_line : Bytes → Bytes → Entries → Option (Bytes × Entries)
unfolding read_line
parse_line tag line m = do line' ← trim blanks line; read_line tag line' m

-- Behind an exception the map has the entries of the lines before; whether the key of the line
-- that threw is in it with an empty value depends on the order in which the compiler evaluates
-- the assignment, and is not modelled.
pub data Parsed : Type 0 where
  parsed thrown : Entries → Parsed

pub parse_lines : Bytes → List Bytes → Entries → Parsed
unfolding parse_line
parse_lines tag [] m = parsed m
parse_lines tag (line ∷ lines) m = elim (parse_line tag line m) [
  | none ↦ thrown m
  | some (tag', m') ↦ parse_lines tag' lines m'
]

unfoldable pub parse : Bytes → Entries → Parsed
unfolding parse_lines
parse text m = parse_lines [] (tokenize text (b'\n' ∷ [])) m

abbrev pub crlf : Bytes
crlf = b'\r' ∷ b'\n' ∷ []

-- The tag and the name of a key, cut at its first dot.
pub split_key : Bytes → Bytes × Bytes
split_key key = elim (find (b'.' ∷ []) key) [
  | none ↦ ([], key)
  | some pos ↦ (take pos key, drop (suc pos) key)
]

pub record Dump : Type 0 where
  pub front : Bytes
  pub output : Bytes
  pub tag : Bytes

abbrev pub assignment : Bytes → Bytes → Bytes
assignment name value = name ++ (b'=' ∷ value ++ crlf)

-- The body of the loop of dump, by the two parts of the key.
pub dump_parts : Bytes → Bytes → Bytes → Dump → Dump
dump_parts tag name value d =
    if is_empty tag then record d { front = d.front ++ assignment name value } else record d {
      output =
          (d.output ++ (if same_bytes d.tag tag then [] else crlf ++ (b'[' ∷ tag ++ (b']' ∷ crlf))))
          ++ assignment name value;
      tag = tag;
    }

pub dump_loop : Entries → Dump → Dump
unfolding split_key dump_parts
dump_loop [] d = d
dump_loop ((key, value) ∷ m) d =
    dump_loop m (dump_parts (split_key key).0 (split_key key).1 value d)

abbrev pub line_of : Bytes → Bytes
line_of text = if is_empty text then [] else text ++ crlf

unfoldable pub dump : Bytes → Bytes → Entries → Bytes
unfolding dump_loop
dump header footer m =
    let d = dump_loop m (record { front = line_of header; output = []; tag = [] }) in
    d.front ++ (d.output ++ (crlf ++ line_of footer))
